-- ===== src/Xv6/Pipe/Queue.antt =====
-- Asg02/xv6-2/pipe.c: the ring buffer of a pipe holds a queue of at most PIPESIZE bytes.
use cs5460spring.Base.{
  ℕ, zero, suc, ◌+◌, ◌-◌, ◌%◌, ◌^◌, ◌≤◌, ◌<◌, ◌≡◌, ◌≢◌, ◌∙◌, ap, ap₂, refl, arith, List, [], ◌∷◌,
  ◌++◌, true, false, ==_iff, length, get_or, set, length-set, get_or-set_self, get_or-set_ne,
}
use cs5460spring.Xv6.Pipe.{Pipe, pipe_size, is_full, is_empty, put, front, pop}

-- The number of bytes held: the difference of the counters, which wrap.
abbrev pub held : Pipe → ℕ
held p = (p.nwrite + 2 ^ 32 - p.nread) % 2 ^ 32

pub record IsValid (p : Pipe) : Type 0 where
  pub storage : length p.buf ≡ pipe_size
  pub read_fits : p.nread < 2 ^ 32
  pub write_fits : p.nwrite < 2 ^ 32
  pub bounded : held p ≤ pipe_size

-- The `n` bytes from counter value `r` on.
abbrev window : List ℕ → ℕ → ℕ → List ℕ
window buf r zero = []
window buf r (suc n) = get_or buf (r % pipe_size) 0 ∷ window buf (r + 1) n

abbrev pub contents : Pipe → List ℕ
contents p = window p.buf p.nread (held p)

pub length-contents : (p : Pipe) → length (contents p) ≡ held p
length-contents p = length-window p.buf p.nread (held p)
  where
    length-window : (buf : List ℕ) (r n : ℕ) → length (window buf r n) ≡ n
    length-window buf r zero = refl
    length-window buf r (suc n) = ap suc (length-window buf (r + 1) n)

-- Only the counter's place in the buffer matters.
window-place :
    (buf : List ℕ) (r r' n : ℕ) → r % pipe_size ≡ r' % pipe_size → window buf r n ≡ window buf r' n
window-place buf r r' zero e = refl
window-place buf r r' (suc n) e =
    ap₂ ◌∷◌ (ap (λ (k : ℕ). get_or buf k 0) e) (window-place buf (r + 1) (r' + 1) n (omega arith))

window-set :
    (buf : List ℕ) (c r n i : ℕ)
    → length buf ≡ pipe_size
    → n < pipe_size
    → i ≡ (r + n) % pipe_size
    → window (set buf i c) r (suc n) ≡ window buf r n ++ (c ∷ [])
window-set buf c r zero i full lt e =
    ap (λ (v : ℕ). v ∷ [])
      (ap (λ (k : ℕ). get_or (set buf i c) k 0) (omega arith)
        ∙ get_or-set_self buf i c 0 (omega arith))
window-set buf c r (suc n) i full lt e =
    ap₂ ◌∷◌ (get_or-set_ne buf i (r % pipe_size) c 0 (omega arith))
      (window-set buf c (r + 1) n i full (omega arith) (omega arith))

window-eq : (buf : List ℕ) (r n m : ℕ) → n ≡ m → window buf r n ≡ window buf r m
window-eq buf r n m e = ap (window buf r) e

module _ (p : Pipe) (v : IsValid p) where
  open v use {storage, read_fits, write_fits, bounded}

  -- The tests of the code, read on the queue.
  pub full-held : is_full p ≡ true → held p ≡ pipe_size
  full-held h = let e : p.nwrite ≡ (p.nread + pipe_size) % 2 ^ 32 = (==_iff _ _).0 h in omega arith

  pub not_full-held : is_full p ≡ false → held p < pipe_size
  not_full-held h = let e : p.nwrite ≢ (p.nread + pipe_size) % 2 ^ 32 = ground arith in omega arith

  pub empty-held : is_empty p ≡ true → held p ≡ 0
  empty-held h = let e : p.nread ≡ p.nwrite = (==_iff _ _).0 h in omega arith

  pub empty-contents : is_empty p ≡ true → contents p ≡ []
  empty-contents h = window-eq p.buf p.nread (held p) 0 (empty-held h)

  pub not_empty-held : is_empty p ≡ false → 0 < held p
  not_empty-held h = let e : p.nread ≢ p.nwrite = ground arith in omega arith

  -- A byte put into a valid pipe that is not full is queued last, and the pipe stays valid.
  pub put_queues :
      (c : ℕ)
      → is_full p ≡ false
      → IsValid (put p c) × (contents (put p c) ≡ contents p ++ (c ∷ []))
  unfolding put
  put_queues c room = (
    record {
      storage = length-set p.buf (p.nwrite % pipe_size) c ∙ storage;
      read_fits = read_fits;
      write_fits = omega arith;
      bounded = omega (arith, not_full-held room);
    },
    window-eq _ p.nread _ (suc (held p)) (omega (arith, not_full-held room))
        ∙ window-set p.buf c p.nread (held p) (p.nwrite % pipe_size) storage (not_full-held room)
            (omega arith),
  )

  -- What is taken from a valid pipe that is not empty is its first byte; the pipe stays valid.
  pub pop_dequeues :
      is_empty p ≡ false → IsValid (pop p) × (contents p ≡ front p ∷ contents (pop p))
  unfolding pop
  pop_dequeues some_byte = (
    record {
      storage = storage;
      read_fits = omega arith;
      write_fits = write_fits;
      bounded = omega (arith, not_empty-held some_byte);
    },
    window-eq p.buf p.nread (held p) (suc (held p - 1)) (omega (arith, not_empty-held some_byte))
        ∙ ap (◌∷◌ (front p)) (
            window-place p.buf (p.nread + 1) ((p.nread + 1) % 2 ^ 32) (held p - 1) (omega arith)
            ∙ window-eq p.buf _ _ (held (pop p)) (omega (arith, not_empty-held some_byte))),
  )
