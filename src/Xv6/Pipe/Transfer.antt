-- ===== src/Xv6/Pipe/Transfer.antt =====
-- Asg02/xv6-2/pipe.c: what `pipewrite` and `piperead` move.
use cs5460spring.Base.{
  ℕ, zero, suc, ◌+◌, ◌-◌, ◌≤◌, ◌<◌, min, ◌≡◌, inl, inr, ◌∙◌, sym, ap, refl, arith, List, [], ◌∷◌,
  ◌++◌, Bool, true, false, not, ◌&&◌, ◌||◌, if◌then◌else◌, Bool-cases, length, take, drop,
  length-append, length-take, take-nil,
}
use mathlib.Core.List.{append_assoc, append-nil}
use cs5460spring.Xv6.Pipe.{
  Pipe, Channel, readers, writers, Ended, returns, fails, asleep, Others, pipe_size, is_full,
  is_empty, put, front, pop, write_loop, pipewrite, read_loop, piperead,
}
use cs5460spring.Xv6.Pipe.Queue.{
  IsValid, held, contents, length-contents, empty-contents, put_queues, pop_dequeues, full-held,
}

-- The copying loop takes the first `n` bytes, or all, and leaves the rest.
read_loop_lem :
    (n : ℕ) (p : Pipe)
    → IsValid p
    → let (cs, p') = read_loop n p in
      IsValid p' × (cs ≡ take n (contents p)) × (contents p' ≡ drop n (contents p))
unfolding read_loop
read_loop_lem zero p v = (v, refl, refl)
read_loop_lem (suc n) p v = elim (Bool-cases (is_empty p)) [
  | inl none_left ↦ rw none_left (
    v,
    ap (take (suc n)) (sym (empty-contents p v none_left)),
    empty-contents p v none_left ∙ ap (drop (suc n)) (sym (empty-contents p v none_left)),
  )
  | inr more ↦ rw more (
      let (v', first) = pop_dequeues p v more in
      let (v2, got, left) = read_loop_lem n (pop p) v' in
      (
        v2,
        ap (◌∷◌ (front p)) got ∙ ap (take (suc n)) (sym first),
        left ∙ ap (drop (suc n)) (sym first),
      ))
]

-- On a valid pipe, a read that need not wait, since the pipe holds bytes or its write end is closed,
-- returns the oldest bytes, at most `n`, in order, leaves the others in a valid
-- pipe, and wakes the writers.
pub piperead_lem :
    (sleeps : List Others) (killed : Bool) (p : Pipe) (n : ℕ)
    → IsValid p
    → (is_empty p && p.writeopen) ≡ false
    → let (end, cs, p', woken) = piperead sleeps killed p n in
      (end ≡ returns (min n (held p)))
      × (cs ≡ take n (contents p))
      × (contents p' ≡ drop n (contents p))
      × IsValid p'
      × (woken ≡ writers ∷ [])
unfolding piperead
piperead_lem [] killed p n v ready = rw ready (
    let (v', got, left) = read_loop_lem n p v in
    (
      ap returns (ap length got ∙ (length-take n (contents p) ∙ ap (min n) (length-contents p))),
      got,
      left,
      v',
      refl,
    ))
piperead_lem (others ∷ sleeps) killed p n v ready = rw ready (
    let (v', got, left) = read_loop_lem n p v in
    (
      ap returns (ap length got ∙ (length-take n (contents p) ∙ ap (min n) (length-contents p))),
      got,
      left,
      v',
      refl,
    ))

-- The calls of `wakeup` of a write up to its end or to its first sleep.
abbrev pub wakes_at : Ended → List Channel
wakes_at fails = []
wakes_at _ = readers ∷ []

-- What a write with no further sleeps does.
record Wrote (n : ℕ) (killed : Bool) (p : Pipe) (bytes : List ℕ) (end : Ended) (p' : Pipe)
    (woken : List Channel) : Type 0 where
  valid : IsValid p'
  woke : woken ≡ wakes_at end
  queued : contents p' ≡ contents p ++ take (pipe_size - held p) bytes
  fitted : length bytes + held p ≤ pipe_size → end ≡ returns n
  stuck :
      pipe_size < length bytes + held p → end ≡ (if not p.readopen || killed then fails else asleep)

write_more :
    (n : ℕ) (killed : Bool) (p : Pipe) (c : ℕ) (cs : List ℕ) (end : Ended) (p' : Pipe)
    (woken : List Channel)
    → IsValid p
    → is_full p ≡ false
    → Wrote n killed (put p c) cs end p' woken
    → Wrote n killed p (c ∷ cs) end p' woken
unfolding put
write_more n killed p c cs end p' woken v room w = record {
  valid = w.valid;
  woke = w.woke;
  queued = w.queued ∙ joined;
  fitted = λ h. w.fitted (omega (arith, grew));
  stuck = λ h. w.stuck (omega (arith, grew));
}
  where
    q : IsValid (put p c) × (contents (put p c) ≡ contents p ++ (c ∷ []))
    q = put_queues p v c room

    grew : held (put p c) ≡ suc (held p)
    grew = omega (
      arith,
      ap length q.1,
      length-append (contents p) (c ∷ []),
      length-contents p,
      length-contents (put p c),
    )

    spare : suc (pipe_size - held (put p c)) ≡ pipe_size - held p
    spare = omega (arith, grew, q.0.bounded)

    joined :
        contents (put p c) ++ take (pipe_size - held (put p c)) cs
        ≡ contents p ++ take (pipe_size - held p) (c ∷ cs)
    joined =
        ap (λ xs. xs ++ take (pipe_size - held (put p c)) cs) q.1
        ∙ (append_assoc (contents p) (c ∷ []) (take (pipe_size - held (put p c)) cs)
            ∙ ap (λ k. contents p ++ take k (c ∷ cs)) spare)

write_loop-Wrote :
    (n : ℕ) (killed : Bool) (p : Pipe) (bytes : List ℕ)
    → IsValid p
    → Wrote n killed p bytes
        (write_loop n [] killed p bytes).0
        (write_loop n [] killed p bytes).1
        (write_loop n [] killed p bytes).2
unfolding write_loop
write_loop-Wrote n killed p [] v = record {
  valid = v;
  woke = refl;
  queued =
      sym (ap (λ xs. contents p ++ xs) (take-nil (pipe_size - held p)) ∙ append-nil (contents p));
  fitted = λ h. refl;
  stuck = λ h. absurd (omega (arith, v.bounded));
}
write_loop-Wrote n killed p (c ∷ cs) v = elim (Bool-cases (is_full p)) [
  | inr room ↦ rw room (
      write_more n killed p c cs _ _ _ v room
        (write_loop-Wrote n killed (put p c) cs (put_queues p v c room).0))
  | inl full ↦ rw full (elim (Bool-cases (not p.readopen || killed)) [
    | inl gone ↦
        rw gone
          (stopped full fails [] refl (sym (ap (λ (b : Bool). if b then fails else asleep) gone)))
    | inr waits ↦ rw waits (
        stopped full asleep (readers ∷ []) refl
          (sym (ap (λ (b : Bool). if b then fails else asleep) waits)))
  ])
]
  where
    stopped :
        is_full p ≡ true
        → (end : Ended) (woken : List Channel) → woken ≡ wakes_at end
        → end ≡ (if not p.readopen || killed then fails else asleep)
        → Wrote n killed p (c ∷ cs) end p woken
    stopped full end woken wk e = record {
      valid = v;
      woke = wk;
      queued = sym (ap (λ k. contents p ++ take k (c ∷ cs)) none_left ∙ append-nil (contents p));
      fitted = λ h. absurd (omega (arith, full-held p v full));
      stuck = λ h. e;
    }
      where
        none_left : pipe_size - held p ≡ 0
        none_left = omega (arith, full-held p v full)

-- On a valid pipe, a write up to its first sleep queues the bytes that fit, in order, behind those
-- in the pipe. It returns the count if all fit; else it fails if the read end is closed or the
-- caller is killed, and sleeps if not. It wakes the readers once, but if it fails.
pub pipewrite_lem :
    (killed : Bool) (p : Pipe) (bytes : List ℕ)
    → IsValid p
    → let (end, p', woken) = pipewrite [] killed p bytes in
      IsValid p'
      × (contents p' ≡ contents p ++ take (pipe_size - held p) bytes)
      × (length bytes + held p ≤ pipe_size → end ≡ returns (length bytes))
      × (pipe_size < length bytes + held p
          → end ≡ (if not p.readopen || killed then fails else asleep))
      × (woken ≡ wakes_at end)
unfolding pipewrite
pipewrite_lem killed p bytes v =
    let w = write_loop-Wrote (length bytes) killed p bytes v in
    (w.valid, w.queued, w.fitted, w.stuck, w.woke)
