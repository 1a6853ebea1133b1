-- ===== src/Xv6/Bio.antt =====
-- Asg02/xv6-2/bio.c: the buffer cache. `bcache.lock` makes each critical section one step. A
-- `struct buf *` is an index of `bcache.buf`; the linked list through `next` is the list of indices
-- from `head.next` on, and `prev` walks it from its end. Contents and sleep locks are left out: a
-- caller sleeps on a buffer's lock after the step of `bget`.
pub mod Unique
pub mod Get
pub mod Release
mod Tests
use cs5460spring.Base.{
  ℕ, zero, suc, ◌+◌, ◌-◌, ◌%◌, ◌^◌, List, [], ◌∷◌, Option, none, some, Bool, true, false, not, ◌&&◌,
  if◌then◌else◌, ◌==◌, modify, get_elem?, replicate,
}

-- `struct buf`, with the flags B_VALID and B_DIRTY.
pub record Buf : Type 0 where
  pub valid : Bool
  pub dirty : Bool
  pub dev : ℕ
  pub blockno : ℕ
  pub refcnt : ℕ

pub record Bcache : Type 0 where
  pub bufs : List Buf
  pub order : List ℕ

-- `n - 1` down to 0: each round of `binit` puts its buffer at the head.
abbrev pub last_first : ℕ → List ℕ
last_first zero = []
last_first (suc n) = n ∷ last_first n

-- `binit`, with NBUF buffers of zeros.
pub binit : ℕ → Bcache
binit nbuf = record {
  bufs = replicate nbuf (record { valid = false; dirty = false; dev = 0; blockno = 0; refcnt = 0 });
  order = last_first nbuf;
}

-- The two tests of `bget`.
abbrev pub is_cached : ℕ → ℕ → Option Buf → Bool
is_cached dev blockno none = false
is_cached dev blockno (some b) = b.dev == dev && b.blockno == blockno

abbrev pub is_spare : Option Buf → Bool
is_spare none = false
is_spare (some b) = b.refcnt == 0 && not b.dirty

-- The search from `head.next` on: the first index of the list whose buffer passes.
pub search : (Option Buf → Bool) → List Buf → List ℕ → Option ℕ
search test bufs [] = none
search test bufs (i ∷ order) =
    let rest = search test bufs order in if test (get_elem? bufs i) then some i else rest

-- The search from `head.prev` back: the last one.
pub search_back : (Option Buf → Bool) → List Buf → List ℕ → Option ℕ
search_back test bufs [] = none
search_back test bufs (i ∷ order) = elim (search_back test bufs order) [
  | some j ↦ some j
  | none ↦ if test (get_elem? bufs i) then some i else none
]

abbrev pub recycled : ℕ → ℕ → Buf
recycled dev blockno = record {
  valid = false;
  dirty = false;
  dev = dev;
  blockno = blockno;
  refcnt = 1;
}

-- `bget` after its searches. `refcnt` is a `uint`.
pub bget_at : ℕ → ℕ → Bcache → Option ℕ → Option ℕ → Option (ℕ × Bcache)
bget_at dev blockno c (some i) spare =
    some
      (i, record c { bufs = modify c.bufs i (λ b. record b { refcnt = (b.refcnt + 1) % 2 ^ 32 }) })
bget_at dev blockno c none (some i) =
    some (i, record c { bufs = modify c.bufs i (λ b. recycled dev blockno) })
bget_at dev blockno c none none = none

-- `none` is the panic "bget: no buffers".
pub bget : ℕ → ℕ → Bcache → Option (ℕ × Bcache)
unfolding bget_at search search_back
bget dev blockno c =
    bget_at dev blockno c (search (is_cached dev blockno) c.bufs c.order)
      (search_back is_spare c.bufs c.order)

-- `bread`: `iderw` reads a buffer that is not valid, and sets its flags.
abbrev pub read_in : Buf → Buf
read_in b = if b.valid then b else record b { valid = true; dirty = false }

pub bread : ℕ → ℕ → Bcache → Option (ℕ × Bcache)
unfolding bget
bread dev blockno c = elim (bget dev blockno c) [
  | none ↦ none
  | some (i, c') ↦ some (i, record c' { bufs = modify c'.bufs i read_in })
]

-- Unlinking a buffer from the list.
pub unlink : ℕ → List ℕ → List ℕ
unlink i [] = []
unlink i (j ∷ order) = let rest = unlink i order in if i == j then order else j ∷ rest

-- `brelse`, given the answer of `holdingsleep`; `none` is its panic. Who holds the lock of a buffer
-- has a reference to it, so the count is above 0.
pub brelse : Bool → ℕ → Bcache → Option Bcache
unfolding unlink
brelse held i c = elim (get_elem? c.bufs i) [
  | none ↦ none
  | some b ↦
      if not held
      then none
      else some (record {
        bufs = modify c.bufs i (λ x. record x { refcnt = b.refcnt - 1 });
        order = if b.refcnt - 1 == 0 then i ∷ unlink i c.order else c.order;
      })
]
