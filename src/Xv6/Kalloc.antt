-- ===== src/Xv6/Kalloc.antt =====
-- Asg02/xv6-2/kalloc.c: the physical page allocator. `kmem.lock` makes each call one step.
pub mod Chain
mod Tests
pub mod Count
use cs5460spring.Base.{
  ℕ, zero, suc, ◌+◌, ◌-◌, ◌*◌, ◌/◌, ◌%◌, ◌^◌, Option, none, some, Bool, true, false, not, ◌&&◌,
  ◌||◌, if◌then◌else◌, ltb, leb, ◌==◌,
}

abbrev pub pg_size : ℕ
pg_size = 4096

abbrev pub kern_base : ℕ
kern_base = 0x80000000

abbrev pub phys_stop : ℕ
phys_stop = 0xE000000

-- `V2P`, on `uint`.
abbrev pub v2p : ℕ → ℕ
v2p a = (a + 2 ^ 32 - kern_base) % 2 ^ 32

-- Memory as words by address, and the head of the free list (0 is null). The word at a free page
-- is its `struct run`.
pub record Kmem : Type 0 where
  pub word : ℕ → ℕ
  pub freelist : ℕ
  pub use_lock : Bool

-- `memset(v, 1, PGSIZE)`, word by word.
abbrev pub junk : ℕ → (ℕ → ℕ) → ℕ → ℕ
junk v word a = if leb v a && ltb a (v + pg_size) then 0x01010101 else word a

abbrev pub store_word : (ℕ → ℕ) → ℕ → ℕ → ℕ → ℕ
store_word word v x a = if v == a then x else word a

-- The address `end` is the linker's.
module _ (end : ℕ) where
  -- `kfree`; `none` is its panic.
  pub kfree : ℕ → Kmem → Option Kmem
  kfree v k =
      if not (v % pg_size == 0) || ltb v end || leb phys_stop (v2p v)
      then none
      else some (record k { word = store_word (junk v k.word) v k.freelist; freelist = v })

  -- The loop of `freerange` from `p` on, with rounds left, on 32-bit addresses. `none` is a panic, or
  -- that the rounds ran out.
  pub free_pages : ℕ → ℕ → ℕ → Kmem → Option Kmem
  free_pages zero p vend k = none
  free_pages (suc n) p vend k =
      if leb ((p + pg_size) % 2 ^ 32) vend
      then elim (kfree p k) [
        | none ↦ none
        | some k' ↦ free_pages n ((p + pg_size) % 2 ^ 32) vend k'
      ]
      else some k

  -- `PGROUNDUP` and the loop; one round more than there are pages below `vend` is enough.
  pub freerange : ℕ → ℕ → Kmem → Option Kmem
  freerange vstart vend k =
      free_pages (vend / pg_size + 1) ((vstart + pg_size - 1) % 2 ^ 32 / pg_size * pg_size) vend k

  pub kinit1 : ℕ → ℕ → Kmem → Option Kmem
  kinit1 vstart vend k = freerange vstart vend (record k { use_lock = false })

  pub kinit2 : ℕ → ℕ → Kmem → Option Kmem
  kinit2 vstart vend k = elim (freerange vstart vend k) [
    | none ↦ none
    | some k' ↦ some (record k' { use_lock = true })
  ]

-- `kalloc`: the page, or 0.
pub kalloc : Kmem → ℕ × Kmem
kalloc k =
    if k.freelist == 0 then (0, k) else (k.freelist, record k { freelist = k.word k.freelist })

-- The loop of `freemem`, with rounds left: `freeMemBytes` is an `int`, kept as its 32-bit pattern.
-- `none` means that the rounds ran out.
pub count_free : ℕ → ℕ → ℕ → (ℕ → ℕ) → Option ℕ
count_free zero r bytes word = none
count_free (suc n) r bytes word =
    let rest = count_free n (word r) ((bytes + 4096) % 2 ^ 32) word in
    if r == 0 then some bytes else rest

-- A negative count becomes -1.
pub freemem : ℕ → Kmem → Option ℕ
unfolding count_free
freemem rounds k = elim (count_free rounds k.freelist 0 k.word) [
  | none ↦ none
  | some bytes ↦ some (if leb (2 ^ 31) bytes then 2 ^ 32 - 1 else bytes)
]
