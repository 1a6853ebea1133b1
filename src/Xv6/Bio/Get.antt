-- ===== src/Xv6/Bio/Get.antt =====
-- Asg02/xv6-2/bio.c: the answer of `bget`.
use cs5460spring.Base.{
  ℕ, ◌+◌, ◌%◌, ◌^◌, ◌<◌, ◌≡◌, ◌≢◌, ◌⊎◌, inl, inr, ◌∙◌, sym, ap, refl, arith, Option, none, some,
  true, false, ℕ_discrete, get_elem?, get_elem?-modify_self, get_elem?-modify_ne,
}
use cs5460spring.Xv6.Bio.{
  Buf, Bcache, is_cached, is_spare, search, search_back, recycled, bget_at, bget,
}
use cs5460spring.Xv6.Bio.Unique.{
  IsCache, Outcome, search_lem, search_back_lem, keep-IsCache, Uncached, recycle-IsCache,
}

-- What `bget` answers. With a buffer: it holds the block, with a reference more if it held it
-- before, else recycled, not valid, from a buffer with no reference and no uncommitted change; no
-- other buffer changes. With a panic: no buffer holds the block and each is in use.
abbrev pub BgetSpec : ℕ → ℕ → Bcache → Option (ℕ × Bcache) → Type 0
BgetSpec dev blockno c none =
    Uncached dev blockno c
    × ((j : ℕ) (b : Buf) → get_elem? c.bufs j ≡ some b → (0 < b.refcnt) ⊎ (b.dirty ≡ true))
BgetSpec dev blockno c (some (i, c')) =
    IsCache c'
    × ((old : Buf) × (b : Buf) × (get_elem? c.bufs i ≡ some old)
        × (get_elem? c'.bufs i ≡ some b)
        × (b.dev ≡ dev)
        × (b.blockno ≡ blockno)
        × ((b ≡ record old { refcnt = (old.refcnt + 1) % 2 ^ 32 })
            ⊎ (Uncached dev blockno c
                × (old.refcnt ≡ 0)
                × (old.dirty ≡ false)
                × (b.valid ≡ false)
                × (b.dirty ≡ false)
                × (b.refcnt ≡ 1))))
    × ((j : ℕ) → i ≢ j → get_elem? c'.bufs j ≡ get_elem? c.bufs j)

is_cached_lem :
    (dev blockno : ℕ) (o : Option Buf)
    → is_cached dev blockno o ≡ true
    → (b : Buf) × (o ≡ some b) × (b.dev ≡ dev) × (b.blockno ≡ blockno)
is_cached_lem dev blockno none passes = absurd (ground (arith, passes))
is_cached_lem dev blockno (some b) passes =
    (b, refl, ground (arith, passes), ground (arith, passes))

is_spare_lem :
    (o : Option Buf)
    → is_spare o ≡ true
    → (b : Buf) × (o ≡ some b) × (b.refcnt ≡ 0) × (b.dirty ≡ false)
is_spare_lem none passes = absurd (ground (arith, passes))
is_spare_lem (some b) passes = (b, refl, ground (arith, passes), ground (arith, passes))

not_cached :
    (dev blockno : ℕ) (c : Bcache)
    → IsCache c
    → Outcome (is_cached dev blockno) c.bufs c.order none
    → Uncached dev blockno c
not_cached dev blockno c x all j b at d n =
    let fails : is_cached dev blockno (some b) ≡ false =
      ap (is_cached dev blockno) (sym at) ∙ all j (x.listed j b at) in
    ground (arith, fails, d, n)

bget_at_lem :
    (dev blockno : ℕ) (c : Bcache) (hit spare : Option ℕ)
    → IsCache c
    → Outcome (is_cached dev blockno) c.bufs c.order hit
    → Outcome is_spare c.bufs c.order spare
    → BgetSpec dev blockno c (bget_at dev blockno c hit spare)
unfolding bget_at
bget_at_lem dev blockno c (some i) spare x passes free =
    let (b, at, d, n) = is_cached_lem dev blockno (get_elem? c.bufs i) passes in
    (
      keep-IsCache c i (λ b. record b { refcnt = (b.refcnt + 1) % 2 ^ 32 }) c.order
          (λ b. (refl, refl)) (λ j l. l) x.once x,
      (
        b,
        record b { refcnt = (b.refcnt + 1) % 2 ^ 32 },
        at,
        get_elem?-modify_self c.bufs i (λ b. record b { refcnt = (b.refcnt + 1) % 2 ^ 32 }) at,
        d,
        n,
        inl refl,
      ),
      λ j ne. get_elem?-modify_ne c.bufs i j _ ne,
    )
bget_at_lem dev blockno c none (some i) x missing passes =
    let (b, at, unreferenced, clean) = is_spare_lem (get_elem? c.bufs i) passes in
    let fresh = not_cached dev blockno c x missing in
    (
      recycle-IsCache c i dev blockno fresh x,
      (
        b,
        recycled dev blockno,
        at,
        get_elem?-modify_self c.bufs i (λ b. recycled dev blockno) at,
        refl,
        refl,
        inr (fresh, unreferenced, clean, refl, refl, refl),
      ),
      λ j ne. get_elem?-modify_ne c.bufs i j _ ne,
    )
bget_at_lem dev blockno c none none x missing full = (
  not_cached dev blockno c x missing,
  λ j b at.
      let fails : is_spare (some b) ≡ false = ap is_spare (sym at) ∙ full j (x.listed j b at) in
      in_use b fails,
)
  where
    in_use : (b : Buf) → is_spare (some b) ≡ false → (0 < b.refcnt) ⊎ (b.dirty ≡ true)
    in_use b fails = elim (ℕ_discrete b.refcnt 0) [
      | no ne ↦ inl (omega arith)
      | yes e ↦ inr (ground (arith, fails, e))
    ]

-- In a cache whose list passes once through every buffer and that holds each block once, `bget`
-- either returns a buffer of the block, the one that had it if there is one and else one with no
-- reference and no uncommitted change, which it recycles; or it panics, and then the block has no
-- buffer and all buffers are in use. The list still passes once through every buffer, the cache holds
-- each block once, and no other buffer changes.
pub bget_lem :
    (dev blockno : ℕ) (c : Bcache) → IsCache c → BgetSpec dev blockno c (bget dev blockno c)
unfolding bget
bget_lem dev blockno c x =
    bget_at_lem dev blockno c (search (is_cached dev blockno) c.bufs c.order)
      (search_back is_spare c.bufs c.order) x (search_lem (is_cached dev blockno) c.bufs c.order)
      (search_back_lem is_spare c.bufs c.order)
