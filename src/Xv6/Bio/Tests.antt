-- ===== src/Xv6/Bio/Tests.antt =====
-- Asg02/xv6-2/bio.c: a cache of two buffers.
use cs5460spring.Base.{
  ℕ, ◌<◌, zero, suc, ◌≡◌, ◌≢◌, refl, sym, ap, inl, inr, ◌+◌, Option, [], ◌∷◌, some, none, true,
  false, arith, get_elem?, List, ◌++◌,
}
use cs5460spring.Xv6.Bio.{Buf, Bcache, binit, bget, brelse, recycled}
use cs5460spring.Xv6.Bio.Unique.{Listed, IsCache}
use cs5460spring.Xv6.Bio.Get.{BgetSpec, bget_lem}
use cs5460spring.Xv6.Bio.Release.{binit-IsCache, brelse_lem}

bget_lem_example : BgetSpec 1 7 (binit 2) (bget 1 7 (binit 2))
bget_lem_example = bget_lem 1 7 (binit 2) (binit-IsCache 2)

-- Blocks 7 and 8 have a buffer each; that of block 7 is the last of the list.
abbrev two_used : Bcache
two_used = record { bufs = recycled 1 7 ∷ recycled 1 8 ∷ []; order = 1 ∷ 0 ∷ [] }

abbrev block_of : Option Buf → ℕ
block_of none = 0
block_of (some b) = b.blockno

two_used_at : (i : ℕ) (b : Buf) → get_elem? two_used.bufs i ≡ some b → (i < 2) × (b.blockno ≡ 7 + i)
two_used_at zero b at = (omega arith, sym (ap block_of at))
two_used_at (suc zero) b at = (omega arith, sym (ap block_of at))
two_used_at (suc (suc i)) b at = absurd (ground (arith, at))

two_used-Listed : (i : ℕ) → i < 2 → Listed i two_used.order
two_used-Listed zero less = inr (inl refl)
two_used-Listed (suc zero) less = inl refl
two_used-Listed (suc (suc i)) less = absurd (omega (arith, less))

two_used-IsCache : IsCache two_used
two_used-IsCache = record {
  once = ((omega arith, tt), (tt, tt));
  listed = λ i b at. two_used-Listed i (two_used_at i b at).0;
  unique = λ i j a b at at' used e e'. omega (arith, two_used_at i a at, two_used_at j b at');
}

brelse_lem_example :
    (brelse false 0 two_used ≡ none)
    × ((c' : Bcache) × (brelse true 0 two_used ≡ some c')
        × IsCache c'
        × (get_elem? c'.bufs 0 ≡ some (record (recycled 1 7) { refcnt = 0 }))
        × ((j : ℕ) → 0 ≢ j → get_elem? c'.bufs j ≡ get_elem? two_used.bufs j)
        × ((recycled 1 7).refcnt ≡ 1
            → (front : List ℕ) × (back : List ℕ) × (two_used.order ≡ front ++ (0 ∷ back))
              × (c'.order ≡ 0 ∷ (front ++ back)))
        × (1 < 1 → c'.order ≡ two_used.order))
brelse_lem_example = brelse_lem 0 two_used (recycled 1 7) two_used-IsCache refl (omega arith)
