-- ===== src/Xv6/Kalloc/Count.antt =====
-- Asg02/xv6-2/kalloc.c: how many pages there can be, and what `freemem` reports.
use cs5460spring.Base.{
  ℕ, zero, suc, ◌+◌, ◌-◌, ◌*◌, ◌/◌, ◌%◌, ◌^◌, ◌≤◌, ◌<◌, ◌≡◌, ◌≢◌, inl, inr, ◌∙◌, sym, ap, ap₂,
  subst, refl, some, arith, List, [], ◌∷◌, map, if◌then◌else◌, leb, ◌==◌, ==_iff, ==_of_ne, leb→le,
  Bool-cases, ℕ_discrete, length, length-map, All, All-map, Once,
}
use cs5460spring.Xv6.Kalloc.{
  Kmem, pg_size, kern_base, phys_stop, v2p, count_free, freemem, free_pages, freerange,
}
use cs5460spring.Xv6.Kalloc.Chain.{IsPage, IsFreelist, kfree_frees, count_free_lem}

-- `xs` without `n`.
remove : ℕ → List ℕ → List ℕ
remove n [] = []
remove n (x ∷ xs) = if x == n then remove n xs else x ∷ remove n xs

remove-absent : (n : ℕ) (xs : List ℕ) → All (λ y. n ≢ y) xs → length (remove n xs) ≡ length xs
unfolding remove
remove-absent n [] h = refl
remove-absent n (x ∷ xs) h = rw (==_of_ne x n (λ e. h.0 (sym e))) (ap suc (remove-absent n xs h.1))

remove-length : (n : ℕ) (xs : List ℕ) → Once xs → length xs ≤ suc (length (remove n xs))
unfolding remove
remove-length n [] o = omega arith
remove-length n (x ∷ xs) o = elim (ℕ_discrete x n) [
  | yes e ↦
      rw ((==_iff x n).1 e)
        (omega (arith, remove-absent n xs (subst (λ k. All (λ y. k ≢ y) xs) e o.0)))
  | no ne ↦ rw (==_of_ne x n ne) (omega (arith, remove-length n xs o.1))
]

remove-All : (P : ℕ → Type 0) (n : ℕ) (xs : List ℕ) → All P xs → All P (remove n xs)
unfolding remove
remove-All P n [] h = tt
remove-All P n (x ∷ xs) h = elim (Bool-cases (x == n)) [
  | inl hit ↦ rw hit (remove-All P n xs h.1)
  | inr miss ↦ rw miss (h.0, remove-All P n xs h.1)
]

remove-Once : (n : ℕ) (xs : List ℕ) → Once xs → Once (remove n xs)
unfolding remove
remove-Once n [] o = tt
remove-Once n (x ∷ xs) o = elim (Bool-cases (x == n)) [
  | inl hit ↦ rw hit (remove-Once n xs o.1)
  | inr miss ↦ rw miss (remove-All (λ y. x ≢ y) n xs o.0, remove-Once n xs o.1)
]

remove-below : (n : ℕ) (xs : List ℕ) → All (λ x. x < suc n) xs → All (λ x. x < n) (remove n xs)
unfolding remove
remove-below n [] h = tt
remove-below n (x ∷ xs) h = elim (ℕ_discrete x n) [
  | yes e ↦ rw ((==_iff x n).1 e) (remove-below n xs h.1)
  | no ne ↦ rw (==_of_ne x n ne) (omega (arith, h.0), remove-below n xs h.1)
]

-- Different numbers below `n` are at most `n` many.
pub length-Once : (n : ℕ) (xs : List ℕ) → All (λ x. x < n) xs → Once xs → length xs ≤ n
length-Once zero [] h o = omega arith
length-Once zero (x ∷ xs) h o = absurd (omega (arith, h.0))
length-Once (suc n) xs h o = omega (
  arith,
  remove-length n xs o,
  length-Once n (remove n xs) (remove-below n xs h) (remove-Once n xs o),
)

-- The frame number of a page.
abbrev frame : ℕ → ℕ
frame v = v2p v / pg_size

frames-below :
    (end : ℕ) (pages : List ℕ) → All (IsPage end) pages → All (λ x. x < 57344) (map frame pages)
frames-below end [] h = tt
frames-below end (v ∷ vs) h = (omega (arith, h.0), frames-below end vs h.1)

frames-All :
    (end v : ℕ) (pages : List ℕ)
    → kern_base ≤ end
    → IsPage end v
    → All (IsPage end) pages
    → All (λ u. v ≢ u) pages
    → All (λ x. frame v ≢ x) (map frame pages)
frames-All end v [] base page ps ne = tt
frames-All end v (u ∷ us) base page ps ne = (
  (λ e. ne.0 (let (al, lo, hi, fits) = page in let (al', lo', hi', fits') = ps.0 in omega arith)),
  frames-All end v us base page ps.1 ne.1,
)

frames-Once :
    (end : ℕ) (pages : List ℕ)
    → kern_base ≤ end
    → All (IsPage end) pages
    → Once pages
    → Once (map frame pages)
frames-Once end [] base ps o = tt
frames-Once end (v ∷ vs) base ps o =
    (frames-All end v vs base ps.0 ps.1 o.0, frames-Once end vs base ps.1 o.1)

pub pages-bound :
    (end : ℕ) (k : Kmem) (pages : List ℕ)
    → kern_base ≤ end
    → IsFreelist end k pages
    → length pages ≤ 57344
pages-bound end k pages base f = omega (
  arith,
  length-map frame pages,
  length-Once 57344 (map frame pages) (frames-below end pages f.are_pages)
      (frames-Once end pages base f.are_pages f.once),
)

-- With the kernel above KERNBASE, and rounds for more than 57344 pages, `freemem` ends, and returns 4096 bytes for each page on the free list: with physical memory up to
-- PHYSTOP its `int` never overflows, and the -1 is never returned.
pub freemem_counts :
    (end rounds : ℕ) (k : Kmem) (pages : List ℕ)
    → kern_base ≤ end
    → IsFreelist end k pages
    → 57344 < rounds
    → freemem rounds k ≡ some (4096 * length pages)
unfolding freemem
freemem_counts end rounds k pages base f enough =
    rw (counted, freemem) (ap some (ground (arith, pages-bound end k pages base f)))
  where
    counted : count_free rounds k.freelist 0 k.word ≡ some (4096 * length pages)
    counted =
        count_free_lem rounds k.freelist 0 k.word pages
          (omega (arith, pages-bound end k pages base f))
          (omega (arith, pages-bound end k pages base f)) f.chain
        ∙ ap (λ (t : ℕ). some t) (omega arith)

All-ne_of_lt : (p : ℕ) (pages : List ℕ) → All (λ u. u < p) pages → All (λ u. p ≢ u) pages
All-ne_of_lt p pages h = All-map (λ u. u < p) (λ u. p ≢ u) pages (λ u lt. omega arith) h

-- The `n` pages from `p` on, the last one first, before other pages.
unfoldable pub down_from : ℕ → ℕ → List ℕ → List ℕ
down_from zero p pages = pages
down_from (suc n) p pages = (p + n * pg_size) ∷ down_from n p pages

-- The lowest page comes last.
down_from-next :
    (n p : ℕ) (pages : List ℕ) → down_from n (p + pg_size) (p ∷ pages) ≡ down_from (suc n) p pages
unfolding down_from
down_from-next zero p pages = ap (λ (v : ℕ). v ∷ pages) (omega arith)
down_from-next (suc n) p pages =
    ap₂ (λ (v : ℕ) (vs : List ℕ). v ∷ vs) (omega arith) (down_from-next n p pages)

free_pages_lem :
    (end n p vend : ℕ) (k : Kmem) (pages : List ℕ)
    → kern_base ≤ end
    → end ≤ p
    → p % pg_size ≡ 0
    → p + pg_size < 2 ^ 32
    → vend ≤ kern_base + phys_stop
    → (vend - p) / pg_size < n
    → All (λ u. u < p) pages
    → IsFreelist end k pages
    → (k' : Kmem) × (free_pages end n p vend k ≡ some k')
      × IsFreelist end k' (down_from ((vend - p) / pg_size) p pages)
unfolding free_pages down_from
free_pages_lem end zero p vend k pages base lo al fits hi fuel below f = absurd (omega arith)
free_pages_lem end (suc n) p vend k pages base lo al fits hi fuel below f =
    rw wrap (elim (Bool-cases (leb (p + pg_size) vend)) [
      | inr past ↦
          let none_left : 0 ≡ (vend - p) / pg_size = ground arith in
          rw past (k, refl, subst (λ (m : ℕ). IsFreelist end k (down_from m p pages)) none_left f)
      | inl more ↦
          let le : p + pg_size ≤ vend = leb→le _ _ more in
          let (k1, freed, f1, same) =
            kfree_frees end p k pages (omega arith) (al, lo, omega arith, omega arith)
              (All-ne_of_lt p pages below) f in
          let (k', done, f') =
            free_pages_lem end n (p + pg_size) vend k1 (p ∷ pages) base (omega arith) (omega arith)
              (omega arith) hi (omega arith)
              (
                omega arith,
                All-map (λ u. u < p) (λ u. u < p + pg_size) pages (λ u lt. omega arith) below,
              )
              f1 in
          let goes_on = ap (λ (q : ℕ). free_pages end n q vend k1) wrap ∙ done in
          rw (more, freed) (k', goes_on, subst (IsFreelist end k') (which le) f')
    ])
  where
    wrap : (p + pg_size) % 2 ^ 32 ≡ p + pg_size
    wrap = omega (arith, fits)

    which :
        p + pg_size ≤ vend
        → down_from ((vend - (p + pg_size)) / pg_size) (p + pg_size) (p ∷ pages)
          ≡ down_from ((vend - p) / pg_size) p pages
    which le =
        let one_more : suc ((vend - (p + pg_size)) / pg_size) ≡ (vend - p) / pg_size =
          omega (arith, le) in
        down_from-next ((vend - (p + pg_size)) / pg_size) p pages
        ∙ ap (λ (m : ℕ). down_from m p pages) one_more

-- `freerange` over physical memory behind the kernel and behind every page of the free list, from an
-- address two pages or more below 2 ^ 32, frees every whole page of the range and no other: none of
-- its calls panics, and the free list has these pages from the last one down to the first, and then
-- the pages that it had.
pub freerange_lem :
    (end vstart vend : ℕ) (k : Kmem) (pages : List ℕ)
    → kern_base ≤ end
    → end ≤ vstart
    → vstart + 2 * pg_size ≤ 2 ^ 32
    → vend ≤ kern_base + phys_stop
    → All (λ u. u < vstart) pages
    → IsFreelist end k pages
    → let first = (vstart + pg_size - 1) / pg_size * pg_size in
      (k' : Kmem) × (freerange end vstart vend k ≡ some k')
      × IsFreelist end k' (down_from ((vend - first) / pg_size) first pages)
unfolding freerange
freerange_lem end vstart vend k pages base lo fits hi below f = rw wrap (
    free_pages_lem end (vend / pg_size + 1) ((vstart + pg_size - 1) / pg_size * pg_size) vend k
      pages base (omega arith) (omega arith) (omega (arith, fits)) hi (omega arith)
      (All-map (λ u. u < vstart) (λ u. u < (vstart + pg_size - 1) / pg_size * pg_size) pages
        (λ u lt. omega arith) below)
      f)
  where
    wrap : (vstart + pg_size - 1) % 2 ^ 32 ≡ vstart + pg_size - 1
    wrap = omega (arith, fits)
