-- ===== src/Xv6/Kalloc/Chain.antt =====
-- Asg02/xv6-2/kalloc.c: the free list as a list of pages.
use cs5460spring.Base.{
  ℕ, zero, suc, ◌+◌, ◌*◌, ◌%◌, ◌^◌, ◌≤◌, ◌<◌, ◌≡◌, ◌≢◌, inl, inr, ◌∙◌, sym, ap, refl, none, some,
  arith, List, [], ◌∷◌, true, false, not, ◌&&◌, ◌||◌, ltb, leb, ◌==◌, ==_iff, ==_refl, ==_of_ne,
  Bool-cases, length, All, Once,
}
use cs5460spring.Xv6.Kalloc.{
  Kmem, pg_size, phys_stop, v2p, junk, store_word, kfree, kalloc, count_free,
}

-- Following `next` from `head` passes through the pages of the list and ends at null.
abbrev pub Chain : (ℕ → ℕ) → ℕ → List ℕ → Type 0
Chain word head [] = head ≡ 0
Chain word head (v ∷ vs) = (head ≡ v) × (v ≢ 0) × Chain word (word v) vs

-- A page that `kfree` accepts.
abbrev pub IsPage : ℕ → ℕ → Type 0
IsPage end v = (v % pg_size ≡ 0) × (end ≤ v) × (v2p v < phys_stop) × (v < 2 ^ 32)

-- The free list holds these pages, each once.
pub record IsFreelist (end : ℕ) (k : Kmem) (pages : List ℕ) : Type 0 where
  pub chain : Chain k.word k.freelist pages
  pub are_pages : All (IsPage end) pages
  pub once : Once pages

pub Chain-frame :
    (word word' : ℕ → ℕ) (head : ℕ) (pages : List ℕ)
    → All (λ u. word' u ≡ word u) pages
    → Chain word head pages
    → Chain word' head pages
Chain-frame word word' head [] same c = c
Chain-frame word word' head (v ∷ vs) same c =
    (c.0, c.1, Chain-frame word word' (word' v) vs same.1 (rw (same.0) c.2))

-- Filling a page and linking it leaves the words at other pages alone.
other_pages :
    (end v x : ℕ) (word : ℕ → ℕ) (pages : List ℕ)
    → v % pg_size ≡ 0
    → All (IsPage end) pages
    → All (λ u. v ≢ u) pages
    → All (λ u. store_word (junk v word) v x u ≡ word u) pages
other_pages end v x word [] al ps ne = tt
other_pages end v x word (u ∷ us) al ps ne = (same, other_pages end v x word us al ps.1 ne.1)
  where
    apart : (leb v u && ltb u (v + pg_size)) ≡ false
    apart = elim (Bool-cases (leb v u && ltb u (v + pg_size))) [
      | inr out ↦ out
      | inl inside ↦
          let le : v ≤ u = ground arith in
          let lt : u < v + pg_size = ground arith in
          let al' : u % pg_size ≡ 0 = ps.0.0 in absurd (ne.0 (omega arith))
    ]

    same : store_word (junk v word) v x u ≡ word u
    same = rw (==_of_ne v u ne.0, apart)

-- A page that is not on the free list is freed to its head; the lock flag stays.
pub kfree_frees :
    (end v : ℕ) (k : Kmem) (pages : List ℕ)
    → 0 < end
    → IsPage end v
    → All (λ u. v ≢ u) pages
    → IsFreelist end k pages
    → (k' : Kmem) × (kfree end v k ≡ some k')
      × IsFreelist end k' (v ∷ pages)
      × (k'.use_lock ≡ k.use_lock)
unfolding kfree
kfree_frees end v k pages pos page new f = (
  record k { word = store_word (junk v k.word) v k.freelist; freelist = v },
  rw accepted,
  record {
    chain = (
      refl,
      omega (arith, page.1),
      rw (==_refl v) (
          Chain-frame k.word _ k.freelist pages
            (other_pages end v k.freelist k.word pages page.0 f.are_pages new) f.chain),
    );
    are_pages = (page, f.are_pages);
    once = (new, f.once);
  },
  refl,
)
  where
    accepted : (not (v % pg_size == 0) || ltb v end || leb phys_stop (v2p v)) ≡ false
    accepted = let (al, lo, hi, fits) = page in ground arith

-- `kfree` panics on a 32-bit address that is no page of the allocator: unaligned, below `end`, or
-- from PHYSTOP on.
pub kfree_panics : (end v : ℕ) (k : Kmem) → v < 2 ^ 32 → ¬ IsPage end v → kfree end v k ≡ none
unfolding kfree
kfree_panics end v k fits bad =
    elim (Bool-cases (not (v % pg_size == 0) || ltb v end || leb phys_stop (v2p v))) [
      | inl rejected ↦ rw rejected
      | inr ok ↦ absurd (bad (ground arith, ground arith, ground arith, fits))
    ]

-- What `kalloc` does to the free list.
abbrev pub AllocSpec : ℕ → List ℕ → ℕ × Kmem → Type 0
AllocSpec end [] (page, k') = (page ≡ 0) × IsFreelist end k' []
AllocSpec end (v ∷ vs) (page, k') = (page ≡ v) × IsFreelist end k' vs × All (λ u. page ≢ u) vs

-- `kalloc` returns the page at the head of the free list, which is then no longer on it, or null if
-- the list is empty.
pub kalloc_lem :
    (end : ℕ) (k : Kmem) (pages : List ℕ) → IsFreelist end k pages → AllocSpec end pages (kalloc k)
unfolding kalloc
kalloc_lem end k [] f = rw empty (refl, f)
  where
    empty : (k.freelist == 0) ≡ true
    empty = (==_iff k.freelist 0).1 f.chain
kalloc_lem end k (v ∷ vs) f =
    let (head, nonzero, rest) = f.chain in
    rw (==_of_ne k.freelist 0 (λ e. nonzero (sym head ∙ e))) (
      head,
      record { chain = rw head rest; are_pages = f.are_pages.1; once = f.once.1 },
      rw head (f.once.0),
    )

pub count_free_lem :
    (n r bytes : ℕ) (word : ℕ → ℕ) (pages : List ℕ)
    → length pages < n
    → bytes + 4096 * length pages < 2 ^ 32
    → Chain word r pages
    → count_free n r bytes word ≡ some (bytes + 4096 * length pages)
unfolding count_free
count_free_lem zero r bytes word pages h small c = absurd (omega arith)
count_free_lem (suc n) r bytes word [] h small c =
    let e : bytes ≡ bytes + 4096 * 0 = omega arith in rw ((==_iff r 0).1 c) (ap some e)
count_free_lem (suc n) r bytes word (v ∷ vs) h small c =
    rw (==_of_ne r 0 (λ e. c.1 (sym c.0 ∙ e))) (
      count_free_lem n (word r) ((bytes + 4096) % 2 ^ 32) word vs (omega arith) (omega arith)
        (rw c.0 c.2)
      ∙ ap (λ (t : ℕ). some t) (omega arith))

-- `kalloc` on a free list with its pages.
pub kalloc_takes :
    (end v : ℕ) (k : Kmem) (vs : List ℕ)
    → IsFreelist end k (v ∷ vs)
    → kalloc k ≡ (v, record k { freelist = k.word v })
unfolding kalloc
kalloc_takes end v k vs f =
    let (head, nonzero, rest) = f.chain in
    rw (==_of_ne k.freelist 0 (λ e. nonzero (sym head ∙ e)))
      (ap (λ (u : ℕ). (u, record k { freelist = k.word u })) head)

pub kalloc_empty : (end : ℕ) (k : Kmem) → IsFreelist end k [] → kalloc k ≡ (0, k)
unfolding kalloc
kalloc_empty end k f = rw ((==_iff k.freelist 0).1 f.chain) refl
