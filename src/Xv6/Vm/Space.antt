-- ===== src/Xv6/Vm/Space.antt =====
-- Asg02/xv6-2/vm.c: a page directory with its tables, read as a map from virtual pages to entries.
use cs5460spring.Base.{
  ℕ, ◌+◌, ◌*◌, ◌%◌, ◌<◌, ◌≡◌, ◌≢◌, refl, ◌∙◌, sym, ap, ap₂, subst, inl, inr, List, [], ◌∷◌, arith,
  true, ◌&&◌, if◌then◌else◌, ◌==◌, ==_iff, ==_of_ne, Bool-cases, ℕ_discrete, All,
}
use cs5460spring.Xv6.Kalloc.{Kmem, pg_size, store_word}
use cs5460spring.Xv6.Kalloc.Chain.{IsPage, IsFreelist, Chain-frame}
use cs5460spring.Xv6.Vm.{p2v, pdx, ptx, is_present, pte_addr, pde_at, pte_at}

abbrev pub HasTable : Kmem → ℕ → ℕ → Type 0
HasTable k pgdir va = is_present (k.word (pde_at pgdir va)) ≡ true

abbrev pub table : Kmem → ℕ → ℕ → ℕ
table k pgdir va = p2v (pte_addr (k.word (pde_at pgdir va)))

-- Entry `i` of the table that the directory's entry `e` names: 0 if it names none.
abbrev pub entry_in : (ℕ → ℕ) → ℕ → ℕ → ℕ
entry_in word e i = if is_present e then word (p2v (pte_addr e) + 4 * i) else 0

-- The entry of the page of `va`.
abbrev pub entry_of : Kmem → ℕ → ℕ → ℕ
entry_of k pgdir va = entry_in k.word (k.word (pde_at pgdir va)) (ptx va)

-- The directory, its tables and the free pages are pages that do not meet.
pub record IsSpace (end pgdir : ℕ) (k : Kmem) (pages : List ℕ) : Type 0 where
  pub free : IsFreelist end k pages
  pub root : IsPage end pgdir
  pub root_used : All (λ u. pgdir ≢ u) pages
  pub are_tables : (va : ℕ) → HasTable k pgdir va → IsPage end (table k pgdir va)
  pub not_root : (va : ℕ) → HasTable k pgdir va → table k pgdir va ≢ pgdir
  pub tables_used : (va : ℕ) → HasTable k pgdir va → All (λ u. table k pgdir va ≢ u) pages
  pub distinct :
      (va vb : ℕ)
      → HasTable k pgdir va
      → HasTable k pgdir vb
      → table k pgdir va ≡ table k pgdir vb
      → pdx va ≡ pdx vb

-- Words of different pages.
pub pages_apart :
    (u v x y : ℕ)
    → u % pg_size ≡ 0
    → v % pg_size ≡ 0
    → u ≢ v
    → x < pg_size
    → y < pg_size
    → u + x ≢ v + y
pages_apart u v x y al al' ne hx hy e = ne (omega arith)

-- The free list stays where no free page's word changes.
pub frame_free :
    (end : ℕ) (k k' : Kmem) (pages : List ℕ)
    → k'.freelist ≡ k.freelist
    → All (λ u. k'.word u ≡ k.word u) pages
    → IsFreelist end k pages
    → IsFreelist end k' pages
frame_free end k k' pages same words f = record {
  chain = rw same (Chain-frame k.word k'.word k.freelist pages words f.chain);
  are_pages = f.are_pages;
  once = f.once;
}

pub store-free :
    (end p x : ℕ) (word : ℕ → ℕ) (offset : ℕ) (pages : List ℕ)
    → p % pg_size ≡ 0
    → offset < pg_size
    → All (IsPage end) pages
    → All (λ u. p ≢ u) pages
    → All (λ u. store_word word (p + offset) x u ≡ word u) pages
store-free end p x word offset [] al small ps ne = tt
store-free end p x word offset (u ∷ us) al small ps ne = (
  rw (==_of_ne (p + offset) u (λ e. ne.0 (omega (arith, e, ps.0.0)))),
  store-free end p x word offset us al small ps.1 ne.1,
)

module _ (end pgdir : ℕ) (k : Kmem) (pages : List ℕ) (s : IsSpace end pgdir k pages) where
  -- A store into the entry of a page that has a table.
  abbrev pub written : ℕ → ℕ → Kmem
  written va x = record k { word = store_word k.word (pte_at k pgdir va) x }

  pub written-pde :
      (va vb x : ℕ)
      → HasTable k pgdir va
      → (written va x).word (pde_at pgdir vb) ≡ k.word (pde_at pgdir vb)
  written-pde va vb x has = rw (
      ==_of_ne (pte_at k pgdir va) (pde_at pgdir vb) (
        pages_apart (table k pgdir va) pgdir (4 * ptx va) (4 * pdx vb) (s.are_tables va has).0
          s.root.0 (s.not_root va has) (omega arith) (omega arith)))

  keeps_table :
      (va vb x : ℕ) → HasTable k pgdir va → table (written va x) pgdir vb ≡ table k pgdir vb
  keeps_table va vb x has = ap (λ (e : ℕ). p2v (pte_addr e)) (written-pde va vb x has)

  same_entry :
      (va vb : ℕ)
      → HasTable k pgdir va
      → HasTable k pgdir vb
      → (pte_at k pgdir va == pte_at k pgdir vb) ≡ (pdx va == pdx vb && ptx va == ptx vb)
  same_entry va vb h h' = elim (ℕ_discrete (pdx va) (pdx vb)) [
    | no ne ↦ rw (==_of_ne (pdx va) (pdx vb) ne) (
        ==_of_ne (pte_at k pgdir va) (pte_at k pgdir vb) (
          pages_apart (table k pgdir va) (table k pgdir vb) (4 * ptx va) (4 * ptx vb)
            (s.are_tables va h).0 (s.are_tables vb h').0 (λ e. ne (s.distinct va vb h h' e))
            (omega arith) (omega arith)))
    | yes e ↦
        let t : table k pgdir va ≡ table k pgdir vb =
          ap (λ (i : ℕ). p2v (pte_addr (k.word (pgdir + 4 * i)))) e in
        elim (ℕ_discrete (ptx va) (ptx vb)) [
          | yes f ↦
              (==_iff (pte_at k pgdir va) (pte_at k pgdir vb)).1 (omega (arith, t, f))
              ∙ sym (ap₂ ◌&&◌ ((==_iff (pdx va) (pdx vb)).1 e) ((==_iff (ptx va) (ptx vb)).1 f))
          | no nf ↦
              ==_of_ne (pte_at k pgdir va) (pte_at k pgdir vb) (λ z. nf (omega (arith, t, z)))
              ∙ sym (ap₂ ◌&&◌ ((==_iff (pdx va) (pdx vb)).1 e) (==_of_ne (ptx va) (ptx vb) nf))
        ]
  ]

  -- The entry written is that of its page alone.
  pub written-entry :
      (va vb x : ℕ)
      → HasTable k pgdir va
      → entry_of (written va x) pgdir vb
        ≡ (if pdx va == pdx vb && ptx va == ptx vb then x else entry_of k pgdir vb)
  written-entry va vb x has = elim (Bool-cases (is_present (k.word (pde_at pgdir vb)))) [
    | inr absent ↦
        rw (written-pde va vb x has, absent)
          (rw (==_of_ne (pdx va) (pdx vb) (λ e. cc (has, absent))) refl)
    | inl there ↦ rw (written-pde va vb x has, there) (rw (same_entry va vb has there) refl)
  ]

  -- Where the directory stays, a memory with the free list is a space.
  pub IsSpace-frame :
      (k' : Kmem) (pages' : List ℕ)
      → ((vb : ℕ) → k'.word (pde_at pgdir vb) ≡ k.word (pde_at pgdir vb))
      → IsFreelist end k' pages'
      → ((v : ℕ) → All (λ u. v ≢ u) pages → All (λ u. v ≢ u) pages')
      → IsSpace end pgdir k' pages'
  IsSpace-frame k' pages' same free fewer = record {
    free = free;
    root = s.root;
    root_used = fewer pgdir s.root_used;
    are_tables = λ vb h.
        subst (λ (e : ℕ). IsPage end (p2v (pte_addr e))) (sym (same vb))
          (s.are_tables vb (before vb h));
    not_root = λ vb h.
        subst (λ (e : ℕ). p2v (pte_addr e) ≢ pgdir) (sym (same vb)) (s.not_root vb (before vb h));
    tables_used = λ vb h.
        subst (λ (e : ℕ). All (λ u. p2v (pte_addr e) ≢ u) pages') (sym (same vb))
          (fewer (table k pgdir vb) (s.tables_used vb (before vb h)));
    distinct = λ vb vc h h' e. s.distinct vb vc (before vb h) (before vc h') (
        ap (λ (e : ℕ). p2v (pte_addr e)) (sym (same vb))
        ∙ e
        ∙ ap (λ (e : ℕ). p2v (pte_addr e)) (same vc));
  }
    where
      before : (vb : ℕ) → HasTable k' pgdir vb → HasTable k pgdir vb
      before vb h = ap is_present (sym (same vb)) ∙ h

  pub written-IsSpace : (va x : ℕ) → HasTable k pgdir va → IsSpace end pgdir (written va x) pages
  written-IsSpace va x has =
      IsSpace-frame (written va x) pages (λ vb. written-pde va vb x has)
        (frame_free end k (written va x) pages refl
          (store-free end (table k pgdir va) x k.word (4 * ptx va) pages (s.are_tables va has).0
            (omega arith) s.free.are_pages (s.tables_used va has))
          s.free)
        (λ v ne. ne)
