-- ===== src/Xv6/Vm/Walk.antt =====
-- Asg02/xv6-2/vm.c: a new page table in a directory.
use cs5460spring.Base.{
  ℕ, ◌+◌, ◌*◌, ◌%◌, ◌≤◌, ◌<◌, ◌≡◌, ◌≢◌, ◌⊎◌, refl, ◌∙◌, sym, ap, subst, inl, inr, List, [], ◌∷◌,
  arith, Bool, true, false, ◌&&◌, if◌then◌else◌, ltb, leb, ==_iff, ==_of_ne, Bool-cases, ℕ_discrete,
  All, bit_or,
}
use cs5460spring.Xv6.Kalloc.{Kmem, pg_size, kern_base, v2p, store_word}
use cs5460spring.Xv6.Kalloc.Chain.{IsPage, IsFreelist, Chain-frame}
use cs5460spring.Xv6.Vm.{
  p2v, pdx, ptx, pte_p, pte_w, pte_u, is_present, pte_addr, zeroed, pde_at, pte_at, add_table,
}
use cs5460spring.Xv6.Vm.Entry.{table_entry_sum}
use cs5460spring.Xv6.Vm.Space.{HasTable, table, entry_in, entry_of, IsSpace, pages_apart}

-- The directory's entry for the new table at `v`.
abbrev pub table_entry : ℕ → ℕ
table_entry v = bit_or (bit_or (bit_or (v2p v) pte_p) pte_w) pte_u

table_entry_lem :
    (end v : ℕ)
    → kern_base ≤ end
    → IsPage end v
    → (is_present (table_entry v) ≡ true) × (p2v (pte_addr (table_entry v)) ≡ v)
table_entry_lem end v base (al, low, high, fits) = rw e (ground arith, omega arith)
  where
    e : table_entry v ≡ v2p v + 7
    e = table_entry_sum (v2p v) (omega arith)

module _ (end pgdir : ℕ) (k : Kmem) (v : ℕ) (vs : List ℕ) (base : kern_base ≤ end)
    (s : IsSpace end pgdir k (v ∷ vs)) (va : ℕ)
    (absent : is_present (k.word (pde_at pgdir va)) ≡ false) where
  page : IsPage end v
  page = s.free.are_pages.0

  -- What `add_table` leaves.
  abbrev pub grown : Kmem
  grown = record k {
    freelist = k.word v;
    word = store_word (zeroed v k.word) (pde_at pgdir va) (table_entry v);
  }

  outside_page :
      (u x : ℕ)
      → u % pg_size ≡ 0
      → u ≢ v
      → x < pg_size
      → (leb v (u + x) && ltb (u + x) (v + pg_size)) ≡ false
  outside_page u x al ne small = elim (Bool-cases (leb v (u + x) && ltb (u + x) (v + pg_size))) [
    | inr out ↦ out
    | inl within ↦
        let le : v ≤ u + x = ground (arith, within) in
        let lt : u + x < v + pg_size = ground (arith, within) in
        absurd (ne (omega (arith, al, page.0)))
  ]

  -- A word of another page, that is not the directory's entry.
  other_word :
      (u x : ℕ)
      → u % pg_size ≡ 0
      → u ≢ v
      → x < pg_size
      → pde_at pgdir va ≢ u + x
      → grown.word (u + x) ≡ k.word (u + x)
  other_word u x al ne small off =
      rw (==_of_ne (pde_at pgdir va) (u + x) off, outside_page u x al ne small) refl

  -- An entry of the directory.
  dir_word :
      (vb : ℕ)
      → ((pdx va ≡ pdx vb) × (grown.word (pde_at pgdir vb) ≡ table_entry v))
        ⊎ ((pdx va ≢ pdx vb) × (grown.word (pde_at pgdir vb) ≡ k.word (pde_at pgdir vb)))
  dir_word vb = elim (ℕ_discrete (pdx va) (pdx vb)) [
    | yes e ↦ inl (e, rw ((==_iff (pde_at pgdir va) (pde_at pgdir vb)).1 (omega (arith, e))) refl)
    | no ne ↦ inr (
      ne,
      other_word pgdir (4 * pdx vb) s.root.0 s.root_used.0 (omega arith)
          (λ z. ne (omega (arith, z))),
    )
  ]

  free_words :
      (us : List ℕ)
      → All (IsPage end) us
      → All (λ u. v ≢ u) us
      → All (λ u. pgdir ≢ u) us
      → All (λ u. grown.word u ≡ k.word u) us
  free_words [] ps ne out = tt
  free_words (u ∷ us) ps ne out = (
    subst (λ (a : ℕ). grown.word a ≡ k.word a) (omega arith)
        (other_word u 0 ps.0.0 (λ e. ne.0 (sym e)) (omega arith)
          (λ z. out.0 (omega (arith, z, s.root.0, ps.0.0)))),
    free_words us ps.1 ne.1 out.1,
  )

  grown-IsFreelist : IsFreelist end grown vs
  grown-IsFreelist = record {
    chain =
        Chain-frame k.word grown.word (k.word v) vs
          (free_words vs s.free.are_pages.1 s.free.once.0 s.root_used.1) s.free.chain.2;
    are_pages = s.free.are_pages.1;
    once = s.free.once.1;
  }

  pub new_table : table grown pgdir va ≡ v
  new_table = elim (dir_word va) [
    | inl (e, w) ↦ ap (λ (x : ℕ). p2v (pte_addr x)) w ∙ (table_entry_lem end v base page).1
    | inr (ne, w) ↦ absurd (ne refl)
  ]

  pub new-HasTable : HasTable grown pgdir va
  new-HasTable = elim (dir_word va) [
    | inl (e, w) ↦ ap is_present w ∙ (table_entry_lem end v base page).0
    | inr (ne, w) ↦ absurd (ne refl)
  ]

  -- The table of a page is the new one, or an old one.
  TableCase : ℕ → Type 0
  TableCase vb =
      ((pdx va ≡ pdx vb) × (table grown pgdir vb ≡ v))
      ⊎ ((pdx va ≢ pdx vb) × HasTable k pgdir vb × (table grown pgdir vb ≡ table k pgdir vb))

  table_case : (vb : ℕ) → HasTable grown pgdir vb → TableCase vb
  unfolding TableCase
  table_case vb h = elim (dir_word vb) [
    | inl (e, w) ↦ inl (e, ap (λ (x : ℕ). p2v (pte_addr x)) w ∙ (table_entry_lem end v base page).1)
    | inr (ne, w) ↦ inr (ne, ap is_present (sym w) ∙ h, ap (λ (x : ℕ). p2v (pte_addr x)) w)
  ]

  pub grown-IsSpace : IsSpace end pgdir grown vs
  unfolding TableCase
  grown-IsSpace = record {
    free = grown-IsFreelist;
    root = s.root;
    root_used = s.root_used.1;
    are_tables = λ vb h. elim (table_case vb h) [
      | inl (e, t) ↦ subst (IsPage end) (sym t) page
      | inr (ne, h', t) ↦ subst (IsPage end) (sym t) (s.are_tables vb h')
    ];
    not_root = λ vb h. elim (table_case vb h) [
      | inl (e, t) ↦ λ z. s.root_used.0 (sym z ∙ t)
      | inr (ne, h', t) ↦ λ z. s.not_root vb h' (sym t ∙ z)
    ];
    tables_used = λ vb h. elim (table_case vb h) [
      | inl (e, t) ↦ subst (λ (x : ℕ). All (λ u. x ≢ u) vs) (sym t) s.free.once.0
      | inr (ne, h', t) ↦ subst (λ (x : ℕ). All (λ u. x ≢ u) vs) (sym t) (s.tables_used vb h').1
    ];
    distinct = λ vb vc h h' e. apart vb vc (table_case vb h) (table_case vc h') e;
  }
    where
      apart :
          (vb vc : ℕ)
          → TableCase vb
          → TableCase vc
          → table grown pgdir vb ≡ table grown pgdir vc
          → pdx vb ≡ pdx vc
      apart vb vc (inl (e, t)) (inl (e', t')) same = sym e ∙ e'
      apart vb vc (inl (e, t)) (inr (ne', h', t')) same =
          absurd ((s.tables_used vc h').0 (sym t' ∙ sym same ∙ t))
      apart vb vc (inr (ne, h, t)) (inl (e', t')) same =
          absurd ((s.tables_used vb h).0 (sym t ∙ same ∙ t'))
      apart vb vc (inr (ne, h, t)) (inr (ne', h', t')) same =
          s.distinct vb vc h h' (sym t ∙ same ∙ t')

  zero_word : (i : ℕ) → i < 1024 → grown.word (v + 4 * i) ≡ 0
  zero_word i small =
      let within : (leb v (v + 4 * i) && ltb (v + 4 * i) (v + pg_size)) ≡ true = ground arith in
      rw
        (
          ==_of_ne (pde_at pgdir va) (v + 4 * i) (
              pages_apart pgdir v (4 * pdx va) (4 * i) s.root.0 page.0 s.root_used.0 (omega arith)
                (omega arith)),
          within,
        )
        refl

  old_entry :
      (vb : ℕ) → entry_in grown.word (k.word (pde_at pgdir vb)) (ptx vb) ≡ entry_of k pgdir vb
  old_entry vb = elim (Bool-cases (is_present (k.word (pde_at pgdir vb)))) [
    | inr none_there ↦ rw none_there refl
    | inl there ↦ rw there (
        other_word (table k pgdir vb) (4 * ptx vb) (s.are_tables vb there).0
          (s.tables_used vb there).0 (omega arith)
          (pages_apart pgdir (table k pgdir vb) (4 * pdx va) (4 * ptx vb) s.root.0
            (s.are_tables vb there).0 (λ z. s.not_root vb there (sym z)) (omega arith)
            (omega arith)))
  ]

  new_entry : (i : ℕ) → i < 1024 → entry_in grown.word (table_entry v) i ≡ 0
  new_entry i small =
      let (is_there, at) = table_entry_lem end v base page in
      ap (λ (b : Bool). if b then grown.word (p2v (pte_addr (table_entry v)) + 4 * i) else 0)
        is_there
      ∙ ap (λ (u : ℕ). grown.word (u + 4 * i)) at
      ∙ zero_word i small

  no_entry : (vb : ℕ) → pdx va ≡ pdx vb → entry_of k pgdir vb ≡ 0
  no_entry vb e =
      let gone : is_present (k.word (pde_at pgdir vb)) ≡ false =
        ap (λ (i : ℕ). is_present (k.word (pgdir + 4 * i))) (sym e) ∙ absent in
      rw gone refl

  -- No page's entry changes.
  pub grown-entry : (vb : ℕ) → entry_of grown pgdir vb ≡ entry_of k pgdir vb
  grown-entry vb = elim (dir_word vb) [
    | inl (e, w) ↦
        ap (λ (x : ℕ). entry_in grown.word x (ptx vb)) w
        ∙ new_entry (ptx vb) (omega arith)
        ∙ sym (no_entry vb e)
    | inr (ne, w) ↦ ap (λ (x : ℕ). entry_in grown.word x (ptx vb)) w ∙ old_entry vb
  ]

  grown-pte_at : pte_at grown pgdir va ≡ v + 4 * ptx va
  grown-pte_at = ap (λ (t : ℕ). t + 4 * ptx va) new_table

  pub add_table_lem :
      add_table pgdir va (v, record k { freelist = k.word v }) ≡ (pte_at grown pgdir va, grown)
  unfolding add_table
  add_table_lem =
      rw (==_of_ne v 0 (omega (arith, base, page.1)))
        (ap (λ (a : ℕ). (a, grown)) (sym grown-pte_at))
