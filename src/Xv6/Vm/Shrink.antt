-- ===== src/Xv6/Vm/Shrink.antt =====
-- Asg02/xv6-2/vm.c: the loop of `deallocuvm` ends.
use cs5460spring.Base.{
  ℕ, zero, suc, ◌+◌, ◌*◌, ◌/◌, ◌%◌, ◌≤◌, ◌<◌, min, ◌≡◌, ◌⊎◌, refl, ap, subst, inl, inr, none, some,
  arith, ltb, leb, Bool-cases, Option-cases,
}
use cs5460spring.Xv6.Kalloc.{Kmem, pg_size, kern_base}
use cs5460spring.Xv6.Vm.{
  pground_up, next_page, table_end, is_present, pde_at, pte_at, drop_page, dealloc_one, Resized,
  resized, panics, dealloc_from, deallocuvm,
}

next_page-more : (a : ℕ) → a < kern_base → a + pg_size ≤ next_page a
next_page-more a h = omega arith

next_page-table_end :
    (a : ℕ) → a < kern_base → a % pg_size ≡ 0 → a + pg_size ≤ next_page (table_end a)
next_page-table_end a h al = omega arith

-- A round panics or moves on by a page at least.
dealloc_one_lem :
    (end pgdir a : ℕ) (k : Kmem)
    → a < kern_base
    → a % pg_size ≡ 0
    → (dealloc_one end pgdir a k ≡ none)
      ⊎ ((a' : ℕ) × (k' : Kmem) × (dealloc_one end pgdir a k ≡ some (a', k'))
          × (a + pg_size ≤ a')
          × (a' % pg_size ≡ 0))
unfolding dealloc_one
dealloc_one_lem end pgdir a k low al = elim (Bool-cases (is_present (k.word (pde_at pgdir a)))) [
  | inr no_table ↦
      rw no_table
        (inr (next_page (table_end a), k, refl, next_page-table_end a low al, omega arith))
  | inl table ↦ rw table (elim (Bool-cases (is_present (k.word (pte_at k pgdir a)))) [
    | inr no_entry ↦ rw no_entry (inr (next_page a, k, refl, next_page-more a low, omega arith))
    | inl entry ↦ rw entry (elim (Option-cases (drop_page end (pte_at k pgdir a) k)) [
      | inl bad ↦ rw bad (inl refl)
      | inr (k', e) ↦ rw e (inr (next_page a, k', refl, next_page-more a low, omega arith))
    ])
  ])
]

-- How a shrinking ends.
abbrev pub Ends : ℕ → Resized → Type 0
Ends newsz r = (r ≡ panics) ⊎ ((k : Kmem) × (r ≡ resized newsz k))

dealloc_from-Ends :
    (n end pgdir a oldsz newsz : ℕ) (k : Kmem)
    → oldsz ≤ kern_base
    → a % pg_size ≡ 0
    → 0 < n
    → oldsz + pg_size ≤ a + n * pg_size
    → Ends newsz (dealloc_from end n pgdir a oldsz newsz k)
unfolding dealloc_from
dealloc_from-Ends zero end pgdir a oldsz newsz k top al some_left enough =
    absurd (omega (arith, some_left))
dealloc_from-Ends (suc n) end pgdir a oldsz newsz k top al some_left enough =
    elim (Bool-cases (ltb a oldsz)) [
      | inr past ↦ rw past (inr (k, refl))
      | inl more ↦ rw more (elim (dealloc_one_lem end pgdir a k (ground (arith, more)) al) [
        | inl bad ↦ rw bad (inl refl)
        | inr (a', k', e, further, al') ↦ rw e (
            dealloc_from-Ends n end pgdir a' oldsz newsz k' top al' (ground (arith, more))
              (omega arith))
      ])
    ]

-- For sizes up to KERNBASE, `deallocuvm` ends within its rounds, also where page tables are missing
-- and it skips their ranges: it panics, or it returns the smaller of the two sizes.
pub deallocuvm-Ends :
    (end pgdir oldsz newsz : ℕ) (k : Kmem)
    → oldsz ≤ kern_base
    → Ends (min oldsz newsz) (deallocuvm end pgdir oldsz newsz k)
unfolding deallocuvm
deallocuvm-Ends end pgdir oldsz newsz k top = elim (Bool-cases (leb oldsz newsz)) [
  | inl keeps ↦ rw keeps (inr (k, ap (λ (r : ℕ). resized r k) (ground (arith, keeps))))
  | inr shrinks ↦ rw shrinks (
      subst
        (λ (s : ℕ).
          Ends s (dealloc_from end (oldsz / pg_size + 2) pgdir (pground_up newsz) oldsz newsz k))
        (ground (arith, shrinks))
        (dealloc_from-Ends (oldsz / pg_size + 2) end pgdir (pground_up newsz) oldsz newsz k top
          (omega arith) (omega arith) (omega arith)))
]
