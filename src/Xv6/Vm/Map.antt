-- ===== src/Xv6/Vm/Map.antt =====
-- Asg02/xv6-2/vm.c: what `mappages` does to an address space.
use cs5460spring.Base.{
  ℕ, ◌+◌, ◌-◌, ◌*◌, ◌^◌, ◌≤◌, ◌<◌, ◌≡◌, ◌⊎◌, List, Bool, true, ◌&&◌, if◌then◌else◌, leb, ◌==◌,
  bit_or,
}
use cs5460spring.Xv6.Kalloc.{Kmem, pg_size}
use cs5460spring.Xv6.Vm.{
  pdx, ptx, pte_p, is_present, pground_down, Mapped, mapped, refused, panicked,
}
use cs5460spring.Xv6.Vm.Space.{entry_of, IsSpace}

-- The entry that a page gets.
abbrev pub new_pte : ℕ → ℕ → ℕ
new_pte pa perm = bit_or (bit_or pa perm) pte_p

abbrev pub same_page : ℕ → ℕ → Bool
same_page va vb = pdx va == pdx vb && ptx va == ptx vb

-- What mapping the page of `va` does.
abbrev OneSpec : ℕ → ℕ → ℕ → ℕ → ℕ → Kmem → Mapped → Type 0
OneSpec end pgdir va pa perm k panicked = is_present (entry_of k pgdir va) ≡ true
OneSpec end pgdir va pa perm k (refused k') =
    (pages' : List ℕ) × IsSpace end pgdir k' pages'
    × ((vb : ℕ) → entry_of k' pgdir vb ≡ entry_of k pgdir vb)
OneSpec end pgdir va pa perm k (mapped k') =
    (pages' : List ℕ) × IsSpace end pgdir k' pages'
    × ((vb : ℕ)
        → entry_of k' pgdir vb ≡ (if same_page va vb then new_pte pa perm else entry_of k pgdir vb))

-- The entry of `vb` after the pages from `a` to `a + n * PGSIZE` got theirs.
abbrev pub filled : ℕ → ℕ → ℕ → ℕ → ℕ → ℕ → ℕ
filled n a pa perm vb old =
    if leb a (pground_down vb) && leb (pground_down vb) (a + n * pg_size)
    then new_pte (pa + (pground_down vb - a)) perm
    else old

-- What mapping a range of `n + 1` pages does. With success each has its entry, and the pages outside
-- have theirs as before; out of memory, the latter; and it panics only if one of them had an entry.
abbrev pub RangeSpec : ℕ → ℕ → ℕ → ℕ → ℕ → ℕ → Kmem → Mapped → Type 0
RangeSpec end pgdir n a pa perm k panicked =
    (i : ℕ) × (i ≤ n) × (is_present (entry_of k pgdir (a + i * pg_size)) ≡ true)
RangeSpec end pgdir n a pa perm k (refused k') =
    (pages' : List ℕ) × IsSpace end pgdir k' pages'
    × ((vb : ℕ)
        → vb < 2 ^ 32
        → (vb < a) ⊎ (a + n * pg_size + pg_size ≤ vb)
        → entry_of k' pgdir vb ≡ entry_of k pgdir vb)
RangeSpec end pgdir n a pa perm k (mapped k') =
    (pages' : List ℕ) × IsSpace end pgdir k' pages'
    × ((vb : ℕ) → vb < 2 ^ 32 → entry_of k' pgdir vb ≡ filled n a pa perm vb (entry_of k pgdir vb))
