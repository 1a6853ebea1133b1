-- ===== src/Xv6/Vm.antt =====
-- Asg02/xv6-2/vm.c: two-level page tables. They lie in the memory of Xv6/Kalloc, whose words are
-- read at their addresses.
pub mod Entry
pub mod Space
pub mod Walk
pub mod Map
pub mod Shrink
pub mod User
mod Tests
use cs5460spring.Base.{
  ℕ, zero, suc, ◌+◌, ◌-◌, ◌*◌, ◌/◌, ◌%◌, ◌^◌, Option, none, some, Bool, true, not, ◌&&◌,
  if◌then◌else◌, ltb, leb, ◌==◌, bit_or,
}
use cs5460spring.Xv6.Kalloc.{Kmem, pg_size, kern_base, phys_stop, v2p, store_word, kfree, kalloc}

abbrev pub p2v : ℕ → ℕ
p2v a = (a + kern_base) % 2 ^ 32

abbrev pub pdx : ℕ → ℕ
pdx va = va / 2 ^ 22 % 1024

abbrev pub ptx : ℕ → ℕ
ptx va = va / 2 ^ 12 % 1024

abbrev pub pground_down : ℕ → ℕ
pground_down a = a / pg_size * pg_size

abbrev pub pground_up : ℕ → ℕ
pground_up a = (a + pg_size - 1) % 2 ^ 32 / pg_size * pg_size

-- PTE_P, PTE_W and PTE_U.
abbrev pub pte_p : ℕ
pte_p = 1

abbrev pub pte_w : ℕ
pte_w = 2

abbrev pub pte_u : ℕ
pte_u = 4

-- `pte & PTE_P`, `pte & PTE_U`, `PTE_ADDR(pte)` and `PTE_FLAGS(pte)`.
abbrev pub is_present : ℕ → Bool
is_present pte = pte % 2 == 1

abbrev pub is_user : ℕ → Bool
is_user pte = pte / 4 % 2 == 1

abbrev pub pte_addr : ℕ → ℕ
pte_addr pte = pte / 2 ^ 12 * 2 ^ 12

abbrev pub pte_flags : ℕ → ℕ
pte_flags pte = pte % 2 ^ 12

-- `memset(page, 0, PGSIZE)`.
abbrev pub zeroed : ℕ → (ℕ → ℕ) → ℕ → ℕ
zeroed page word a = if leb page a && ltb a (page + pg_size) then 0 else word a

abbrev pub pde_at : ℕ → ℕ → ℕ
pde_at pgdir va = pgdir + 4 * pdx va

-- The entry of a table of `pgdir`.
abbrev pub pte_at : Kmem → ℕ → ℕ → ℕ
pte_at k pgdir va = p2v (pte_addr (k.word (pde_at pgdir va))) + 4 * ptx va

-- The part of `walkpgdir` that puts the page that `kalloc` answers into the directory.
pub add_table : ℕ → ℕ → ℕ × Kmem → ℕ × Kmem
add_table pgdir va (page, k) = if page == 0 then (0, k) else (
  page + 4 * ptx va,
  record k {
    word =
        store_word (zeroed page k.word) (pde_at pgdir va)
          (bit_or (bit_or (bit_or (v2p page) pte_p) pte_w) pte_u);
  },
)

-- `walkpgdir`: the address of the entry, or 0.
pub walkpgdir : ℕ → ℕ → Bool → Kmem → ℕ × Kmem
unfolding add_table
walkpgdir pgdir va alloc k =
    if is_present (k.word (pde_at pgdir va))
    then (pte_at k pgdir va, k)
    else if alloc
    then add_table pgdir va (kalloc k)
    else (0, k)

-- What a call leaves: it succeeds, it returns -1 or null, or it panics.
pub data Mapped : Type 0 where
  mapped : Kmem → Mapped
  refused : Kmem → Mapped
  panicked : Mapped

-- One round of `mappages`, once the entry is found.
pub set_entry : ℕ → ℕ → ℕ × Kmem → Mapped
set_entry pa perm (pte, k) =
    if pte == 0
    then refused k
    else if is_present (k.word pte)
    then panicked
    else mapped (record k { word = store_word k.word pte (bit_or (bit_or pa perm) pte_p) })

pub map_one : ℕ → ℕ → ℕ → ℕ → Kmem → Mapped
unfolding set_entry walkpgdir
map_one pgdir a pa perm k = set_entry pa perm (walkpgdir pgdir a true k)

-- The loop of `mappages`, with the rounds that follow this one; `a` and `pa` are `uint`.
pub map_from : ℕ → ℕ → ℕ → ℕ → ℕ → Kmem → Mapped
unfolding map_one
map_from zero pgdir a pa perm k = map_one pgdir a pa perm k
map_from (suc n) pgdir a pa perm k = elim (map_one pgdir a pa perm k) [
  | panicked ↦ panicked
  | refused k' ↦ refused k'
  | mapped k' ↦ map_from n pgdir ((a + pg_size) % 2 ^ 32) ((pa + pg_size) % 2 ^ 32) perm k'
]

-- `mappages`: the loop ends when `a` meets `last`.
pub mappages : ℕ → ℕ → ℕ → ℕ → ℕ → Kmem → Mapped
unfolding map_from
mappages pgdir va size pa perm k =
    let a = pground_down va in
    let last = pground_down ((va + size + 2 ^ 32 - 1) % 2 ^ 32) in
    map_from ((last + 2 ^ 32 - a) % 2 ^ 32 / pg_size) pgdir a pa perm k

abbrev pub next_page : ℕ → ℕ
next_page a = (a + pg_size) % 2 ^ 32

-- `PGADDR(PDX(a) + 1, 0, 0) - PGSIZE`.
abbrev pub table_end : ℕ → ℕ
table_end a = ((pdx a + 1) * 2 ^ 22 % 2 ^ 32 + 2 ^ 32 - pg_size) % 2 ^ 32

-- What `deallocuvm` leaves, if its rounds do not run out: the new size, or a panic.
pub data Resized : Type 0 where
  resized : ℕ → Kmem → Resized
  panics : Resized
  no_rounds : Resized

-- The address `end` is the linker's.
module _ (end : ℕ) where
  -- The page of one entry of `deallocuvm` is freed; `none` is a panic.
  pub drop_page : ℕ → Kmem → Option Kmem
  drop_page pte k =
      let pa = pte_addr (k.word pte) in
      if pa == 0 then none else elim (kfree end (p2v pa) k) [
        | none ↦ none
        | some k' ↦ some (record k' { word = store_word k'.word pte 0 })
      ]

  -- One round of `deallocuvm` at `a`: where the next one is. Where there is no table, `a` is set to
  -- the last page of the table's range.
  pub dealloc_one : ℕ → ℕ → Kmem → Option (ℕ × Kmem)
  unfolding drop_page
  dealloc_one pgdir a k =
      if not (is_present (k.word (pde_at pgdir a)))
      then some (next_page (table_end a), k)
      else if is_present (k.word (pte_at k pgdir a))
      then elim (drop_page (pte_at k pgdir a) k) [ none ↦ none | some k' ↦ some (next_page a, k') ]
      else some (next_page a, k)

  -- The loop of `deallocuvm` from `a` on, with rounds left.
  pub dealloc_from : ℕ → ℕ → ℕ → ℕ → ℕ → Kmem → Resized
  unfolding dealloc_one
  dealloc_from zero pgdir a oldsz newsz k = no_rounds
  dealloc_from (suc n) pgdir a oldsz newsz k =
      let rest : Resized = elim (dealloc_one pgdir a k) [
        | none ↦ panics
        | some (a', k') ↦ dealloc_from n pgdir a' oldsz newsz k'
      ] in
      if ltb a oldsz then rest else resized newsz k

  -- One round more than there are pages below `oldsz` is enough.
  pub deallocuvm : ℕ → ℕ → ℕ → Kmem → Resized
  unfolding dealloc_from
  deallocuvm pgdir oldsz newsz k =
      if leb oldsz newsz
      then resized oldsz k
      else dealloc_from (oldsz / pg_size + 2) pgdir (pground_up newsz) oldsz newsz k
