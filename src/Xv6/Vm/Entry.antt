-- ===== src/Xv6/Vm/Entry.antt =====
-- Asg02/xv6-2/vm.c: what an entry of a page table holds.
use cs5460spring.Base.{ℕ, ◌+◌, ◌/◌, ◌%◌, ◌^◌, ◌≡◌, arith, bit_or}
use cs5460spring.Base.Bits.{bit_or-halves, bit_or-one}
use cs5460spring.Xv6.Vm.{pte_p, pte_w, pte_u}

-- A directory's entry for a page table.
pub table_entry_sum :
    (pa : ℕ) → pa % 2 ^ 12 ≡ 0 → bit_or (bit_or (bit_or pa pte_p) pte_w) pte_u ≡ pa + 7
table_entry_sum pa al = rw (one, two, four)
  where
    one : bit_or pa 1 ≡ pa + 1
    one = omega (arith, bit_or-one pa)

    two : bit_or (pa + 1) 2 ≡ pa + 3
    two = omega (arith, bit_or-halves (pa + 1) 2, bit_or-one ((pa + 1) / 2))

    four : bit_or (pa + 3) 4 ≡ pa + 7
    four = omega (
      arith,
      bit_or-halves (pa + 3) 4,
      bit_or-halves ((pa + 3) / 2) 2,
      bit_or-one ((pa + 3) / 2 / 2),
    )
