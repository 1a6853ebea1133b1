-- ===== src/Asg01/Tests.antt =====
-- Asg01/assignment1.c: the routines on sample values.
use mathlib.Core.List.{Perm}
use cs5460spring.Base.{ℕ, ◌≤◌, ◌<◌, ◌≡◌, ◌≢◌, List, [], ◌∷◌, arith, IsSorted}
use cs5460spring.Asg01.Chain.{str_to_list, built, out_of_memory, str_to_list_lem}
use cs5460spring.Asg01.Words.{unpack, byte_sort, byte_sort_sorts}
use cs5460spring.Asg01.Convert.{convert, hex, bin, oct, IsNumeral, convert_reads_back}

abbrev numbers : List ℕ
numbers = 5 ∷ 3 ∷ 9 ∷ 3 ∷ []

byte_sort_sorts_example :
    IsSorted (unpack 8 8 0 (byte_sort 0x0403deadbeef0201))
    × Perm (unpack 8 8 0 (byte_sort 0x0403deadbeef0201)) (unpack 8 8 0 0x0403deadbeef0201)
byte_sort_sorts_example = byte_sort_sorts 0x0403deadbeef0201

convert_reads_back_example :
    IsNumeral 16 16 0xdeadbeef (convert hex 0xdeadbeef)
    × IsNumeral 2 64 0xdeadbeef (convert bin 0xdeadbeef)
    × IsNumeral 8 24 0xdeadbeef (convert oct 0xdeadbeef)
    × ((mode : ℕ) → mode ≢ hex → mode ≢ bin → mode ≢ oct → convert mode 0xdeadbeef ≡ [])
convert_reads_back_example = convert_reads_back 0xdeadbeef (omega arith)

str_to_list_lem_example :
    (3 ≤ 2 → str_to_list 2 (97 ∷ 98 ∷ 99 ∷ 0 ∷ []) ≡ built (97 ∷ 98 ∷ 99 ∷ []))
    × (2 < 3 → str_to_list 2 (97 ∷ 98 ∷ 99 ∷ 0 ∷ []) ≡ out_of_memory (99 ∷ []))
str_to_list_lem_example =
    str_to_list_lem 2 (97 ∷ 98 ∷ 99 ∷ []) []
      ((λ e. omega (arith, e)), ((λ e. omega (arith, e)), ((λ e. omega (arith, e)), tt)))
