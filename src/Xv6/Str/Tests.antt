-- ===== src/Xv6/Str/Tests.antt =====
-- Asg02/xv6-2/string.c: the routines on small blocks.
use cs5460spring.Base.{◌+◌, ◌-◌, ◌%◌, ◌^◌, ◌≡◌, ◌↔◌, [], ◌∷◌, if◌then◌else◌, arith}
use cs5460spring.Xv6.Str.{Memory, memmove, memset, strncmp, safestrcpy}
use cs5460spring.Xv6.Str.Move.{within, memmove_lem}
use cs5460spring.Xv6.Str.Fill.{memset_lem, IsCopied, safestrcpy_terminates}
use cs5460spring.Xv6.Str.Compare.{Agree, strncmp_zero_iff}

abbrev ramp : Memory
ramp a = a % 256

-- The blocks overlap, and the destination lies above.
memmove_lem_example :
    memmove 12 10 5 ramp 13 ≡ (if within 13 12 5 then ramp (10 + (13 - 12)) else ramp 13)
memmove_lem_example = memmove_lem 12 10 5 ramp 13

memset_lem_example : memset 8 0x1ff 8 ramp 15 ≡ (if within 15 8 8 then 0x1ff % 2 ^ 8 else ramp 15)
memset_lem_example = memset_lem 8 0x1ff 8 ramp 15

strncmp_zero_iff_example : (strncmp 5 261 4 ramp ≡ 0) ↔ Agree 5 261 4 ramp
strncmp_zero_iff_example = strncmp_zero_iff 5 261 4 ramp (λ a. omega arith)

safestrcpy_terminates_example :
    IsCopied 3
      (97 ∷ 98 ∷ 99 ∷ 100 ∷ 0 ∷ [])
      (safestrcpy (1 ∷ 1 ∷ 1 ∷ []) (97 ∷ 98 ∷ 99 ∷ 100 ∷ 0 ∷ []) 3)
safestrcpy_terminates_example =
    safestrcpy_terminates (1 ∷ 1 ∷ 1 ∷ []) (97 ∷ 98 ∷ 99 ∷ 100 ∷ 0 ∷ []) 3 (omega arith)
      (omega arith)
