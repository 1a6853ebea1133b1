-- ===== src/Xv6/Syscall/Tests.antt =====
-- Asg02/xv6-2/syscall.c: a process of 64 bytes, with its stack pointer at 40.
use cs5460spring.Base.{◌^◌, ◌<◌, ◌≡◌, ◌↔◌, some, arith, if◌then◌else◌, ◌==◌}
use cs5460spring.Xv6.Syscall.{Caller, load_word, argptr, fetchstr}
use cs5460spring.Xv6.Syscall.Args.{IsInside, argptr_iff, TextSpec, fetchstr_lem}

-- The first argument, at 44, is 16; a text of two bytes stands there.
abbrev caller : Caller
caller = record {
  sz = 64;
  esp = 40;
  memory = λ a. if a == 44 then 16 else if a == 16 then 104 else if a == 17 then 105 else 0;
}

argptr_iff_example : (argptr caller 0 48 ≡ some 16) ↔ (
    IsInside caller 44 4
    × (load_word caller.memory 44 ≡ 16)
    × (48 < 2 ^ 31)
    × IsInside caller 16 48)
argptr_iff_example = argptr_iff caller 0 48 16 (omega arith) (omega arith)

fetchstr_lem_example : TextSpec caller 16 (fetchstr caller 16)
fetchstr_lem_example = fetchstr_lem caller 16
