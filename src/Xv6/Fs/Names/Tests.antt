-- ===== src/Xv6/Fs/Names/Tests.antt =====
-- Asg02/xv6-2/fs.c: the path "/ab//c".
use cs5460spring.Base.{arith, if◌then◌else◌, ◌==◌}
use cs5460spring.Xv6.Str.{Memory}
use cs5460spring.Xv6.Fs.Names.{skipelem}
use cs5460spring.Xv6.Fs.Names.Element.{SkipSpec, skipelem_lem}

abbrev path : Memory
path i =
    if i == 0
    then 47
    else if i == 1
    then 97
    else if i == 2
    then 98
    else if i == 3
    then 47
    else if i == 4
    then 47
    else if i == 5
    then 99
    else 0

abbrev name : Memory
name i = 1

skipelem_lem_example : SkipSpec path 1 2 5 name (skipelem 7 0 path name)
skipelem_lem_example =
    skipelem_lem 7 0 1 2 2 path name (omega arith) (λ i lt. ground (arith, lt))
      (λ i lt. ground (arith, lt)) (λ i lt. ground (arith, lt)) (omega arith)
      (λ e. omega (arith, e)) (λ e. omega (arith, e))
