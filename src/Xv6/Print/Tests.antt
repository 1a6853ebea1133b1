-- ===== src/Xv6/Print/Tests.antt =====
-- Asg02/xv6-2/printf.c: a number.
use cs5460spring.Base.{◌≡◌, arith, true}
use cs5460spring.Xv6.Print.{printint}
use cs5460spring.Xv6.Print.Digits.{atoi-printint}
use cs5460spring.Xv6.Ulib.{atoi}

atoi-printint_example : atoi (printint 65 4096 10 true) ≡ 4096
atoi-printint_example = atoi-printint 65 4096 true (omega arith)
