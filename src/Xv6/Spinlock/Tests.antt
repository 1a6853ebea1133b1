-- ===== src/Xv6/Spinlock/Tests.antt =====
-- Asg02/xv6-2/spinlock.c: a CPU takes the lock while another spins.
use cs5460spring.Base.{◌<◌, ◌≡◌, refl, some, true, false, arith}
use cs5460spring.Xv6.Spinlock.{Cpu, System, step, Reach, here, next, unheld, wins, signs, spins}
use cs5460spring.Xv6.Spinlock.Exclusion.{Excludes, mutual_exclusion}
use cs5460spring.Xv6.Spinlock.Nesting.{pushes, pops, pops-pushes}

-- CPU 0 and CPU 1 both pass the test of `acquire`; CPU 1 wins; CPU 0 spins.
abbrev raced : (s : System) × Reach s
raced = (
  _,
  next
      (next
        (next (next (next here (step 0 (unheld refl))) (step 1 (unheld refl))) (step 1 (wins refl)))
        (step 1 signs))
      (step 0 (spins refl)),
)

mutual_exclusion_example : Excludes raced.0
mutual_exclusion_example = mutual_exclusion raced.1

abbrev running_cpu : Cpu
running_cpu = record { ncli = 0; intena = false; interrupts = true }

pops-pushes_example :
    ((e : Cpu) × (pops 2 (pushes 2 running_cpu) ≡ some e) × (e.ncli ≡ 0) × (e.interrupts ≡ true))
    × (0 < 2 → (pushes 2 running_cpu).interrupts ≡ false)
pops-pushes_example = pops-pushes 2 running_cpu (λ h. absurd (omega arith))
