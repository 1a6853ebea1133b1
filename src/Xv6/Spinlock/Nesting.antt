-- ===== src/Xv6/Spinlock/Nesting.antt =====
-- Asg02/xv6-2/spinlock.c: `pushcli` and `popcli` are matched.
use cs5460spring.Base.{
  ℕ, zero, suc, ◌+◌, ◌-◌, ◌<◌, ◌≡◌, ◌≢◌, refl, Option, none, some, arith, Bool, false, ◌&&◌,
  if◌then◌else◌, ◌==◌, ==_of_ne,
}
use cs5460spring.Xv6.Spinlock.{Cpu, pushcli, popcli}

pub pushes : ℕ → Cpu → Cpu
pushes zero c = c
pushes (suc n) c = pushcli (pushes n c)

pub pops : ℕ → Cpu → Option Cpu
pops zero c = some c
pops (suc n) c = elim (popcli c) [ none ↦ none | some c' ↦ pops n c' ]

-- While a nesting is open, interrupts are off.
abbrev pub IsNested : Cpu → Type 0
IsNested c = 0 < c.ncli → c.interrupts ≡ false

pushes-ncli : (n : ℕ) (c : Cpu) → (pushes n c).ncli ≡ c.ncli + n
unfolding pushes pushcli
pushes-ncli zero c = omega arith
pushes-ncli (suc n) c = omega (arith, pushes-ncli n c)

pushes-interrupts : (n : ℕ) (c : Cpu) → (pushes (suc n) c).interrupts ≡ false
unfolding pushes pushcli
pushes-interrupts n c = refl

pushes-ncli_ne : (n : ℕ) (c : Cpu) → ((pushes (suc n) c).ncli == 0) ≡ false
pushes-ncli_ne n c = ==_of_ne (pushes (suc n) c).ncli 0 (omega (arith, pushes-ncli (suc n) c))

pushes-intena :
    (n : ℕ) (c : Cpu) → (pushes (suc n) c).intena ≡ (if c.ncli == 0 then c.interrupts else c.intena)
unfolding pushes pushcli
pushes-intena zero c = refl
pushes-intena (suc n) c = rw (pushes-ncli_ne n c) (pushes-intena n c)

suc-sub_one : (m : ℕ) → suc m - 1 ≡ m
suc-sub_one m = omega arith

popcli-step :
    (d : Cpu) (m : ℕ)
    → d.interrupts ≡ false
    → d.ncli ≡ suc m
    → popcli d ≡ some (record { ncli = m; intena = d.intena; interrupts = m == 0 && d.intena })
unfolding popcli
popcli-step d m e f = rw (e, f, ==_of_ne (suc m) 0 (omega arith), suc-sub_one m) refl

-- Interrupts after `n` calls of `pushcli`.
abbrev off_after : ℕ → Cpu → Bool
off_after zero c = c.interrupts
off_after (suc n) c = false

reopen :
    (n : ℕ) (c d : Cpu)
    → (suc n ≢ 0 → d.intena ≡ (if c.ncli == 0 then c.interrupts else c.intena))
    → IsNested c
    → (c.ncli + n == 0 && d.intena) ≡ off_after n c
reopen zero c d ea x = ground (arith, ea, x)
reopen (suc n) c d ea x = rw (==_of_ne (c.ncli + suc n) 0 (omega arith)) refl

pops_restore :
    (n : ℕ) (c d : Cpu)
    → d.ncli ≡ c.ncli + n
    → d.interrupts ≡ off_after n c
    → (n ≢ 0 → d.intena ≡ (if c.ncli == 0 then c.interrupts else c.intena))
    → IsNested c
    → (e : Cpu) × (pops n d ≡ some e) × (e.ncli ≡ c.ncli) × (e.interrupts ≡ c.interrupts)
unfolding pops
pops_restore zero c d en ei ea x = (d, refl, omega (arith, en), ei)
pops_restore (suc n) c d en ei ea x =
    rw (pops, popcli-step d (c.ncli + n) ei (omega (arith, en)))
      (pops_restore n c
        (record { ncli = c.ncli + n; intena = d.intena; interrupts = c.ncli + n == 0 && d.intena })
        refl (reopen n c d ea x) (λ z. ea (λ z'. omega (arith, z'))) x)

-- Where interrupts are off inside an open nesting, `n` calls of `pushcli` and as many of `popcli`
-- after them do not panic, and they leave the nesting's depth and the interrupt flag as they were;
-- between them, interrupts are off.
pub pops-pushes :
    (n : ℕ) (c : Cpu)
    → IsNested c
    → ((e : Cpu) × (pops n (pushes n c) ≡ some e)
        × (e.ncli ≡ c.ncli)
        × (e.interrupts ≡ c.interrupts))
      × (0 < n → (pushes n c).interrupts ≡ false)
unfolding pushes
pops-pushes zero c x = (
  pops_restore zero c c omega arith refl (λ z. absurd (z refl)) x,
  λ l. absurd (omega (arith, l)),
)
pops-pushes (suc n) c x = (
  pops_restore (suc n) c (pushes (suc n) c) (pushes-ncli (suc n) c) (pushes-interrupts n c)
      (λ z. pushes-intena n c) x,
  λ l. pushes-interrupts n c,
)
