-- ===== src/Xv6/Spinlock/Exclusion.antt =====
-- Asg02/xv6-2/spinlock.c: a spin lock is held by one CPU at a time.
use cs5460spring.Base.{ℕ, ◌≡◌, ◌≢◌, ◌↔◌, refl, none, some, arith, Bool, true, false}
use cs5460spring.Xv6.Spinlock.{
  Spinlock, is_cpu, holding, Pc, won, inside, releasing, clearing, leaving, panic_acquire,
  panic_release, Move, unheld, compares, other, held, spins, wins, signs, unlocked, releases,
  not_held, passes, clears, unlocks, System, set_pc, Step, step, Reach, here, next,
}

-- From the winning `xchg` to the store that unlocks.
abbrev owns : Pc → Bool
owns won = true
owns inside = true
owns releasing = true
owns clearing = true
owns leaving = true
owns _ = false

-- From the end of `acquire` to the store in `release` that clears `lk->cpu`.
abbrev pub is_between : Pc → Bool
is_between inside = true
is_between releasing = true
is_between clearing = true
is_between _ = false

-- What a CPU's place says of the lock.
abbrev Fits : ℕ → Spinlock → Pc → Type 0
Fits i lk inside = (lk.locked ≡ true) × (lk.cpu ≡ some i)
Fits i lk releasing = (lk.locked ≡ true) × (lk.cpu ≡ some i)
Fits i lk clearing = (lk.locked ≡ true) × (lk.cpu ≡ some i)
Fits i lk won = (lk.locked ≡ true) × (lk.cpu ≡ none)
Fits i lk leaving = (lk.locked ≡ true) × (lk.cpu ≡ none)
Fits i lk panic_release = ⊥
Fits i lk panic_acquire = ⊥
Fits i lk _ = Unit

pub record IsExclusive (s : System) : Type 0 where
  pub fits : (i : ℕ) → Fits i s.lock (s.pc i)
  pub unique : (i j : ℕ) → owns (s.pc i) ≡ true → owns (s.pc j) ≡ true → i ≡ j
  pub clean : s.lock.locked ≡ false → s.lock.cpu ≡ none
  pub signed : (i : ℕ) → is_cpu s.lock.cpu i ≡ true → is_between (s.pc i) ≡ true

Move-IsExclusive :
    {i : ℕ} {lk lk' : Spinlock} {p p' : Pc} (pc : ℕ → Pc)
    → pc i ≡ p
    → Move i lk p lk' p'
    → IsExclusive (record { lock = lk; pc = pc })
    → IsExclusive (record { lock = lk'; pc = set_pc pc i p' })
Move-IsExclusive {i} pc at (unheld free) x = record {
  fits = λ j. ground (arith, x.fits j);
  unique = λ j k a b. ground (arith, x.unique j k);
  clean = λ e. ground (arith, x.clean, x.fits i);
  signed = λ j h. ground (arith, x.signed j);
}
Move-IsExclusive {i} pc at (compares busy) x = record {
  fits = λ j. ground (arith, x.fits j);
  unique = λ j k a b. ground (arith, x.unique j k);
  clean = λ e. ground (arith, x.clean, x.fits i);
  signed = λ j h. ground (arith, x.signed j);
}
Move-IsExclusive {i} pc at (other unsigned) x = record {
  fits = λ j. ground (arith, x.fits j);
  unique = λ j k a b. ground (arith, x.unique j k);
  clean = λ e. ground (arith, x.clean, x.fits i);
  signed = λ j h. ground (arith, x.signed j);
}
Move-IsExclusive {i} pc at (held mine) x = absurd (ground (arith, x.signed i))
Move-IsExclusive {i} pc at (spins busy) x = record {
  fits = λ j. ground (arith, x.fits j);
  unique = λ j k a b. ground (arith, x.unique j k);
  clean = λ e. ground (arith, x.clean, x.fits i);
  signed = λ j h. ground (arith, x.signed j);
}
Move-IsExclusive {i} pc at (wins free) x = record {
  fits = λ j. ground (arith, x.fits j);
  unique = λ j k a b. ground (arith, x.unique j k, x.fits j, x.fits k);
  clean = λ e. ground (arith, x.clean, x.fits i);
  signed = λ j h. ground (arith, x.clean);
}
Move-IsExclusive {i} pc at signs x = record {
  fits = λ j. ground (arith, x.fits j, x.fits i, x.unique i j);
  unique = λ j k a b. ground (arith, x.unique j k, x.unique i k, x.unique i j);
  clean = λ e. ground (arith, x.clean, x.fits i);
  signed = λ j h. ground (arith, x.signed j);
}
Move-IsExclusive {i} pc at (unlocked free) x = absurd (ground (arith, x.fits i))
Move-IsExclusive {i} pc at (releases busy) x = record {
  fits = λ j. ground (arith, x.fits j, x.fits i);
  unique = λ j k a b. ground (arith, x.unique j k);
  clean = λ e. ground (arith, x.clean, x.fits i);
  signed = λ j h. ground (arith, x.signed j);
}
Move-IsExclusive {i} pc at (not_held unsigned) x = absurd (ground (arith, x.fits i))
Move-IsExclusive {i} pc at (passes mine) x = record {
  fits = λ j. ground (arith, x.fits j, x.fits i);
  unique = λ j k a b. ground (arith, x.unique j k);
  clean = λ e. ground (arith, x.clean, x.fits i);
  signed = λ j h. ground (arith, x.signed j);
}
Move-IsExclusive {i} pc at clears x = record {
  fits = λ j. ground (arith, x.fits j, x.fits i, x.unique i j);
  unique = λ j k a b. ground (arith, x.unique j k, x.unique i k, x.unique i j);
  clean = λ e. ground (arith, x.clean, x.fits i);
  signed = λ j h. ground (arith, x.signed j);
}
Move-IsExclusive {i} pc at unlocks x = record {
  fits = λ j. ground (arith, x.fits j, x.fits i, x.unique i j);
  unique = λ j k a b. ground (arith, x.unique j k, x.unique i k, x.unique i j);
  clean = λ e. ground (arith, x.clean, x.fits i);
  signed = λ j h. ground (arith, x.signed j);
}

Step-IsExclusive : {s t : System} → IsExclusive s → Step s t → IsExclusive t
Step-IsExclusive {s} x (step i m) = Move-IsExclusive s.pc refl m x

Reach-IsExclusive : {s : System} → Reach s → IsExclusive s
Reach-IsExclusive here = record {
  fits = λ i. tt;
  unique = λ i j a b. absurd (ground (arith, a));
  clean = λ e. refl;
  signed = λ i h. absurd (ground (arith, h));
}
Reach-IsExclusive (next r st) = Step-IsExclusive (Reach-IsExclusive r) st

-- What mutual exclusion asks of a state of the lock: two CPUs between `acquire` and `release` are
-- one, and no CPU is in the panic of `acquire` or of `release`.
pub record Excludes (s : System) : Type 0 where
  pub one_inside : (i j : ℕ) → is_between (s.pc i) ≡ true → is_between (s.pc j) ≡ true → i ≡ j
  pub holds : (i : ℕ) → is_between (s.pc i) ≡ true ↔ holding s.lock i ≡ true
  pub no_panic_acquire : (i : ℕ) → s.pc i ≢ panic_acquire
  pub no_panic_release : (i : ℕ) → s.pc i ≢ panic_release

IsExclusive-Excludes : {s : System} → IsExclusive s → Excludes s
IsExclusive-Excludes {s} x = record {
  one_inside = λ i j a b. ground (arith, x.unique i j);
  holds = λ i. ((λ a. ground (arith, x.fits i)), (λ h. x.signed i (ground (arith, h))));
  no_panic_acquire = λ i e. ground (arith, x.fits i);
  no_panic_release = λ i e. ground (arith, x.fits i);
}

-- In every state that CPUs reach from an initialised lock, each going through `acquire` and
-- `release` in turn and all interleaved in any way, two CPUs between the end of `acquire` and the
-- store in `release` that clears `lk->cpu` are the same CPU, a CPU is there exactly when `holding`
-- answers true on it, and no CPU has panicked in `acquire` or in `release`.
pub mutual_exclusion : {s : System} → Reach s → Excludes s
mutual_exclusion r = IsExclusive-Excludes (Reach-IsExclusive r)
