-- ===== src/Xv6/Sleeplock/Held.antt =====
-- Asg02/xv6-2/sleeplock.c: who holds a sleep lock, and who sleeps on it.
use cs5460spring.Base.{ℕ, ◌≡◌, ◌↔◌, true, arith}
use cs5460spring.Xv6.Sleeplock.{
  Sleeplock, holdingsleep, Place, dormant, holder, Users, Turn, calls, sleeps, takes, woken,
  releases, Run, starts, then_turn,
}

-- What the place of process `i` says of the lock.
abbrev Fits : ℕ → Sleeplock → Place → Type 0
Fits i lk holder = (lk.locked ≡ true) × (lk.pid ≡ i)
Fits i lk dormant = lk.locked ≡ true
Fits i lk _ = Unit

record IsOrderly (s : Users) : Type 0 where
  fits : (i : ℕ) → Fits i s.lock (s.place i)
  signed : (i : ℕ) → holdingsleep i s.lock ≡ true → s.place i ≡ holder

Turn-IsOrderly : {s t : Users} → Turn s t → IsOrderly s → IsOrderly t
Turn-IsOrderly {s} (calls i at) x = record {
  fits = λ j. ground (arith, x.fits j);
  signed = λ j h. ground (arith, x.signed j);
}
Turn-IsOrderly {s} (sleeps i at busy) x = record {
  fits = λ j. ground (arith, x.fits j, busy);
  signed = λ j h. ground (arith, x.signed j);
}
Turn-IsOrderly {s} (takes i at free) x = record {
  fits = λ j. ground (arith, x.fits j, free);
  signed = λ j h. ground (arith, x.signed j, free);
}
Turn-IsOrderly {s} (woken i at) x = record {
  fits = λ j. ground (arith, x.fits j);
  signed = λ j h. ground (arith, x.signed j);
}
Turn-IsOrderly {s} (releases i at) x = record {
  fits = λ j. ground (arith, x.fits j, x.fits i);
  signed = λ j h. ground (arith, h);
}

Run-IsOrderly : {s : Users} → Run s → IsOrderly s
Run-IsOrderly starts = record { fits = λ i. tt; signed = λ i h. absurd (ground (arith, h)) }
Run-IsOrderly (then_turn r m) = Turn-IsOrderly m (Run-IsOrderly r)

-- What a sleep lock promises.
pub record IsHeldOnce (s : Users) : Type 0 where
  pub one_holder : (i j : ℕ) → s.place i ≡ holder → s.place j ≡ holder → i ≡ j
  pub answers : (i : ℕ) → holdingsleep i s.lock ≡ true ↔ s.place i ≡ holder
  pub none_forgotten : (i : ℕ) → s.place i ≡ dormant → s.lock.locked ≡ true

-- Whatever turns processes take at `acquiresleep` and `releasesleep`, from an initialised lock, each
-- releasing only what it has acquired, and whoever else wakes them: at most one is between the two, `holdingsleep` answers true
-- for exactly that one, and a process is asleep only while the lock is held, so none is left
-- sleeping on a free lock.
pub sleeplock-IsHeldOnce : {s : Users} → Run s → IsHeldOnce s
sleeplock-IsHeldOnce r =
    let x = Run-IsOrderly r in
    record {
      one_holder = λ i j a b. ground (arith, x.fits i, x.fits j);
      answers = λ i. (x.signed i, λ a. ground (arith, x.fits i));
      none_forgotten = λ i a. ground (arith, x.fits i);
    }
