-- ===== src/Xv6/Sleeplock.antt =====
-- Asg02/xv6-2/sleeplock.c: long-term locks. The inner spin lock makes each critical section one
-- step, and `sleep` gives it up and falls asleep in one.
pub mod Held
mod Tests
use cs5460spring.Base.{ℕ, ◌≡◌, Option, none, some, Bool, true, false, ◌&&◌, if◌then◌else◌, ◌==◌}

pub record Sleeplock : Type 0 where
  pub locked : Bool
  pub pid : ℕ

abbrev pub initsleeplock : Sleeplock
initsleeplock = record { locked = false; pid = 0 }

-- `acquiresleep` by process `pid`, from a test of `locked` on: `none` means that it sleeps on the
-- lock, and tests again when it wakes.
abbrev pub acquire_turn : ℕ → Sleeplock → Option Sleeplock
acquire_turn pid lk = if lk.locked then none else some (record { locked = true; pid = pid })

-- The fields after `releasesleep`, which wakes all that sleep on the lock.
abbrev pub releasesleep : Sleeplock → Sleeplock
releasesleep lk = record { locked = false; pid = 0 }

abbrev pub holdingsleep : ℕ → Sleeplock → Bool
holdingsleep pid lk = lk.locked && lk.pid == pid

-- Where a process stands: before `acquiresleep`, in its loop, asleep in it, or past it.
pub data Place : Type 0 where
  away trying dormant holder : Place

abbrev pub set_place : (ℕ → Place) → ℕ → Place → ℕ → Place
set_place place i p j = if i == j then p else place j

-- `wakeup(lk)`.
abbrev pub wake : Place → Place
wake dormant = trying
wake p = p

-- The lock, and the place of the process with each number.
pub record Users : Type 0 where
  pub lock : Sleeplock
  pub place : ℕ → Place

-- Processes take turns in any order. A sleeper may also be woken by others: `kill` makes the
-- process that it marks runnable, whatever it sleeps on.
pub data Turn (s : Users) : Users → Type 0 where
  calls :
      (i : ℕ)
      → s.place i ≡ away
      → Turn s (record { lock = s.lock; place = set_place s.place i trying })
  sleeps :
      (i : ℕ)
      → s.place i ≡ trying
      → acquire_turn i s.lock ≡ none
      → Turn s (record { lock = s.lock; place = set_place s.place i dormant })
  takes :
      (i : ℕ) {lk : Sleeplock}
      → s.place i ≡ trying
      → acquire_turn i s.lock ≡ some lk
      → Turn s (record { lock = lk; place = set_place s.place i holder })
  woken :
      (i : ℕ)
      → s.place i ≡ dormant
      → Turn s (record { lock = s.lock; place = set_place s.place i trying })
  releases :
      (i : ℕ)
      → s.place i ≡ holder
      → Turn s
          (record { lock = releasesleep s.lock; place = set_place (λ j. wake (s.place j)) i away })

pub data Run : Users → Type 0 where
  starts : Run (record { lock = initsleeplock; place = λ i. away })
  then_turn : {s t : Users} → Run s → Turn s t → Run t
