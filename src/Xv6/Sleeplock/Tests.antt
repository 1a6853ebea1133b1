-- ===== src/Xv6/Sleeplock/Tests.antt =====
-- Asg02/xv6-2/sleeplock.c: process 2 sleeps until process 1 releases the lock.
use cs5460spring.Base.{refl}
use cs5460spring.Xv6.Sleeplock.{Users, Run, starts, then_turn, calls, sleeps, takes, releases}
use cs5460spring.Xv6.Sleeplock.Held.{IsHeldOnce, sleeplock-IsHeldOnce}

abbrev contended : (s : Users) × Run s
contended = (
  _,
  then_turn
      (then_turn
        (then_turn (then_turn (then_turn starts (calls 1 refl)) (takes 1 refl refl)) (calls 2 refl))
        (sleeps 2 refl refl))
      (releases 1 refl),
)

sleeplock-IsHeldOnce_example : IsHeldOnce contended.0
sleeplock-IsHeldOnce_example = sleeplock-IsHeldOnce contended.1
