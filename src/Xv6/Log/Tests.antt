-- ===== src/Xv6/Log/Tests.antt =====
-- Asg02/xv6-2/log.c: a transaction of two blocks.
use cs5460spring.Base.{
  ℕ, zero, suc, ◌≡◌, ◌≢◌, ◌<◌, ◌≤◌, ◌⊎◌, inr, refl, [], ◌∷◌, true, false, arith,
}
use cs5460spring.Xv6.Log.{
  Log, home, recover_from_log, commit, reboot, log_record, log_write, done, begin_op,
}
use cs5460spring.Xv6.Log.Disk.{Store, Block, update}
use cs5460spring.Xv6.Log.Commit.{IsReady, IsOutside}
use cs5460spring.Xv6.Log.Crash.{commit_crash_atomic}
use cs5460spring.Xv6.Log.Reserve.{
  IsDistinct, log_record_absorbs, begins, here, next, log_write_has_room,
}

abbrev blank : Block
blank = 0 ∷ 0 ∷ 0 ∷ 0 ∷ []

abbrev two_logged : Log
two_logged = record {
  start = 2;
  size = 10;
  outstanding = 0;
  committing = true;
  lh_n = 2;
  lh_block = 20 ∷ 21 ∷ 0 ∷ [];
}

-- Power for the two copies, the header and one install.
abbrev changed : Store
changed = record {
  disk = λ b. blank;
  cache = update (update (λ b. blank) 20 (7 ∷ [])) 21 (8 ∷ []);
  dirty = λ b. false;
  power = 4;
}

homes_distinct : (i j : ℕ) → i < 2 → j < 2 → home two_logged i ≡ home two_logged j → i ≡ j
homes_distinct zero zero hi hj e = refl
homes_distinct zero (suc zero) hi hj e = absurd (omega (arith, e))
homes_distinct (suc zero) zero hi hj e = absurd (omega (arith, e))
homes_distinct (suc zero) (suc zero) hi hj e = refl
homes_distinct (suc (suc i)) j hi hj e = absurd (omega (arith, hi))
homes_distinct zero (suc (suc j)) hi hj e = absurd (omega (arith, hj))
homes_distinct (suc zero) (suc (suc j)) hi hj e = absurd (omega (arith, hj))

homes-IsOutside : (i : ℕ) → i < 2 → IsOutside two_logged (home two_logged i)
homes-IsOutside zero hi = inr (omega arith)
homes-IsOutside (suc zero) hi = inr (omega arith)
homes-IsOutside (suc (suc i)) hi = absurd (omega (arith, hi))

two_logged-IsReady : IsReady two_logged changed
two_logged-IsReady = record {
  counted = omega arith;
  fits = omega arith;
  distinct = homes_distinct;
  outside = homes-IsOutside;
  erased = refl;
  clean = λ x out ne. ground (arith, ne 0 (omega arith), ne 1 (omega arith));
}

commit_crash_atomic_example :
    let after = (recover_from_log two_logged (reboot 3 (commit two_logged changed).1)).1.disk in
    ((4 ≤ 2) × ((x : ℕ) → IsOutside two_logged x → after x ≡ changed.disk x))
    ⊎ ((2 < 4) × ((x : ℕ) → IsOutside two_logged x → after x ≡ changed.cache x))
commit_crash_atomic_example =
    commit_crash_atomic two_logged changed two_logged-IsReady (omega arith) two_logged refl
      (omega arith) 3 (omega arith)

abbrev idle : Log
idle = record {
  start = 2;
  size = 31;
  outstanding = 0;
  committing = false;
  lh_n = 0;
  lh_block = 0 ∷ 0 ∷ 0 ∷ [];
}

log_record_absorbs_example :
    let log' = log_record two_logged 21 in
    ((j : ℕ) × (j < log'.lh_n) × (home log' j ≡ 21))
    × ((j : ℕ) → j < 2 → home log' j ≡ home two_logged j)
    × (((j : ℕ) × (j < 2) × (home two_logged j ≡ 21) × (log'.lh_n ≡ 2))
        ⊎ (((j : ℕ) → j < 2 → home two_logged j ≢ 21) × (log'.lh_n ≡ 3)))
    × IsDistinct log'
log_record_absorbs_example =
    log_record_absorbs two_logged 21 (omega arith) two_logged-IsReady.distinct

abbrev begun : Log
begun = record idle { outstanding = 1 }

begin_op-idle : begin_op idle ≡ done begun
unfolding begin_op
begin_op-idle = refl

log_write_has_room_example :
    log_write 20 begun changed
    ≡ done (log_record begun 20, record changed { dirty = update changed.dirty 20 true })
log_write_has_room_example =
    log_write_has_room {u = record { log = idle; left = 0 }} {v = record { log = begun; left = 10 }}
      refl refl (omega arith) (next here (begins begin_op-idle)) 20 changed (omega arith)
