-- ===== src/Xv6/Log/Reserve.antt =====
-- Asg02/xv6-2/log.c: `log_write` absorbs repeated blocks, and `begin_op` reserves log space.
use cs5460spring.Base.{
  ℕ, zero, suc, ◌+◌, ◌-◌, ◌*◌, ◌≤◌, ◌<◌, ◌≡◌, ◌≢◌, ◌⊎◌, inl, inr, ◌∙◌, sym, refl, List, Bool, true,
  false, arith, get_or, set, length, get_or-set_self, get_or-set_ne, Bool-cases, ◌==◌, ==_iff,
  ==_refl, ==_of_ne, ℕ_discrete,
}
use cs5460spring.Xv6.Log.{
  Log, done, log_size, max_op_blocks, home, log_index, log_record, log_write, begin_op,
  end_op_count,
}
use cs5460spring.Xv6.Log.Disk.{Store, update}

-- What the search returns: the first match, or the end of the range.
record Searched (m i : ℕ) (block : List ℕ) (b r : ℕ) : Type 0 where
  low : i ≤ r
  high : r ≤ i + m
  found : r < i + m → get_or block r 0 ≡ b
  first : (j : ℕ) → i ≤ j → j < r → get_or block j 0 ≢ b

log_index-Searched :
    (m i : ℕ) (block : List ℕ) (b : ℕ) → Searched m i block b (log_index m i block b)
unfolding log_index
log_index-Searched zero i block b = record {
  low = omega arith;
  high = omega arith;
  found = λ lt. absurd (omega arith);
  first = λ j le lt. absurd (omega arith);
}
log_index-Searched (suc m) i block b = elim (Bool-cases (get_or block i 0 == b)) [
  | inl hit ↦ rw hit (record {
    low = omega arith;
    high = omega arith;
    found = λ lt. (==_iff _ b).0 hit;
    first = λ j le lt. absurd (omega arith);
  })
  | inr miss ↦ rw miss (later miss (log_index-Searched m (i + 1) block b))
]
  where
    later :
        (get_or block i 0 == b) ≡ false
        → {r : ℕ} → Searched m (i + 1) block b r
        → Searched (suc m) i block b r
    later miss rest = record {
      low = omega arith;
      high = omega arith;
      found = λ lt. rest.found (omega arith);
      first = λ j le lt. elim (ℕ_discrete j i) [
        | yes e ↦ rw e (λ same. ground arith)
        | no ne ↦ rest.first j (omega arith) lt
      ];
    }

-- Among the first `n` logged numbers none occurs twice.
abbrev pub IsDistinct : Log → Type 0
IsDistinct log = (i j : ℕ) → i < log.lh_n → j < log.lh_n → home log i ≡ home log j → i ≡ j

-- What `log_record_absorbs` states, of the count and the numbers after the call.
abbrev Absorbed : Log → ℕ → ℕ → List ℕ → Type 0
Absorbed log b n' block' =
    ((j : ℕ) × (j < n') × (get_or block' j 0 ≡ b))
    × ((j : ℕ) → j < log.lh_n → get_or block' j 0 ≡ home log j)
    × (((j : ℕ) × (j < log.lh_n) × (home log j ≡ b) × (n' ≡ log.lh_n))
        ⊎ (((j : ℕ) → j < log.lh_n → home log j ≢ b) × (n' ≡ log.lh_n + 1)))
    × ((i j : ℕ) → i < n' → j < n' → get_or block' i 0 ≡ get_or block' j 0 → i ≡ j)

fresh_block :
    (log : Log) (b : ℕ)
    → log.lh_n < length log.lh_block
    → IsDistinct log
    → ((j : ℕ) → j < log.lh_n → home log j ≢ b)
    → Absorbed log b (log.lh_n + 1) (set log.lh_block log.lh_n b)
fresh_block log b room distinct new = ((n, omega arith, last), old, inr (new, refl), differ)
  where
    n : ℕ
    n = log.lh_n

    last : get_or (set log.lh_block n b) n 0 ≡ b
    last = get_or-set_self log.lh_block n b 0 room

    old : (j : ℕ) → j < n → get_or (set log.lh_block n b) j 0 ≡ home log j
    old j lt = get_or-set_ne log.lh_block n j b 0 (omega arith)

    differ :
        (i j : ℕ)
        → i < n + 1
        → j < n + 1
        → get_or (set log.lh_block n b) i 0 ≡ get_or (set log.lh_block n b) j 0
        → i ≡ j
    differ i j hi hj e = elim (ℕ_discrete i n) [
      | yes ei ↦ elim (ℕ_discrete j n) [
        | yes ej ↦ omega arith
        | no nj ↦ absurd (new j (omega arith) (sym (old j (omega arith)) ∙ (sym e ∙ (rw ei last))))
      ]
      | no ni ↦ elim (ℕ_discrete j n) [
        | yes ej ↦ absurd (new i (omega arith) (sym (old i (omega arith)) ∙ (e ∙ (rw ej last))))
        | no nj ↦
            distinct i j (omega arith) (omega arith)
              (sym (old i (omega arith)) ∙ (e ∙ old j (omega arith)))
      ]
    ]

old_block :
    (log : Log) (b i : ℕ)
    → i < log.lh_n
    → log.lh_n < length log.lh_block
    → IsDistinct log
    → home log i ≡ b
    → Absorbed log b log.lh_n (set log.lh_block i b)
old_block log b i lt room distinct at = (
  (i, lt, same i ∙ at),
  (λ j h. same j),
  inl (i, lt, at, refl),
  λ j k hj hk e. distinct j k hj hk (sym (same j) ∙ (e ∙ same k)),
)
  where
    same : (j : ℕ) → get_or (set log.lh_block i b) j 0 ≡ home log j
    same j = elim (ℕ_discrete i j) [
      | yes e ↦ rw (← e) (get_or-set_self log.lh_block i b 0 (omega arith) ∙ sym at)
      | no ne ↦ get_or-set_ne log.lh_block i j b 0 ne
    ]

-- `log_write` keeps the logged blocks and adds its own, which takes a new place only if it was not
-- logged already; no block number is ever logged twice.
pub log_record_absorbs :
    (log : Log) (b : ℕ)
    → log.lh_n < length log.lh_block
    → IsDistinct log
    → let log' = log_record log b in
      ((j : ℕ) × (j < log'.lh_n) × (home log' j ≡ b))
      × ((j : ℕ) → j < log.lh_n → home log' j ≡ home log j)
      × (((j : ℕ) × (j < log.lh_n) × (home log j ≡ b) × (log'.lh_n ≡ log.lh_n))
          ⊎ (((j : ℕ) → j < log.lh_n → home log j ≢ b) × (log'.lh_n ≡ log.lh_n + 1)))
      × IsDistinct log'
unfolding log_record
log_record_absorbs log b room distinct =
    let i = log_index log.lh_n 0 log.lh_block b in
    let srch = log_index-Searched log.lh_n 0 log.lh_block b in
    elim (ℕ_discrete i log.lh_n) [
      | yes e ↦
          rw (e, ==_refl)
            (fresh_block log b room distinct
              (λ j lt. srch.first j (omega arith) (omega (arith, e))))
      | no ne ↦ rw (==_of_ne i log.lh_n ne) (
          old_block log b i (omega (arith, srch.high)) room distinct
            (srch.found (omega (arith, srch.high))))
    ]

-- The log with, as a ghost, the number of blocks that the running system calls may still log.
pub record Usage : Type 0 where
  pub log : Log
  pub left : ℕ

-- The calls of the file system. Each system call logs at most `max_op_blocks` blocks between its
-- `begin_op` and its `end_op`.
pub data Step : Usage → Usage → Type 0 where
  begins :
      {log log' : Log} {left : ℕ}
      → begin_op log ≡ done log'
      → Step
          (record { log = log; left = left })
          (record { log = log'; left = left + max_op_blocks })
  writes :
      {log log' : Log} {left : ℕ} (b : ℕ) (s s' : Store)
      → 0 < left
      → log_write b log s ≡ done (log', s')
      → Step (record { log = log; left = left }) (record { log = log'; left = left - 1 })
  ends :
      {log log' : Log} {left : ℕ} (left' : ℕ) {commits : Bool}
      → 0 < log.outstanding
      → end_op_count log ≡ done (log', commits)
      → left' ≤ left
      → left' ≤ log'.outstanding * max_op_blocks
      → Step (record { log = log; left = left }) (record { log = log'; left = left' })
  committed :
      {log : Log} {left : ℕ}
      → log.committing ≡ true
      → Step
          (record { log = log; left = left })
          (record { log = record log { lh_n = 0; committing = false }; left = left })

pub data Reach (u : Usage) : Usage → Type 0 where
  here : Reach u u
  next : {v w : Usage} → Reach u v → Step v w → Reach u w

pub record IsReserved (u : Usage) : Type 0 where
  pub space : u.log.lh_n + u.left ≤ log_size
  pub owed : u.left ≤ u.log.outstanding * max_op_blocks
  pub capacity : log_size < u.log.size

Step-IsReserved : {u v : Usage} → Step u v → IsReserved u → IsReserved v
unfolding begin_op end_op_count log_write
Step-IsReserved (begins e) r = ground arith
Step-IsReserved (writes b s s' pos e) r = ground arith
Step-IsReserved (ends left' pos e le owed) r = ground arith
Step-IsReserved (committed e) r = ground arith

Reach-IsReserved : {u v : Usage} → IsReserved u → Reach u v → IsReserved v
Reach-IsReserved r here = r
Reach-IsReserved r (next path st) = Step-IsReserved st (Reach-IsReserved r path)

-- Starting from a log with no call in progress and nothing logged, whatever calls `begin_op` admits
-- and whatever they log within their reserved blocks, `log_write` has room and goes on, if the log
-- area is larger than LOGSIZE blocks.
pub log_write_has_room :
    {u v : Usage}
    → u.log.lh_n ≡ 0
    → u.left ≡ 0
    → log_size < u.log.size
    → Reach u v
    → (b : ℕ) (s : Store) → 0 < v.left
    → log_write b v.log s ≡ done (log_record v.log b, record s { dirty = update s.dirty b true })
unfolding log_write
log_write_has_room {v} empty none_left large path b s pos =
    let r =
      Reach-IsReserved (record { space = omega arith; owed = omega arith; capacity = large })
        path in
    ground arith
