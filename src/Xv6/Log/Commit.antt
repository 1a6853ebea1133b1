-- ===== src/Xv6/Log/Commit.antt =====
-- Asg02/xv6-2/log.c: a commit that a power cut interrupts, and the recovery that follows.
use cs5460spring.Base.{
  ℕ, zero, suc, ◌+◌, ◌-◌, ◌≤◌, ◌<◌, ◌≡◌, ◌≢◌, ◌⊎◌, inl, inr, ◌∙◌, ap, sym, arith, get_or, set,
  length, ℕ_discrete,
}
use cs5460spring.Xv6.Log.{
  Log, home, slot, write_words, write_head, read_head, install_trans, write_log, recover_from_log,
  reboot,
}
use cs5460spring.Xv6.Log.Disk.{
  Store, Block, bwrite, copy_all, IsApart, copy_all-power, copy_all-miss, copy_all-cache,
  copy_all-disk,
}
use cs5460spring.Xv6.Log.Header.{read_words-hit}

-- A block outside the header and the slots in use.
abbrev pub IsOutside : Log → ℕ → Type 0
IsOutside log x = (x < log.start) ⊎ (log.start + log.lh_n < x)

-- The state in which `commit` is called.
pub record IsReady (log : Log) (s : Store) : Type 0 where
  pub counted : log.lh_n ≤ length log.lh_block
  pub fits : log.lh_n < length (s.cache log.start)
  pub distinct : (i j : ℕ) → i < log.lh_n → j < log.lh_n → home log i ≡ home log j → i ≡ j
  pub outside : (i : ℕ) → i < log.lh_n → IsOutside log (home log i)
  pub erased : get_or (s.disk log.start) 0 0 ≡ 0
  pub clean :
      (x : ℕ) → IsOutside log x → ((i : ℕ) → i < log.lh_n → home log i ≢ x) → s.cache x ≡ s.disk x

pub write_head-start :
    (log : Log) (s : Store)
    → 0 < s.power
    → (write_head log s).disk log.start
      ≡ write_words log.lh_n 0 log.lh_block (set (s.cache log.start) 0 log.lh_n)
unfolding write_head bwrite
write_head-start log s on = ground arith

pub write_head-other :
    (log : Log) (s : Store) (x : ℕ)
    → log.start ≢ x
    → ((write_head log s).disk x ≡ s.disk x) × ((write_head log s).cache x ≡ s.cache x)
unfolding write_head bwrite
write_head-other log s x ne = ground arith

pub write_head-off : (log : Log) (s : Store) → s.power ≡ 0 → (write_head log s).disk ≡ s.disk
unfolding write_head bwrite
write_head-off log s off = ground arith

pub write_head-power : (log : Log) (s : Store) → (write_head log s).power ≡ s.power - 1
unfolding write_head bwrite
write_head-power log s = ground arith

-- Either a search finds `x` among the first `n` blocks to log, or none of them is `x`.
pub find_home :
    (log : Log) (n x : ℕ)
    → ((i : ℕ) × (i < n) × (home log i ≡ x)) ⊎ ((i : ℕ) → i < n → home log i ≢ x)
find_home log zero x = inr (λ i lt. absurd (omega arith))
find_home log (suc n) x = elim (ℕ_discrete (home log n) x) [
  | yes e ↦ inl (n, omega arith, e)
  | no ne ↦ elim (find_home log n x) [
    | inl (i, lt, e) ↦ inl (i, omega arith, e)
    | inr none_is ↦ inr (below none_is ne)
  ]
]
  where
    below :
        ((i : ℕ) → i < n → home log i ≢ x) → home log n ≢ x → (i : ℕ) → i < suc n → home log i ≢ x
    below h last i lt = elim (ℕ_discrete i n) [ yes e ↦ rw e last | no ne ↦ h i (omega arith) ]

module _ (log : Log) (s : Store) (ready : IsReady log s) where
  open ready use {counted, fits, distinct, outside, erased, clean}

  to_slots : IsApart (home log) (slot log) log.lh_n
  to_slots = record {
    once = λ i j hi hj e. omega arith;
    sources = λ i j hi hj e. omega (arith, outside j hj);
  }

  pub to_homes : IsApart (slot log) (home log) log.lh_n
  to_homes = record { once = distinct; sources = λ i j hi hj e. omega (arith, outside i hi) }

  abbrev pub logged : Store
  logged = write_log log s

  abbrev pub headed : Store
  headed = write_head log logged

  abbrev pub installed : Store
  installed = install_trans log headed

  -- No slot is the header or lies outside the log.
  slot-ne : (i x : ℕ) → i < log.lh_n → (x ≡ log.start) ⊎ IsOutside log x → slot log i ≢ x
  slot-ne i x lt h e = omega arith

  pub logged-miss :
      (x : ℕ)
      → (x ≡ log.start) ⊎ IsOutside log x
      → (logged.cache x ≡ s.cache x) × (logged.disk x ≡ s.disk x)
  unfolding write_log
  logged-miss x h =
      copy_all-miss (home log) (slot log) log.lh_n 0 s x (λ i le lt. slot-ne i x (omega arith) h)

  pub logged-slot :
      (j : ℕ)
      → j < log.lh_n
      → (logged.cache (slot log j) ≡ s.cache (home log j))
        × (log.lh_n < s.power → logged.disk (slot log j) ≡ s.cache (home log j))
  unfolding write_log
  logged-slot j lt = (
    copy_all-cache (home log) (slot log) log.lh_n to_slots log.lh_n 0 s j (omega arith)
        (omega arith) (omega arith),
    λ on.
        copy_all-disk (home log) (slot log) log.lh_n to_slots log.lh_n 0 s j (omega arith)
          (omega arith) (omega arith) (omega arith),
  )

  pub logged-power : logged.power ≡ s.power - log.lh_n
  unfolding write_log
  logged-power = copy_all-power (home log) (slot log) log.lh_n 0 s

  pub installed-miss :
      (x : ℕ) → ((i : ℕ) → i < log.lh_n → home log i ≢ x) → installed.disk x ≡ headed.disk x
  unfolding install_trans
  installed-miss x h =
      (copy_all-miss (slot log) (home log) log.lh_n 0 headed x (λ i le lt. h i (omega arith))).1

  -- A log header that was read back: it agrees with `log` on the blocks in use.
  record Agrees (log1 : Log) : Type 0 where
    same_start : log1.start ≡ log.start
    same_n : log1.lh_n ≡ log.lh_n
    same_home : (j : ℕ) → j < log.lh_n → home log1 j ≡ home log j

  agreed-IsApart : (log1 : Log) → Agrees log1 → IsApart (slot log1) (home log1) log.lh_n
  agreed-IsApart log1 a = record {
    once = λ i j hi hj e. distinct i j hi hj (sym (a.same_home i hi) ∙ (e ∙ a.same_home j hj));
    sources = λ i j hi hj e. omega (arith, outside i hi, a.same_home i hi, a.same_start);
  }

  reinstalled :
      (log1 : Log) (t : Store)
      → Agrees log1
      → log.lh_n ≤ t.power
      → let u = copy_all (slot log1) (home log1) log.lh_n 0 t in
        ((j : ℕ) → j < log.lh_n → u.disk (home log j) ≡ t.cache (slot log j))
        × ((x : ℕ) → ((i : ℕ) → i < log.lh_n → home log i ≢ x) → u.disk x ≡ t.disk x)
  reinstalled log1 t a on = (hit, miss)
    where
      u : Store
      u = copy_all (slot log1) (home log1) log.lh_n 0 t

      hit : (j : ℕ) → j < log.lh_n → u.disk (home log j) ≡ t.cache (slot log j)
      hit j lt =
          ap u.disk (sym (a.same_home j lt))
          ∙ (copy_all-disk (slot log1) (home log1) log.lh_n (agreed-IsApart log1 a) log.lh_n 0 t j
                (omega arith) (omega arith) (omega arith) (omega arith)
              ∙ ap t.cache (omega (arith, a.same_start)))

      miss : (x : ℕ) → ((i : ℕ) → i < log.lh_n → home log i ≢ x) → u.disk x ≡ t.disk x
      miss x h =
          (copy_all-miss (slot log1) (home log1) log.lh_n 0 t x
            (λ i le lt e. h i (omega arith) (sym (a.same_home i (omega arith)) ∙ e))).1

  module _ (boot : Log) (here : boot.start ≡ log.start) (room : log.lh_n ≤ length boot.lh_block)
      (p : ℕ) (enough : log.lh_n < p) where
    -- The disk after a restart on the disk of `t`.
    abbrev pub recovered : Store → ℕ → Block
    recovered t = (recover_from_log boot (reboot p t)).1.disk

    -- Up to the header, recovery only installs.
    recovered_other :
        (t : Store) (x : ℕ)
        → log.start ≢ x
        → recovered t x ≡ (install_trans (read_head boot (reboot p t)) (reboot p t)).disk x
    unfolding recover_from_log
    recovered_other t x ne =
        (write_head-other (record (read_head boot (reboot p t)) { lh_n = 0 })
          (install_trans (read_head boot (reboot p t)) (reboot p t)) x (λ e. ne (sym here ∙ e))).0

    pub outside-start : (x : ℕ) → IsOutside log x → log.start ≢ x
    outside-start x out = omega arith

    pub recovered_erased :
        (t : Store)
        → get_or (t.disk log.start) 0 0 ≡ 0
        → (x : ℕ) → IsOutside log x
        → recovered t x ≡ t.disk x
    recovered_erased t e x out = recovered_other t x (outside-start x out) ∙ nothing
      where
        empty : (read_head boot (reboot p t)).lh_n ≡ 0
        empty = unfold read_head reboot in (ap (λ b. get_or (t.disk b) 0 0) here ∙ e)

        nothing : (install_trans (read_head boot (reboot p t)) (reboot p t)).disk x ≡ t.disk x
        nothing =
            let l = read_head boot (reboot p t) in
            unfold install_trans copy_all reboot in
            ap (λ n. (copy_all (slot l) (home l) n 0 (reboot p t)).disk x) empty

    read_head-Agrees :
        (t : Store)
        → get_or (t.disk log.start) 0 0 ≡ log.lh_n
        → ((j : ℕ) → j < log.lh_n → get_or (t.disk log.start) (j + 1) 0 ≡ home log j)
        → Agrees (read_head boot (reboot p t))
    unfolding read_head reboot
    read_head-Agrees t e words = record {
      same_start = here;
      same_n = count;
      same_home = λ j lt.
          read_words-hit _ 0 (t.disk boot.start) boot.lh_block j (omega arith)
            (omega (arith, count)) (omega (arith, count))
          ∙ (ap (λ b. get_or (t.disk b) (j + 1) 0) here ∙ words j lt);
    }
      where
        count : get_or (t.disk boot.start) 0 0 ≡ log.lh_n
        count = ap (λ b. get_or (t.disk b) 0 0) here ∙ e

    pub recovered_committed :
        (t : Store)
        → get_or (t.disk log.start) 0 0 ≡ log.lh_n
        → ((j : ℕ) → j < log.lh_n → get_or (t.disk log.start) (j + 1) 0 ≡ home log j)
        → ((j : ℕ) → j < log.lh_n → recovered t (home log j) ≡ t.disk (slot log j))
          × ((x : ℕ)
              → IsOutside log x
              → ((i : ℕ) → i < log.lh_n → home log i ≢ x)
              → recovered t x ≡ t.disk x)
    recovered_committed t e words = (hit, miss)
      where
        l : Log
        l = read_head boot (reboot p t)

        a : Agrees l
        a = read_head-Agrees t e words

        redo :
            ((j : ℕ)
              → j < log.lh_n
              → (copy_all (slot l) (home l) log.lh_n 0 (reboot p t)).disk (home log j)
                ≡ t.disk (slot log j))
            × ((x : ℕ)
                → ((i : ℕ) → i < log.lh_n → home log i ≢ x)
                → (copy_all (slot l) (home l) log.lh_n 0 (reboot p t)).disk x ≡ t.disk x)
        redo = unfold reboot in reinstalled l (reboot p t) a (omega arith)

        full :
            (x : ℕ)
            → log.start ≢ x
            → recovered t x ≡ (copy_all (slot l) (home l) log.lh_n 0 (reboot p t)).disk x
        full x ne =
            recovered_other t x ne
            ∙ (unfold install_trans in
                ap (λ n. (copy_all (slot l) (home l) n 0 (reboot p t)).disk x) a.same_n)

        hit : (j : ℕ) → j < log.lh_n → recovered t (home log j) ≡ t.disk (slot log j)
        hit j lt = full (home log j) (outside-start (home log j) (outside j lt)) ∙ redo.0 j lt

        miss :
            (x : ℕ)
            → IsOutside log x
            → ((i : ℕ) → i < log.lh_n → home log i ≢ x)
            → recovered t x ≡ t.disk x
        miss x out h = full x (outside-start x out) ∙ redo.1 x h
