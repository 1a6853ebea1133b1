-- ===== src/Xv6/Log/Crash.antt =====
-- Asg02/xv6-2/log.c: `commit` is atomic under power cuts.
use cs5460spring.Base.{
  ℕ, ◌+◌, ◌-◌, ◌≤◌, ◌<◌, ◌≡◌, ◌≢◌, ◌⊎◌, inl, inr, ◌∙◌, ap, sym, refl, List, [], ◌∷◌, arith, get_or,
  set, length, length-set, get_or-set_self, lt→ltb, dec_lt,
}
use cs5460spring.Xv6.Log.{
  Log, home, slot, write_words, write_head, install_trans, recover_from_log, commit, reboot,
}
use cs5460spring.Xv6.Log.Disk.{Store, Block, copy_all-power, copy_all-off, copy_all-disk}
use cs5460spring.Xv6.Log.Header.{write_words-miss, write_words-hit}
use cs5460spring.Xv6.Log.Commit
use cs5460spring.Xv6.Log.Commit.{
  IsReady, IsOutside, write_head-start, write_head-other, write_head-off, write_head-power,
  find_home,
}

set_first : (words : List ℕ) (v : ℕ) → 0 < length words → get_or (set words 0 v) 0 0 ≡ v
set_first words v h = get_or-set_self words 0 v 0 h

IsOutside-start : (log : Log) (x : ℕ) → IsOutside log x → log.start ≢ x
IsOutside-start log x out = omega arith

set_first_zero : (words : List ℕ) → get_or (set words 0 0) 0 0 ≡ 0
set_first_zero [] = refl
set_first_zero (w ∷ words) = refl

module _ (log : Log) (s : Store) (ready : IsReady log s) where
  open ready use {fits, outside, clean}

  abbrev logged : Store
  logged = Commit.logged log s ready

  abbrev headed : Store
  headed = Commit.headed log s ready

  abbrev installed : Store
  installed = Commit.installed log s ready

  abbrev final : Store
  final = write_head (record log { lh_n = 0 }) installed

  headed-power : headed.power ≡ s.power - log.lh_n - 1
  headed-power = omega (arith, write_head-power log logged, Commit.logged-power log s ready)

  installed-power : installed.power ≡ s.power - log.lh_n - 1 - log.lh_n
  unfolding install_trans
  installed-power =
      omega (arith, copy_all-power (slot log) (home log) log.lh_n 0 headed, headed-power)

  commit-final : 0 < log.lh_n → (commit log s).1 ≡ final
  unfolding commit
  commit-final some_logged = rw (lt→ltb 0 log.lh_n some_logged)

  -- Cut before the header is written: the home blocks and the header are as they were.
  early-disk :
      s.power ≤ log.lh_n → (x : ℕ) → (x ≡ log.start) ⊎ IsOutside log x → final.disk x ≡ s.disk x
  unfolding install_trans
  early-disk early x at =
      ap (λ d. d x)
        (write_head-off (record log { lh_n = 0 }) installed (omega (arith, installed-power))
          ∙ (copy_all-off (slot log) (home log) log.lh_n 0 headed (omega (arith, headed-power))
              ∙ write_head-off log logged (omega (arith, Commit.logged-power log s ready))))
      ∙ (Commit.logged-miss log s ready x at).1

  home-ne-start : (i : ℕ) → i < log.lh_n → home log i ≢ log.start
  home-ne-start i lt = omega (arith, outside i lt)

  -- The header on the disk, once it is written and until it is erased.
  header-words :
      log.lh_n < s.power
      → installed.disk log.start
        ≡ write_words log.lh_n 0 log.lh_block (set (logged.cache log.start) 0 log.lh_n)
  header-words on =
      Commit.installed-miss log s ready log.start home-ne-start
      ∙ write_head-start log logged (omega (arith, Commit.logged-power log s ready))

  room-words : log.lh_n < length (logged.cache log.start)
  room-words = rw ((Commit.logged-miss log s ready log.start (inl refl)).0) fits

  header-count : log.lh_n < s.power → get_or (installed.disk log.start) 0 0 ≡ log.lh_n
  header-count on =
      ap (λ w. get_or w 0 0) (header-words on)
      ∙ (write_words-miss log.lh_n 0 log.lh_block _ 0 (omega arith)
          ∙ set_first (logged.cache log.start) log.lh_n (omega (arith, room-words)))

  header-homes :
      log.lh_n < s.power
      → (j : ℕ) → j < log.lh_n
      → get_or (installed.disk log.start) (j + 1) 0 ≡ home log j
  header-homes on j lt =
      ap (λ w. get_or w (j + 1) 0) (header-words on)
      ∙ write_words-hit log.lh_n 0 log.lh_block _ j (omega arith) (omega arith)
          (omega (arith, room-words, length-set (logged.cache log.start) 0 log.lh_n))

  slot-ne-start : (j : ℕ) → log.start ≢ slot log j
  slot-ne-start j = omega arith

  -- The slots hold the new contents from the header's write on.
  installed-slot :
      log.lh_n < s.power
      → (j : ℕ) → j < log.lh_n
      → installed.disk (slot log j) ≡ s.cache (home log j)
  installed-slot on j lt =
      Commit.installed-miss log s ready (slot log j) (λ i hi e. omega (arith, outside i hi))
      ∙ ((write_head-other log logged (slot log j) (slot-ne-start j)).0
          ∙ (Commit.logged-slot log s ready j lt).1 on)

  -- A block that was not logged is the same throughout.
  installed-other :
      (x : ℕ)
      → IsOutside log x
      → ((i : ℕ) → i < log.lh_n → home log i ≢ x)
      → installed.disk x ≡ s.cache x
  installed-other x out h =
      Commit.installed-miss log s ready x h
      ∙ ((write_head-other log logged x (IsOutside-start log x out)).0
          ∙ ((Commit.logged-miss log s ready x (inr out)).1 ∙ sym (clean x out h)))

  -- When the erasing write is reached, every home block holds the new contents.
  installed-home :
      log.lh_n + 1 + log.lh_n ≤ s.power
      → (j : ℕ) → j < log.lh_n
      → installed.disk (home log j) ≡ s.cache (home log j)
  unfolding install_trans
  installed-home late j lt =
      copy_all-disk (slot log) (home log) log.lh_n (Commit.to_homes log s ready) log.lh_n 0 headed j
        (omega arith) (omega arith) (omega arith) (omega (arith, headed-power))
      ∙ ((write_head-other log logged (slot log j) (slot-ne-start j)).1
          ∙ (Commit.logged-slot log s ready j lt).0)

  module _ (boot : Log) (here : boot.start ≡ log.start) (room : log.lh_n ≤ length boot.lh_block)
      (p : ℕ) (enough : log.lh_n < p) where
    abbrev after : Store → ℕ → Block
    after t = (recover_from_log boot (reboot p t)).1.disk

    early : s.power ≤ log.lh_n → (x : ℕ) → IsOutside log x → after final x ≡ s.disk x
    early h x out =
        Commit.recovered_erased log s ready boot here room p enough final
          (ap (λ w. get_or w 0 0) (early-disk h log.start (inl refl)) ∙ ready.erased) x out
        ∙ early-disk h x (inr out)

    redone :
        log.lh_n < s.power
        → s.power ≤ log.lh_n + 1 + log.lh_n
        → (x : ℕ) → IsOutside log x
        → after final x ≡ s.cache x
    redone on cut x out = elim (find_home log log.lh_n x) [
      | inl (j, lt, e) ↦
          rw (← e) (again.0 j lt ∙ (ap (λ d. d (slot log j)) stays ∙ installed-slot on j lt))
      | inr none_is ↦ again.1 x out none_is ∙ (ap (λ d. d x) stays ∙ installed-other x out none_is)
    ]
      where
        stays : final.disk ≡ installed.disk
        stays = write_head-off (record log { lh_n = 0 }) installed (omega (arith, installed-power))

        again :
            ((j : ℕ) → j < log.lh_n → after final (home log j) ≡ final.disk (slot log j))
            × ((y : ℕ)
                → IsOutside log y
                → ((i : ℕ) → i < log.lh_n → home log i ≢ y)
                → after final y ≡ final.disk y)
        again =
            Commit.recovered_committed log s ready boot here room p enough final
              (ap (λ d. get_or (d log.start) 0 0) stays ∙ header-count on)
              (λ j lt. ap (λ d. get_or (d log.start) (j + 1) 0) stays ∙ header-homes on j lt)

    kept : log.lh_n + 1 + log.lh_n < s.power → (x : ℕ) → IsOutside log x → after final x ≡ s.cache x
    kept late x out =
        Commit.recovered_erased log s ready boot here room p enough final clear x out
        ∙ ((write_head-other (record log { lh_n = 0 }) installed x (IsOutside-start log x out)).0
            ∙ new)
      where
        clear : get_or (final.disk log.start) 0 0 ≡ 0
        clear =
            ap (λ w. get_or w 0 0)
              (write_head-start (record log { lh_n = 0 }) installed
                (omega (arith, installed-power)))
            ∙ (write_words-miss 0 0 log.lh_block _ 0 (omega arith)
                ∙ set_first_zero (installed.cache log.start))

        new : installed.disk x ≡ s.cache x
        new = elim (find_home log log.lh_n x) [
          | inl (j, lt, e) ↦ rw (← e) (installed-home (omega arith) j lt)
          | inr none_is ↦ installed-other x out none_is
        ]

-- Let a commit start with blocks logged, their homes distinct and outside the log, the header on the
-- disk erased, and every block that is not logged clean. However many of its disk writes precede a
-- power cut, the recovery at the next start, with power for more than `lh.n` writes, leaves
-- the blocks outside the log either all as they were on the disk before the commit, or all as the
-- committed transaction has them; and it is the transaction exactly if the cut comes after the
-- `lh.n` block copies and the header's write.
pub commit_crash_atomic :
    (log : Log) (s : Store) (ready : IsReady log s)
    → 0 < log.lh_n
    → (boot : Log) → boot.start ≡ log.start
    → log.lh_n ≤ length boot.lh_block
    → (p : ℕ) → log.lh_n < p
    → let after = (recover_from_log boot (reboot p (commit log s).1)).1.disk in
      ((s.power ≤ log.lh_n) × ((x : ℕ) → IsOutside log x → after x ≡ s.disk x))
      ⊎ ((log.lh_n < s.power) × ((x : ℕ) → IsOutside log x → after x ≡ s.cache x))
commit_crash_atomic log s ready some_logged boot here room p enough =
    rw (commit-final log s ready some_logged) (elim (dec_lt log.lh_n s.power) [
      | no before ↦ inl (omega arith, early log s ready boot here room p enough (omega arith))
      | yes on ↦ elim (dec_lt (log.lh_n + 1 + log.lh_n) s.power) [
        | yes late ↦ inr (on, kept log s ready boot here room p enough late)
        | no cut ↦ inr (on, redone log s ready boot here room p enough on (omega arith))
      ]
    ])
