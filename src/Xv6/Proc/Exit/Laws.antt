-- ===== src/Xv6/Proc/Exit/Laws.antt =====
-- Asg02/xv6-2/proc.c: what a turn of `wait2` returns.
use mathlib.Core.Option
use cs5460spring.Base.{
  ℕ, zero, suc, ◌+◌, ◌≡◌, ◌≢◌, ◌⊎◌, inl, inr, ◌∙◌, ap, refl, Option, none, some, arith, List, [],
  ◌∷◌, Bool, true, false, ◌&&◌, ◌||◌, Bool-cases, get_elem?, set, get_elem?-modify_self,
  get_elem?-modify-map, get_elem?-modify_ne,
}
use cs5460spring.Xv6.Proc.Table.{
  unused, sleeping, zombie, state_eq, state_eq→eq, points_to, at_proc, Proc, Ptable, kfree, freevm,
}
use cs5460spring.Xv6.Proc.Exit.{
  Scan, reap, kids, wait_scan, clear_proc, Waited, reaped, failed, asleep, wait_round,
}

points_to→eq : (o : Option ℕ) (i : ℕ) → points_to o i ≡ true → o ≡ some i
points_to→eq o i h = ground arith

eq→points_to : (o : Option ℕ) (i : ℕ) → o ≡ some i → points_to o i ≡ true
eq→points_to o i h = ground arith

abbrev pub IsChild : ℕ → Proc → Type 0
IsChild cur p = p.parent ≡ some cur

-- No entry is a ZOMBIE child of `cur`.
abbrev pub NoZombie : ℕ → List Proc → Type 0
NoZombie cur procs =
    (j : ℕ) (p : Proc) → get_elem? procs j ≡ some p → IsChild cur p → p.state ≢ zombie

abbrev ScanSpec : ℕ → List Proc → ℕ → Bool → Scan → Type 0
ScanSpec cur procs i havekids (reap k p) =
    (m : ℕ) × (k ≡ i + m) × (get_elem? procs m ≡ some p) × IsChild cur p × (p.state ≡ zombie)
ScanSpec cur procs i havekids (kids found) =
    NoZombie cur procs
    × ((found ≡ true)
        → (havekids ≡ true) ⊎ ((j : ℕ) × (p : Proc) × (get_elem? procs j ≡ some p) × IsChild cur p))
    × ((found ≡ false)
        → (havekids ≡ false)
          × ((j : ℕ) (p : Proc) → get_elem? procs j ≡ some p → p.parent ≢ some cur))

scan_later :
    (cur i : ℕ) (p : Proc) (procs : List Proc) (havekids : Bool) (s : Scan)
    → (points_to p.parent cur && state_eq p.state zombie) ≡ false
    → ScanSpec cur procs (i + 1) (points_to p.parent cur || havekids) s
    → ScanSpec cur (p ∷ procs) i havekids s
scan_later cur i p procs havekids (reap k q) skip (m, e, at, child, dead) =
    (suc m, omega arith, at, child, dead)
scan_later cur i p procs havekids (kids found) skip (alive, some_kid, no_kid) =
    (alive', some_kid', no_kid')
  where
    alive' : NoZombie cur (p ∷ procs)
    alive' zero q at child = λ dead. ground (arith, eq→points_to p.parent cur)
    alive' (suc j) q at child = alive j q at child

    some_kid' :
        (found ≡ true)
        → (havekids ≡ true)
          ⊎ ((j : ℕ) × (q : Proc) × (get_elem? (p ∷ procs) j ≡ some q) × IsChild cur q)
    some_kid' h = elim (Bool-cases (points_to p.parent cur)) [
      | inl mine ↦ inr (0, p, refl, points_to→eq p.parent cur mine)
      | inr other ↦ elim (some_kid h) [
        | inl before ↦ inl (ground arith)
        | inr (j, q, at, child) ↦ inr (suc j, q, at, child)
      ]
    ]

    no_kid' :
        (found ≡ false)
        → (havekids ≡ false)
          × ((j : ℕ) (q : Proc) → get_elem? (p ∷ procs) j ≡ some q → q.parent ≢ some cur)
    no_kid' h = (ground (arith, no_kid h), none_is)
      where
        none_is : (j : ℕ) (q : Proc) → get_elem? (p ∷ procs) j ≡ some q → q.parent ≢ some cur
        none_is zero q at = λ child. ground (arith, no_kid h, eq→points_to p.parent cur)
        none_is (suc j) q at = (no_kid h).1 j q at

wait_scan-ScanSpec :
    (cur : ℕ) (procs : List Proc) (i : ℕ) (havekids : Bool)
    → ScanSpec cur procs i havekids (wait_scan cur procs i havekids)
unfolding wait_scan
wait_scan-ScanSpec cur [] i havekids =
    ((λ j p at. absurd (cc at)), (λ h. inl h), (λ h. (h, λ j p at. absurd (cc at))))
wait_scan-ScanSpec cur (p ∷ procs) i havekids =
    elim (Bool-cases (points_to p.parent cur && state_eq p.state zombie)) [
      | inl hit ↦ rw hit (
        0,
        omega arith,
        refl,
        ground (arith, points_to→eq p.parent cur),
        ground (arith, state_eq→eq p.state zombie),
      )
      | inr miss ↦ rw miss (
          scan_later cur i p procs havekids _ miss
            (wait_scan-ScanSpec cur procs (i + 1) (points_to p.parent cur || havekids)))
    ]

-- What each outcome of a turn of `wait2` means.
abbrev pub WaitSpec : ℕ → Bool → Ptable → Waited → Type 0
WaitSpec cur killed t (reaped pid status u calls) =
    (i : ℕ) × (p : Proc) × (get_elem? t.procs i ≡ some p)
    × IsChild cur p
    × (p.state ≡ zombie)
    × (pid ≡ p.pid)
    × (status ≡ p.exit_status)
    × (calls ≡ kfree p.kstack ∷ freevm p.pgdir ∷ [])
    × (get_elem? u.procs i
        ≡ some (record p {
          kstack = 0;
          pid = 0;
          parent = none;
          name = set p.name 0 0;
          killed = false;
          state = unused;
        }))
    × ((j : ℕ) → i ≢ j → get_elem? u.procs j ≡ get_elem? t.procs j)
    × (u.nextpid ≡ t.nextpid)
    × (u.initproc ≡ t.initproc)
WaitSpec cur killed t failed =
    NoZombie cur t.procs
    × (((j : ℕ) (p : Proc) → get_elem? t.procs j ≡ some p → p.parent ≢ some cur) ⊎ (killed ≡ true))
WaitSpec cur killed t (asleep u) =
    NoZombie cur t.procs
    × ((j : ℕ) × (p : Proc) × (get_elem? t.procs j ≡ some p) × IsChild cur p)
    × (killed ≡ false)
    × (get_elem? u.procs cur
        ≡ Option.map {A = Proc} (λ p. record p { chan = at_proc cur; state = sleeping })
            (get_elem? t.procs cur))
    × ((j : ℕ) → cur ≢ j → get_elem? u.procs j ≡ get_elem? t.procs j)
    × (u.nextpid ≡ t.nextpid)
    × (u.initproc ≡ t.initproc)

round_of :
    (cur : ℕ) (killed : Bool) (t : Ptable) (s : Scan)
    → wait_scan cur t.procs 0 false ≡ s
    → ScanSpec cur t.procs 0 false s
    → WaitSpec cur killed t (wait_round cur killed t)
unfolding wait_round
round_of cur killed t (reap i p) e (m, at_m, at, child, dead) =
    rw (e, wait_round)
      (
        i,
        p,
        here,
        child,
        dead,
        refl,
        refl,
        refl,
        get_elem?-modify_self t.procs i clear_proc here,
        (λ j ne. get_elem?-modify_ne t.procs i j clear_proc ne),
        refl,
        refl,
      )
  where
    here : get_elem? t.procs i ≡ some p
    here = ap (get_elem? t.procs) (omega (arith, at_m)) ∙ at
round_of cur true t (kids true) e (alive, some_kid, no_kid) = rw (e, wait_round) (alive, inr refl)
round_of cur false t (kids true) e (alive, some_kid, no_kid) =
    rw (e, wait_round)
      (
        alive,
        elim (some_kid refl) [ inl wrong ↦ absurd (cc wrong) | inr kid ↦ kid ],
        refl,
        get_elem?-modify-map t.procs cur _,
        (λ j ne. get_elem?-modify_ne t.procs cur j _ ne),
        refl,
        refl,
      )
round_of cur killed t (kids false) e (alive, some_kid, no_kid) =
    rw (e, wait_round) (alive, inl (no_kid refl).1)

-- A turn of `wait2` reaps a ZOMBIE child if there is one, with its number and its status: it frees
-- its stack and its page table, and its entry becomes UNUSED, without number, parent, name and
-- `killed` flag. It returns -1 exactly if no child is a zombie and there is no child or the caller is
-- killed. It sleeps exactly if no child is a zombie, there is one, and the caller is not killed; the
-- caller's entry is then SLEEPING on its own address. No other entry changes, nor do `nextpid` and
-- `initproc`.
pub wait_round_complete :
    (cur : ℕ) (killed : Bool) (t : Ptable) → WaitSpec cur killed t (wait_round cur killed t)
wait_round_complete cur killed t =
    round_of cur killed t (wait_scan cur t.procs 0 false) refl
      (wait_scan-ScanSpec cur t.procs 0 false)
