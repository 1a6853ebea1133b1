-- ===== src/Xv6/Proc/Exit.antt =====
-- Asg02/xv6-2/proc.c: `exit`, `exit2`, `wait`, `wait2`.
pub mod Laws
pub mod Orphans
use cs5460spring.Base.{
  ℕ, zero, suc, ◌+◌, Option, none, some, List, [], ◌∷◌, ◌++◌, Bool, false, not, ◌&&◌, ◌||◌,
  if◌then◌else◌, length, get_elem?, set, modify,
}
use cs5460spring.Xv6.Proc.Table.{
  ProcState, unused, sleeping, zombie, state_eq, Chan, at_proc, null, chan_of, points_to, Proc,
  Ptable, Call, kfree, freevm, fileclose, begin_op, iput, end_op, with_proc, wakeup1,
}

-- The loop that closes the open files.
abbrev pub close_files : List (Option ℕ) → List (Option ℕ)
close_files [] = []
close_files (f ∷ fs) = none ∷ close_files fs

abbrev pub close_calls : List (Option ℕ) → List Call
close_calls [] = []
close_calls (some f ∷ fs) = fileclose f ∷ close_calls fs
close_calls (none ∷ fs) = close_calls fs

-- One round of the loop that passes the children of `cur` on to init, which is woken for a zombie.
unfoldable pub adopt_one : ℕ → Option ℕ → List Proc → ℕ → Proc → List Proc
adopt_one cur init procs i p =
    if points_to p.parent cur
    then (let procs1 = modify procs i (λ q. record q { parent = init }) in
        if state_eq p.state zombie then wakeup1 (chan_of init) procs1 else procs1)
    else procs

-- The loop, with the rounds left and the index.
unfoldable pub adopt : ℕ → ℕ → ℕ → Option ℕ → List Proc → List Proc
unfolding adopt_one
adopt zero i cur init procs = procs
adopt (suc n) i cur init procs =
    adopt n (i + 1) cur init
      (elim (get_elem? procs i) [ none ↦ procs | some p ↦ adopt_one cur init procs i p ])

-- The critical section of `exit2`, up to the call of `sched`.
pub exit_section : ℕ → ℕ → Option ℕ → Ptable → Ptable
unfolding adopt
exit_section status cur parent t =
    let procs1 = wakeup1 (chan_of parent) t.procs in
    let procs2 = adopt (length t.procs) 0 cur t.initproc procs1 in
    record t { procs = modify procs2 cur (λ p. record p { state = zombie; exit_status = status }) }

-- The table once the caller's files and directory are closed.
abbrev pub close_own : ℕ → Ptable → Ptable
close_own cur t = with_proc t cur (λ p. record p { ofile = close_files p.ofile; cwd = none })

abbrev pub parent_at : Ptable → ℕ → Option ℕ
parent_at t i = elim (get_elem? t.procs i) [ none ↦ none | some p ↦ p.parent ]

-- `exit2` by the process `curproc` at index `cur`: the table at the call of `sched`, and the calls
-- made. `others` is what the others do to the table while the files and the directory are closed,
-- before `ptable.lock` is taken. `none` is the panic "init exiting".
pub exit2 : (Ptable → Ptable) → ℕ → ℕ → Proc → Ptable → Option (Ptable × List Call)
unfolding exit_section
exit2 others status cur curproc t =
    if points_to t.initproc cur
    then none
    else (let u = others (close_own cur t) in
        some (
          exit_section status cur (parent_at u cur) u,
          close_calls curproc.ofile ++ (begin_op ∷ iput curproc.cwd ∷ end_op ∷ []),
        ))

-- `exit` has the body of `exit2`, with status 0.
pub exit : (Ptable → Ptable) → ℕ → Proc → Ptable → Option (Ptable × List Call)
unfolding exit2
exit others cur curproc t = exit2 others 0 cur curproc t

-- What one scan of `wait` finds.
pub data Scan : Type 0 where
  reap : ℕ → Proc → Scan
  kids : Bool → Scan

-- The scanning loop from index `i` on, with `havekids`.
pub wait_scan : ℕ → List Proc → ℕ → Bool → Scan
wait_scan cur [] i havekids = kids havekids
wait_scan cur (p ∷ procs) i havekids =
    let next = wait_scan cur procs (i + 1) (points_to p.parent cur || havekids) in
    if points_to p.parent cur && state_eq p.state zombie then reap i p else next

-- What becomes of a reaped entry.
abbrev pub clear_proc : Proc → Proc
clear_proc p = record p {
  kstack = 0;
  pid = 0;
  parent = none;
  name = set p.name 0 0;
  killed = false;
  state = unused;
}

-- One turn of the loop of `wait2`: a child is reaped (its number and status), -1 is returned, or
-- the caller sleeps on its own address.
pub data Waited : Type 0 where
  reaped : ℕ → ℕ → Ptable → List Call → Waited
  failed : Waited
  asleep : Ptable → Waited

pub wait_round : ℕ → Bool → Ptable → Waited
unfolding wait_scan
wait_round cur killed t = elim (wait_scan cur t.procs 0 false) [
  | reap i p ↦
      reaped p.pid p.exit_status (with_proc t i clear_proc) (kfree p.kstack ∷ freevm p.pgdir ∷ [])
  | kids havekids ↦
      if not havekids || killed
      then failed
      else asleep (with_proc t cur (λ p. record p { chan = at_proc cur; state = sleeping }))
]

-- After the sleep `chan` is cleared.
abbrev pub wake_tidy : ℕ → Ptable → Ptable
wake_tidy cur t = with_proc t cur (λ p. record p { chan = null })

abbrev pub killed_at : Ptable → ℕ → Bool
killed_at t cur = elim (get_elem? t.procs cur) [ none ↦ false | some p ↦ p.killed ]

-- `wait2`. The list holds what the rest of the system does to the table during each sleep; when it
-- is used up the caller still sleeps.
pub wait2 : ℕ → List (Ptable → Ptable) → Ptable → Waited
unfolding wait_round
wait2 cur [] t = wait_round cur (killed_at t cur) t
wait2 cur (others ∷ later) t = elim (wait_round cur (killed_at t cur) t) [
  | reaped pid status t1 calls ↦ reaped pid status t1 calls
  | failed ↦ failed
  | asleep t1 ↦ wait2 cur later (wake_tidy cur (others t1))
]

-- `wait` differs in that it drops the status.
pub wait : ℕ → List (Ptable → Ptable) → Ptable → Waited
unfolding wait2
wait cur later t = elim (wait2 cur later t) [
  | reaped pid status t1 calls ↦ reaped pid 0 t1 calls
  | failed ↦ failed
  | asleep t1 ↦ asleep t1
]
