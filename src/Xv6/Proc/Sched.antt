-- ===== src/Xv6/Proc/Sched.antt =====
-- Asg02/xv6-2/proc.c: `scheduler`, `sched`, `yield`, `sleep`, `wakeup`, `kill`, `growproc`.
pub mod Laws
pub mod Zero
pub mod Rounds
use cs5460spring.Base.{
  ℕ, zero, suc, ◌+◌, ◌%◌, ◌^◌, ltb, Option, none, some, List, [], ◌∷◌, ◌++◌, Bool, true, false, not,
  if◌then◌else◌, ◌==◌, get_elem?,
}
use cs5460spring.Xv6.Proc.Table.{
  ProcState, unused, sleeping, runnable, running, state_eq, Chan, null, Proc, Ptable, with_proc,
  wakeup1,
}

-- `wakeup`: `wakeup1` under the lock.
pub wakeup : Chan → Ptable → Ptable
wakeup chan t = record t { procs = wakeup1 chan t.procs }

abbrev pub kill_one : Proc → Proc
kill_one p =
    if state_eq p.state sleeping
    then record p { killed = true; state = runnable }
    else record p { killed = true }

-- The loop of `kill` from one entry on; the flag is false for -1.
pub kill_from : ℕ → List Proc → List Proc × Bool
kill_from pid [] = ([], false)
kill_from pid (p ∷ procs) =
    let (rest, found) = kill_from pid procs in
    if p.pid == pid then (kill_one p ∷ procs, true) else (p ∷ rest, found)

pub kill : ℕ → Ptable → Ptable × Bool
unfolding kill_from
kill pid t = let (procs, found) = kill_from pid t.procs in (record t { procs = procs }, found)

-- One round of `scheduler`'s loop over the table at index `i`, and which process was run. `run` is
-- what the process does until it calls `sched`.
pub dispatch : (ℕ → Ptable → Ptable) → ℕ → Ptable → Ptable × List ℕ
dispatch run i t = elim (get_elem? t.procs i) [
  | none ↦ (t, [])
  | some p ↦
      if state_eq p.state runnable
      then (run i (with_proc t i (λ q. record q { state = running })), i ∷ [])
      else (t, [])
]

-- One turn of the outer loop, with the rounds left and the index.
pub scheduler_pass : (ℕ → Ptable → Ptable) → ℕ → ℕ → Ptable → Ptable × List ℕ
unfolding dispatch
scheduler_pass run zero i t = (t, [])
scheduler_pass run (suc n) i t =
    let (t1, ran) = dispatch run i t in
    let (t2, later) = scheduler_pass run n (i + 1) t1 in (t2, ran ++ later)

-- What `sched` checks before it switches, in order; the flags are `holding(&ptable.lock)`, the
-- depth `ncli`, the process's state and the interrupt flag.
pub data SchedCheck : Type 0 where
  switches panic_lock panic_locks panic_running panic_interruptible : SchedCheck

pub sched : Bool → ℕ → ProcState → Bool → SchedCheck
sched held ncli state interrupts =
    if not held
    then panic_lock
    else if not (ncli == 1)
    then panic_locks
    else if state_eq state running
    then panic_running
    else if interrupts
    then panic_interruptible
    else switches

-- `yield`, up to its call of `sched`.
pub yield : ℕ → Ptable → Ptable
yield cur t = with_proc t cur (λ p. record p { state = runnable })

-- A lock that `sleep` is given: `ptable.lock`, or another one by its address.
pub data LockRef : Type 0 where
  table_lock : LockRef
  other_lock : ℕ → LockRef

pub data LockCall : Type 0 where
  acquire release : LockRef → LockCall

-- `sleep`, before its call of `sched` and after it: the table, and the calls on locks.
pub sleep_enter : Chan → LockRef → ℕ → Ptable → Ptable × List LockCall
sleep_enter chan lk cur t = (
  with_proc t cur (λ p. record p { chan = chan; state = sleeping }),
  elim lk [ table_lock ↦ [] | other_lock a ↦ acquire table_lock ∷ release (other_lock a) ∷ [] ],
)

pub sleep_leave : LockRef → ℕ → Ptable → Ptable × List LockCall
sleep_leave lk cur t = (
  with_proc t cur (λ p. record p { chan = null }),
  elim lk [ table_lock ↦ [] | other_lock a ↦ release table_lock ∷ acquire (other_lock a) ∷ [] ],
)

-- `growproc` by `n`, an `int`'s 32-bit pattern, with `allocuvm` and `deallocuvm` on a page directory,
-- the old size and the new; their 0 makes it return -1, which is `none`.
abbrev pub set_size : ℕ → Ptable → ℕ → Option Ptable
set_size cur t sz = if sz == 0 then none else some (with_proc t cur (λ p. record p { sz = sz }))

abbrev pub growproc : (ℕ → ℕ → ℕ → ℕ) → (ℕ → ℕ → ℕ → ℕ) → ℕ → ℕ → Proc → Ptable → Option Ptable
growproc allocuvm deallocuvm n cur curproc t =
    if n == 0
    then some t
    else if ltb n (2 ^ 31)
    then set_size cur t (allocuvm curproc.pgdir curproc.sz ((curproc.sz + n) % 2 ^ 32))
    else set_size cur t (deallocuvm curproc.pgdir curproc.sz ((curproc.sz + n) % 2 ^ 32))
