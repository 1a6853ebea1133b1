-- ===== src/Xv6/Proc/Table.antt =====
-- Asg02/xv6-2/proc.h: the process table. A `struct proc *` is an index of the table, or `none`.
-- A function that holds `ptable.lock` throughout is one step.
use cs5460spring.Base.{
  ℕ, ◌≡◌, List, Option, none, some, Bool, true, false, if◌then◌else◌, ◌==◌, ◌&&◌, map, modify,
  arith,
}

-- `enum procstate`.
pub data ProcState : Type 0 where
  unused embryo sleeping runnable running zombie : ProcState

-- The enumeration's values, by which states are compared.
abbrev pub state_code : ProcState → ℕ
state_code unused = 0
state_code embryo = 1
state_code sleeping = 2
state_code runnable = 3
state_code running = 4
state_code zombie = 5

abbrev pub state_eq : ProcState → ProcState → Bool
state_eq a b = state_code a == state_code b

-- A sleep channel: null, the address of a process, or another address.
pub data Chan : Type 0 where
  null : Chan
  at_proc : ℕ → Chan
  at_addr : ℕ → Chan

abbrev pub chan_eq : Chan → Chan → Bool
chan_eq null null = true
chan_eq (at_proc i) (at_proc j) = i == j
chan_eq (at_addr a) (at_addr b) = a == b
chan_eq _ _ = false

-- A pointer to a process, as a channel.
abbrev pub chan_of : Option ℕ → Chan
chan_of none = null
chan_of (some i) = at_proc i

abbrev pub points_to : Option ℕ → ℕ → Bool
points_to none i = false
points_to (some j) i = j == i

-- `struct trapframe`: the register that carries a system call's result, and the others.
pub record Trapframe : Type 0 where
  pub eax : ℕ
  pub others : List ℕ

pub record Context : Type 0 where
  pub edi : ℕ
  pub esi : ℕ
  pub ebx : ℕ
  pub ebp : ℕ
  pub eip : ℕ

-- `struct proc`. `trapret` is the word that `allocproc` leaves between the trap frame and the
-- context on the kernel stack. An `int` that may be negative is its 32-bit pattern.
pub record Proc : Type 0 where
  pub sz : ℕ
  pub pgdir : ℕ
  pub kstack : ℕ
  pub state : ProcState
  pub pid : ℕ
  pub parent : Option ℕ
  pub tf : Trapframe
  pub trapret : ℕ
  pub context : Context
  pub chan : Chan
  pub killed : Bool
  pub ofile : List (Option ℕ)
  pub cwd : Option ℕ
  pub name : List ℕ
  pub exit_status : ℕ

-- `ptable`, `nextpid` and `initproc`.
pub record Ptable : Type 0 where
  pub procs : List Proc
  pub nextpid : ℕ
  pub initproc : Option ℕ

-- The calls that proc.c makes of other files, in order, with their arguments.
pub data Call : Type 0 where
  kfree : ℕ → Call
  freevm : ℕ → Call
  filedup : ℕ → Call
  idup : Option ℕ → Call
  fileclose : ℕ → Call
  begin_op : Call
  iput : Option ℕ → Call
  end_op : Call

abbrev pub with_proc : Ptable → ℕ → (Proc → Proc) → Ptable
with_proc t i f = record t { procs = modify t.procs i f }

-- `wakeup1`: the test and the change at one entry, and the loop.
abbrev pub wakeup_one : Chan → Proc → Proc
wakeup_one chan p =
    if state_eq p.state sleeping && chan_eq p.chan chan then record p { state = runnable } else p

unfoldable pub wakeup1 : Chan → List Proc → List Proc
wakeup1 chan procs = map (wakeup_one chan) procs

pub state_eq→eq : (a b : ProcState) → state_eq a b ≡ true → a ≡ b
state_eq→eq a b h = ground arith
