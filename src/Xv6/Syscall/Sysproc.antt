-- ===== src/Xv6/Syscall/Sysproc.antt =====
-- Asg02/xv6-2/sysproc.c: the system calls on processes. A result of -1 is its 32-bit pattern.
use cs5460spring.Base.{
  ℕ, ◌-◌, ◌+◌, ◌%◌, ◌^◌, List, [], ◌∷◌, Option, none, some, Bool, if◌then◌else◌, ltb,
}
use cs5460spring.Xv6.Syscall.{Caller, argint, argptr}
use cs5460spring.Xv6.Kalloc.{Kmem, freemem}
use cs5460spring.Xv6.Proc.Table.{Proc, Ptable, Call}
use cs5460spring.Xv6.Proc.Create.{fork}
use cs5460spring.Xv6.Proc.Exit.{Waited, exit, exit2, wait, wait2}
use cs5460spring.Xv6.Proc.Sched.{kill, growproc}

abbrev pub minus_one : ℕ
minus_one = 2 ^ 32 - 1

-- `fork` with the answers of `kalloc` and `copyuvm`.
abbrev pub sys_fork : (Ptable → Ptable) → ℕ → ℕ → ℕ → Proc → ℕ → ℕ → Ptable → ℕ × Ptable
sys_fork others forkret trapret cur curproc page pgdir t =
    let r = fork others forkret trapret cur curproc page pgdir t in
    (elim (r.result) [ none ↦ minus_one | some pid ↦ pid ], r.table)

abbrev pub sys_exit : (Ptable → Ptable) → ℕ → Proc → Ptable → Option (Ptable × List Call)
sys_exit others cur curproc t = exit others cur curproc t

abbrev pub sys_wait : ℕ → List (Ptable → Ptable) → Ptable → Waited
sys_wait cur later t = wait cur later t

abbrev pub sys_kill : Caller → Ptable → ℕ × Ptable
sys_kill p t = elim (argint p 0) [
  | none ↦ (minus_one, t)
  | some pid ↦ let (t', found) = kill pid t in ((if found then 0 else minus_one), t')
]

abbrev pub sys_getpid : Proc → ℕ
sys_getpid curproc = curproc.pid

abbrev pub sys_freemem : ℕ → Kmem → Option ℕ
sys_freemem rounds k = freemem rounds k

-- With `allocuvm` and `deallocuvm` as in `growproc`.
abbrev pub sys_sbrk : (ℕ → ℕ → ℕ → ℕ) → (ℕ → ℕ → ℕ → ℕ) → Caller → ℕ → Proc → Ptable → ℕ × Ptable
sys_sbrk allocuvm deallocuvm p cur curproc t = elim (argint p 0) [
  | none ↦ (minus_one, t)
  | some n ↦ elim (growproc allocuvm deallocuvm n cur curproc t) [
    | none ↦ (minus_one, t)
    | some t' ↦ (curproc.sz, t')
  ]
]

-- How `sys_sleep` stands: it returns 0 or -1, or it still sleeps on `ticks`.
pub data Slept : Type 0 where
  slept interrupted drowsing : Slept

-- Its loop: `ticks` and `killed` as each test finds them. The comparison is of `uint`.
unfoldable pub sleep_loop : ℕ → ℕ → List (ℕ × Bool) → Slept
sleep_loop n ticks0 [] = drowsing
sleep_loop n ticks0 ((ticks, killed) ∷ later) =
    let rest = sleep_loop n ticks0 later in
    if ltb ((ticks + 2 ^ 32 - ticks0) % 2 ^ 32) n
    then (if killed then interrupted else rest)
    else slept

abbrev pub sys_sleep : Caller → ℕ → List (ℕ × Bool) → Slept
sys_sleep p ticks0 tests = elim (argint p 0) [
  | none ↦ interrupted
  | some n ↦ sleep_loop n ticks0 tests
]

abbrev pub sys_uptime : ℕ → ℕ
sys_uptime ticks = ticks

-- `none` is -1; else what `exit2` does.
abbrev pub sys_exit2 :
    (Ptable → Ptable) → Caller → ℕ → Proc → Ptable → Option (Option (Ptable × List Call))
sys_exit2 others p cur curproc t = elim (argint p 0) [
  | none ↦ none
  | some exit_status ↦ some (exit2 others exit_status cur curproc t)
]

-- `none` is -1; else where the status goes, and what `wait2` does.
abbrev pub sys_wait2 : Caller → ℕ → List (Ptable → Ptable) → Ptable → Option (ℕ × Waited)
sys_wait2 p cur later t = elim (argptr p 0 4) [
  | none ↦ none
  | some status ↦ some (status, wait2 cur later t)
]
