-- ===== src/Xv6/Syscall.antt =====
-- Asg02/xv6-2/syscall.c: the arguments of a system call, and the dispatch on its number. The user
-- memory of the caller is a function from addresses to bytes; numbers that may be negative are
-- 32-bit patterns.
pub mod Args
pub mod Sysproc
mod Tests
use cs5460spring.Base.{
  ℕ, zero, suc, ◌+◌, ◌-◌, ◌*◌, ◌%◌, ◌^◌, Option, none, some, ◌&&◌, ◌||◌, if◌then◌else◌, ltb, leb,
  ◌==◌,
}
use cs5460spring.Xv6.Str.{Memory}

-- What the code reads of the caller: `sz` and `tf->esp` of its `struct proc`, and its memory.
pub record Caller : Type 0 where
  pub sz : ℕ
  pub esp : ℕ
  pub memory : Memory

-- `*(int*)addr`.
abbrev pub load_word : Memory → ℕ → ℕ
load_word m a = m a + m (a + 1) * 2 ^ 8 + m (a + 2) * 2 ^ 16 + m (a + 3) * 2 ^ 24

-- `none` is -1.
unfoldable pub fetchint : Caller → ℕ → Option ℕ
fetchint p addr =
    if leb p.sz addr || ltb p.sz ((addr + 4) % 2 ^ 32) then none else some (load_word p.memory addr)

-- The loop of `fetchstr` with rounds left up to `ep`, `n` bytes behind `addr`: the length.
pub find_nul : ℕ → ℕ → ℕ → Memory → Option ℕ
find_nul zero addr n m = none
find_nul (suc k) addr n m =
    let rest = find_nul k addr (n + 1) m in if m (addr + n) == 0 then some n else rest

-- `fetchstr`: the length; `*pp` is the address itself.
pub fetchstr : Caller → ℕ → Option ℕ
unfolding find_nul
fetchstr p addr = if leb p.sz addr then none else find_nul (p.sz - addr) addr 0 p.memory

unfoldable pub argint : Caller → ℕ → Option ℕ
argint p n = fetchint p ((p.esp + 4 + 4 * n) % 2 ^ 32)

-- `argptr`, with the pattern of `size`.
pub argptr : Caller → ℕ → ℕ → Option ℕ
argptr p n size = elim (argint p n) [
  | none ↦ none
  | some i ↦
      if leb (2 ^ 31) size || leb p.sz i || ltb p.sz ((i + size) % 2 ^ 32) then none else some i
]

-- `argstr`: the string's address and its length.
unfoldable pub argstr : Caller → ℕ → Option (ℕ × ℕ)
unfolding fetchstr
argstr p n = elim (argint p n) [
  | none ↦ none
  | some addr ↦ elim (fetchstr p addr) [ none ↦ none | some len ↦ some (addr, len) ]
]

-- The handlers of the table `syscalls`.
pub data Handler : Type 0 where
  sys_fork sys_exit sys_wait sys_pipe sys_read sys_kill sys_exec sys_fstat : Handler
  sys_chdir sys_dup sys_getpid sys_sbrk sys_sleep sys_uptime sys_open sys_write : Handler
  sys_mknod sys_unlink sys_link sys_mkdir sys_close sys_freemem sys_exit2 sys_wait2 : Handler

-- The table, by the numbers of syscall.h. Entry 0 is null.
pub syscalls : ℕ → Option Handler
syscalls num =
    if num == 1
    then some sys_fork
    else if num == 2
    then some sys_exit
    else if num == 3
    then some sys_wait
    else if num == 4
    then some sys_pipe
    else if num == 5
    then some sys_read
    else if num == 6
    then some sys_kill
    else if num == 7
    then some sys_exec
    else if num == 8
    then some sys_fstat
    else if num == 9
    then some sys_chdir
    else if num == 10
    then some sys_dup
    else if num == 11
    then some sys_getpid
    else if num == 12
    then some sys_sbrk
    else if num == 13
    then some sys_sleep
    else if num == 14
    then some sys_uptime
    else if num == 15
    then some sys_open
    else if num == 16
    then some sys_write
    else if num == 17
    then some sys_mknod
    else if num == 18
    then some sys_unlink
    else if num == 19
    then some sys_link
    else if num == 20
    then some sys_mkdir
    else if num == 21
    then some sys_close
    else if num == 22
    then some sys_freemem
    else if num == 23
    then some sys_exit2
    else if num == 24
    then some sys_wait2
    else none

-- `syscall`, with what each handler does to the state and answers: the caller's `eax` and the state.
unfoldable pub syscall : {S : Type 0} → (Handler → S → ℕ × S) → ℕ → S → ℕ × S
unfolding syscalls
syscall run num s =
    if ltb 0 num && ltb num (2 ^ 31) && ltb num 25
    then elim (syscalls num) [ none ↦ (2 ^ 32 - 1, s) | some h ↦ run h s ]
    else (2 ^ 32 - 1, s)
