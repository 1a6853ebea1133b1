-- ===== src/Xv6/Spinlock.antt =====
-- Asg02/xv6-2/spinlock.c: interrupt nesting and spin locks.
pub mod Nesting
mod Tests
pub mod Exclusion
use cs5460spring.Base.{
  ℕ, ◌+◌, ◌-◌, ◌≡◌, Option, none, some, Bool, true, false, ◌&&◌, if◌then◌else◌, ◌==◌,
}

-- The fields of `struct cpu` that `pushcli` uses, and the interrupt flag of `eflags`.
pub record Cpu : Type 0 where
  pub ncli : ℕ
  pub intena : Bool
  pub interrupts : Bool

pub pushcli : Cpu → Cpu
pushcli c = record {
  ncli = c.ncli + 1;
  intena = if c.ncli == 0 then c.interrupts else c.intena;
  interrupts = false;
}

-- `none` is a panic.
pub popcli : Cpu → Option Cpu
popcli c =
    if c.interrupts
    then none
    else if c.ncli == 0
    then none
    else some (record c { ncli = c.ncli - 1; interrupts = c.ncli - 1 == 0 && c.intena })

-- `struct spinlock`: the flag that `xchg` swaps, and the index of the holding CPU.
pub record Spinlock : Type 0 where
  pub locked : Bool
  pub cpu : Option ℕ

pub initlock : Spinlock
initlock = record { locked = false; cpu = none }

abbrev pub is_cpu : Option ℕ → ℕ → Bool
is_cpu none i = false
is_cpu (some j) i = j == i

-- The test of `holding`, on CPU `i`.
abbrev pub holding : Spinlock → ℕ → Bool
holding lk i = lk.locked && is_cpu lk.cpu i

-- Where a CPU stands in `acquire` and `release`: before `acquire`; in its `holding`, past the read of
-- `locked`; in its `while`; past the `xchg`, before `lk->cpu` is set; between the two calls; in the
-- `holding` of `release`, past the read of `locked`; past that test; in `release`, after `lk->cpu` is
-- cleared; and in the panic of either.
pub data Pc : Type 0 where
  outside comparing spinning won inside releasing clearing leaving : Pc
  panic_acquire panic_release : Pc

-- CPU `i` reads or writes one field at a time, and the `xchg` does both at once. `holding` reads
-- `locked`, and `cpu` only if that is set.
pub data Move (i : ℕ) (lk : Spinlock) : Pc → Spinlock → Pc → Type 0 where
  unheld : lk.locked ≡ false → Move i lk outside lk spinning
  compares : lk.locked ≡ true → Move i lk outside lk comparing
  other : is_cpu lk.cpu i ≡ false → Move i lk comparing lk spinning
  held : is_cpu lk.cpu i ≡ true → Move i lk comparing lk panic_acquire
  spins : lk.locked ≡ true → Move i lk spinning lk spinning
  wins : lk.locked ≡ false → Move i lk spinning (record lk { locked = true }) won
  signs : Move i lk won (record lk { cpu = some i }) inside
  unlocked : lk.locked ≡ false → Move i lk inside lk panic_release
  releases : lk.locked ≡ true → Move i lk inside lk releasing
  not_held : is_cpu lk.cpu i ≡ false → Move i lk releasing lk panic_release
  passes : is_cpu lk.cpu i ≡ true → Move i lk releasing lk clearing
  clears : Move i lk clearing (record lk { cpu = none }) leaving
  unlocks : Move i lk leaving (record lk { locked = false }) outside

-- The CPUs run in any interleaving.
pub record System : Type 0 where
  pub lock : Spinlock
  pub pc : ℕ → Pc

abbrev pub set_pc : (ℕ → Pc) → ℕ → Pc → ℕ → Pc
set_pc pc i p j = if i == j then p else pc j

pub data Step (s : System) : System → Type 0 where
  step :
      (i : ℕ) {lk : Spinlock} {p : Pc}
      → Move i s.lock (s.pc i) lk p
      → Step s (record { lock = lk; pc = set_pc s.pc i p })

-- After `initlock`, with every CPU outside.
abbrev pub start : System
start = record { lock = record { locked = false; cpu = none }; pc = λ i. outside }

pub data Reach : System → Type 0 where
  here : Reach start
  next : {s t : System} → Reach s → Step s t → Reach t
