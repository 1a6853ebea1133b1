-- ===== src/Xv6/Syscall/Args.antt =====
-- Asg02/xv6-2/syscall.c: arguments lie in the caller's memory.
use cs5460spring.Base.{
  ℕ, zero, suc, ◌+◌, ◌-◌, ◌*◌, ◌%◌, ◌^◌, ◌≤◌, ◌<◌, ◌≡◌, ◌≢◌, ◌↔◌, inl, inr, Option, none, some,
  arith, false, leb, ◌==◌, ==_iff, Bool-cases, ℕ_discrete,
}
use cs5460spring.Xv6.Syscall.{Caller, load_word, fetchint, find_nul, fetchstr, argint, argptr}

-- A block of user memory, which does not wrap round.
abbrev pub IsInside : Caller → ℕ → ℕ → Type 0
IsInside p addr size = (addr < p.sz) × (addr + size ≤ p.sz)

-- For a process below KERNBASE, `argptr` answers a pointer exactly if the argument's own word lies
-- in the process's memory, holds that pointer, and the whole block of `size` bytes lies in it,
-- `size` not being negative.
pub argptr_iff :
    (p : Caller) (n size i : ℕ)
    → p.sz ≤ 2 ^ 31
    → size < 2 ^ 32
    → (argptr p n size ≡ some i) ↔ (
        IsInside p ((p.esp + 4 + 4 * n) % 2 ^ 32) 4
        × (load_word p.memory ((p.esp + 4 + 4 * n) % 2 ^ 32) ≡ i)
        × (size < 2 ^ 31)
        × IsInside p i size)
unfolding argptr argint fetchint
argptr_iff p n size i small fits = ground arith

-- A string of `n` bytes before its NUL, within the caller's memory.
pub record IsText (p : Caller) (addr n : ℕ) : Type 0 where
  pub inside : addr + n < p.sz
  pub ended : p.memory (addr + n) ≡ 0
  pub unbroken : (j : ℕ) → j < n → p.memory (addr + j) ≢ 0

-- The answer of `fetchstr`: a length, or none.
abbrev pub TextSpec : Caller → ℕ → Option ℕ → Type 0
TextSpec p addr none = (j : ℕ) → addr + j < p.sz → p.memory (addr + j) ≢ 0
TextSpec p addr (some n) = IsText p addr n

-- The loop from `n` on, no byte before it being 0.
find_nul_lem :
    (k addr n : ℕ) (p : Caller)
    → addr + n + k ≡ p.sz
    → ((j : ℕ) → j < n → p.memory (addr + j) ≢ 0)
    → TextSpec p addr (find_nul k addr n p.memory)
unfolding find_nul
find_nul_lem zero addr n p end before = λ j less. before j (omega arith)
find_nul_lem (suc k) addr n p end before = elim (Bool-cases (p.memory (addr + n) == 0)) [
  | inl nul ↦
      rw nul (record { inside = omega arith; ended = (==_iff _ 0).0 nul; unbroken = before })
  | inr more ↦ rw more (find_nul_lem k addr (n + 1) p (omega arith) (further more))
]
  where
    further : (p.memory (addr + n) == 0) ≡ false → (j : ℕ) → j < n + 1 → p.memory (addr + j) ≢ 0
    further more j less = elim (ℕ_discrete j n) [
      | yes e ↦ ground (arith, more, e)
      | no ne ↦ before j (omega arith)
    ]

-- `fetchstr` answers the length of the string at the address, which ends within the process's
-- memory; it fails exactly if no byte from the address on is a NUL in that memory.
pub fetchstr_lem : (p : Caller) (addr : ℕ) → TextSpec p addr (fetchstr p addr)
unfolding fetchstr
fetchstr_lem p addr = elim (Bool-cases (leb p.sz addr)) [
  | inl past ↦ rw past (λ j less. absurd (ground (arith, past, less)))
  | inr within ↦ rw within (
      find_nul_lem (p.sz - addr) addr 0 p (ground (arith, within))
        (λ j less. absurd (omega (arith, less))))
]
