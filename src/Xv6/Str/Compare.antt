-- ===== src/Xv6/Str/Compare.antt =====
-- Asg02/xv6-2/string.c: `strncmp` decides equality.
use cs5460spring.Base.{
  ℕ, zero, suc, ◌+◌, ◌<◌, ◌≡◌, ◌↔◌, ◌⊎◌, inl, inr, refl, arith, not, ◌&&◌, ◌==◌, Bool-cases,
}
use cs5460spring.Xv6.Str.{Memory, sub32, strncmp}

-- The strings at `p` and `q` agree up to `n` bytes or to a common NUL.
abbrev pub Agree : ℕ → ℕ → ℕ → Memory → Type 0
Agree p q zero m = Unit
Agree p q (suc n) m = (m p ≡ m q) × ((m p ≡ 0) ⊎ Agree (p + 1) (q + 1) n m)

sub32-zero : (a b : ℕ) → a < 256 → b < 256 → sub32 a b ≡ 0 → a ≡ b
sub32-zero a b ha hb h = omega arith

-- In a memory of bytes `strncmp` returns 0 exactly if the strings agree up to `n` bytes or to a
-- common NUL.
pub strncmp_zero_iff :
    (p q n : ℕ) (m : Memory) → ((a : ℕ) → m a < 256) → (strncmp p q n m ≡ 0) ↔ Agree p q n m
unfolding strncmp
strncmp_zero_iff p q zero m bytes = ((λ e. tt), (λ u. refl))
strncmp_zero_iff p q (suc n) m bytes = elim (Bool-cases (not (m p == 0) && (m p == m q))) [
  | inl go ↦ rw go (
    (λ e. (ground arith, inr ((strncmp_zero_iff (p + 1) (q + 1) n m bytes).0 e))),
    (λ (same, how). elim how [
      | inl nul ↦ absurd (ground arith)
      | inr rest ↦ (strncmp_zero_iff (p + 1) (q + 1) n m bytes).1 rest
    ]),
  )
  | inr stop ↦ rw stop (
    (λ e.
        let same : m p ≡ m q = sub32-zero (m p) (m q) (bytes p) (bytes q) e in
        (same, inl (ground arith))),
    (λ (same, how). omega (arith, bytes p)),
  )
]
