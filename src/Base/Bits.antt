-- ===== src/Base/Bits.antt =====
-- `bit_or` of numbers with no common bit is their sum: a C expression `a | b << 8` as arithmetic.
use Prim.Native.Nat.{
  ℕ, zero, suc, ◌+◌, ◌*◌, ◌/◌, ◌%◌, ◌^◌, ◌≤◌, ◌<◌, max, bit_or, digits, bit_or-bitwise,
}
use mathlib.Core.Path.{◌≡◌, refl, ap}
use native.Mathlib.Nat.{two-pow-succ, pow-suc, pow-zero, add-zero, add-suc}
use native.Mathlib.Omega.{arith}

-- The digits of the two numbers joined, `fuel` of them at most.
abbrev joined : ℕ → ℕ → ℕ → ℕ
joined fuel x y = digits (λ d. d) max fuel x y

-- Fuel beyond the first number changes nothing.
joined_enough : (x y fuel more : ℕ) → x ≤ fuel → x ≤ more → joined fuel x y ≡ joined more x y
joined_enough zero y zero zero low high = refl
joined_enough zero y zero (suc more) low high = refl
joined_enough zero y (suc fuel) zero low high = refl
joined_enough zero y (suc fuel) (suc more) low high = refl
joined_enough (suc x) y (suc fuel) (suc more) low high =
    omega (arith, joined_enough (suc x / 2) (y / 2) fuel more (omega arith) (omega arith))
joined_enough (suc x) y zero more low high = absurd (omega (arith, low))
joined_enough (suc x) y (suc fuel) zero low high = absurd (omega (arith, high))

none-bit_or : (y : ℕ) → bit_or 0 y ≡ y
none-bit_or y = bit_or-bitwise 0 y

pub bit_or-halves : (x y : ℕ) → bit_or x y ≡ max (x % 2) (y % 2) + 2 * bit_or (x / 2) (y / 2)
bit_or-halves (suc x) y =
    let enough = joined_enough (suc x / 2) (y / 2) x (suc x / 2) (omega arith) (omega arith) in
    let inner = bit_or-bitwise (suc x / 2) (y / 2) in
    omega (arith, enough, inner, bit_or-bitwise (suc x) y)
bit_or-halves zero y = omega (arith, none-bit_or (y / 2), none-bit_or y)

-- The low `k` bits of one number and a multiple of `2 ^ k`.
pub bit_or-shifted : (k a b : ℕ) → a < 2 ^ k → bit_or a (b * 2 ^ k) ≡ a + b * 2 ^ k
bit_or-shifted zero a b h = let e : a ≡ 0 = omega arith in rw (e, none-bit_or) (omega arith)
bit_or-shifted (suc k) a b h = omega (
  arith,
  two-pow-succ k,
  bit_or-halves a (b * 2 ^ suc k),
  halves,
  bit_or-shifted k (a / 2) b (omega (arith, two-pow-succ k)),
  ap (λ (t : ℕ). bit_or (a / 2) t) halves,
  double,
)
  where
    double : b * 2 ^ suc k ≡ b * 2 ^ k * 2
    double = omega (arith, ap (λ (t : ℕ). b * t) (two-pow-succ k))

    halves : b * 2 ^ suc k / 2 ≡ b * 2 ^ k
    halves = omega (arith, double)

pub pow-add : (b m n : ℕ) → b ^ (m + n) ≡ b ^ m * b ^ n
pow-add b m zero = rw (add-zero, pow-zero) (omega arith)
pow-add b m (suc n) = rw (add-suc, pow-suc, pow-suc, pow-add b m n) (omega arith)

pub pow-pos : (k : ℕ) → 0 < 2 ^ k
pow-pos zero = omega arith
pow-pos (suc k) = omega (arith, two-pow-succ k, pow-pos k)

bit_or-none_fuel : (fuel x : ℕ) → x ≤ fuel → bit_or x 0 ≡ x
bit_or-none_fuel fuel zero le = none-bit_or 0
bit_or-none_fuel zero (suc x) le = absurd (omega (arith, le))
bit_or-none_fuel (suc fuel) (suc x) le =
    omega (arith, bit_or-halves (suc x) 0, bit_or-none_fuel fuel (suc x / 2) (omega arith))

pub bit_or-none : (x : ℕ) → bit_or x 0 ≡ x
bit_or-none x = bit_or-none_fuel x x (omega arith)

-- The same with the multiple first.
pub bit_or-low : (k a b : ℕ) → a < 2 ^ k → bit_or (b * 2 ^ k) a ≡ b * 2 ^ k + a
bit_or-low zero a b h = let e : a ≡ 0 = omega arith in rw (e, bit_or-none) (omega arith)
bit_or-low (suc k) a b h = omega (
  arith,
  two-pow-succ k,
  bit_or-halves (b * 2 ^ suc k) a,
  halves,
  bit_or-low k (a / 2) b (omega (arith, two-pow-succ k)),
  ap (λ (t : ℕ). bit_or t (a / 2)) halves,
  double,
)
  where
    double : b * 2 ^ suc k ≡ b * 2 ^ k * 2
    double = omega (arith, ap (λ (t : ℕ). b * t) (two-pow-succ k))

    halves : b * 2 ^ suc k / 2 ≡ b * 2 ^ k
    halves = omega (arith, double)

-- Setting the lowest bit.
pub bit_or-one : (x : ℕ) → bit_or x 1 ≡ x / 2 * 2 + 1
bit_or-one x = omega (arith, bit_or-halves x 1, bit_or-none (x / 2))
