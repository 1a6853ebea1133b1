-- ===== src/Xv6/Print/Digits.antt =====
-- Asg02/xv6-2/printf.c, ulib.c: `atoi` reads what `printint` prints.
use mathlib.Core.List.{reverse-append, append_assoc, append-nil}
use cs5460spring.Base.{
  ℕ, zero, suc, ◌+◌, ◌*◌, ◌/◌, ◌%◌, ◌^◌, ◌<◌, ◌≡◌, ◌≢◌, ◌∙◌, sym, ap, refl, arith, List, [], ◌∷◌,
  ◌++◌, reverse, Bool, true, ◌&&◌, if◌then◌else◌, leb, Bool-cases, inl, inr, ==_iff, ==_of_ne,
  ℕ_discrete,
}
use native.Mathlib.Nat.{two-pow-succ}
use cs5460spring.Xv6.Print.{digit_of, number_chars, printint}
use cs5460spring.Xv6.Ulib.{is_digit, atoi_from, atoi}

-- One digit more.
atoi_from-digit :
    (ten d n : ℕ) (ys : List ℕ)
    → d < 10
    → n * 10 + d < 2 ^ 32
    → atoi_from n (digit_of ten d ∷ ys) ≡ atoi_from (n * 10 + d) ys
unfolding atoi_from
atoi_from-digit ten d n ys small fits =
    rw (letter) (rw (digit) (ap (λ (v : ℕ). atoi_from v ys) (omega arith)))
  where
    letter : digit_of ten d ≡ 48 + d
    letter = ground (arith, small)

    digit : is_digit (48 + d) ≡ true
    digit = ground (arith, small)

-- The digits of a number, read with what follows them.
atoi_from-number_chars :
    (k ten x : ℕ) (ys : List ℕ)
    → 0 < k
    → x < 2 ^ k
    → x < 2 ^ 32
    → atoi_from 0 (reverse (number_chars k ten 10 x) ++ ys) ≡ atoi_from x ys
unfolding number_chars
atoi_from-number_chars zero ten x ys pos fits small = absurd (omega (arith, pos))
atoi_from-number_chars (suc k) ten x ys pos fits small = elim (ℕ_discrete (x / 10) 0) [
  | yes e ↦ rw ((==_iff (x / 10) 0).1 e) (
      atoi_from-digit ten (x % 10) 0 ys (omega arith) (omega arith)
      ∙ ap (λ (v : ℕ). atoi_from v ys) (omega (arith, e)))
  | no ne ↦ rw (==_of_ne (x / 10) 0 ne) (
      ap (λ (l : List ℕ). atoi_from 0 l) (turn (number_chars k ten 10 (x / 10)))
      ∙ atoi_from-number_chars k ten (x / 10) (digit_of ten (x % 10) ∷ ys) (some_left k fits ne)
          (omega (arith, two-pow-succ k, fits)) (omega arith)
      ∙ atoi_from-digit ten (x % 10) (x / 10) ys (omega arith) (omega arith)
      ∙ ap (λ (v : ℕ). atoi_from v ys) (omega arith))
]
  where
    turn :
        (rest : List ℕ)
        → reverse (digit_of ten (x % 10) ∷ rest) ++ ys
          ≡ reverse rest ++ (digit_of ten (x % 10) ∷ ys)
    turn rest =
        ap (λ (l : List ℕ). l ++ ys) (reverse-append (digit_of ten (x % 10) ∷ []) rest)
        ∙ append_assoc (reverse rest) (digit_of ten (x % 10) ∷ []) ys

    some_left : (k : ℕ) → x < 2 ^ suc k → x / 10 ≢ 0 → 0 < k
    some_left zero h ne = absurd (ne (omega (arith, h)))
    some_left (suc k) h ne = omega arith

-- Of a 32-bit word that `printint` prints in base 10, with either letters, `atoi` reads back the
-- word, unless it is printed as a negative `int`: `atoi` stops at the sign, and its answer is 0.
pub atoi-printint :
    (ten x : ℕ) (sgn : Bool)
    → x < 2 ^ 32
    → atoi (printint ten x 10 sgn) ≡ (if sgn && leb (2 ^ 31) x then 0 else x)
unfolding atoi atoi_from printint
atoi-printint ten x sgn small = elim (Bool-cases (sgn && leb (2 ^ 31) x)) [
  | inl negative ↦ rw negative refl
  | inr plain ↦ rw plain (
      ap atoi (sym (append-nil (reverse (number_chars 32 ten 10 x))))
      ∙ atoi_from-number_chars 32 ten x [] (omega arith) (omega arith) (omega arith))
]
