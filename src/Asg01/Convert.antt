-- ===== src/Asg01/Convert.antt =====
-- Asg01/assignment1.c: `convert` and its helpers `convert_hex`, `convert_bin` and `convert_oct`,
-- which differ in the base and in the length of the array.
use Prim.Native.Nat.pow
use native.Mathlib.Nat.{pow-suc, div-lt_iff_lt-mul, mod-lt, mod-add-div'}
use mathlib.Core.List.{reverse-append}
use cs5460spring.Base.{
  ℕ, zero, suc, ◌+◌, ◌-◌, ◌*◌, ◌/◌, ◌%◌, ◌^◌, ◌≤◌, ◌<◌, ◌≡◌, refl, ap, ◌∙◌, List, [], ◌∷◌, ◌++◌,
  map, reverse, arith, length, All, get_or, replicate, if◌then◌else◌, ◌==◌, Bool-cases, inl, inr,
  length-replicate, length-map, length-reverse, ◌≢◌, All-map, leb, ==_iff, all_below,
  all_below_sound, true,
}

-- `enum format_t`.
abbrev pub oct : ℕ
oct = 99

abbrev pub bin : ℕ
bin = 100

abbrev pub hex : ℕ
hex = 101

-- The two loops that fill `arr`, with `n` elements left: division until the quotient is 0, and
-- zeros from there on.
pub digits : ℕ → ℕ → ℕ → List ℕ
digits base zero v = []
digits base (suc n) v =
    let more = digits base n (v / base) in
    (v % base) ∷ (if v / base == 0 then replicate n 0 else more)

-- The `switch` on a digit. No other case occurs.
abbrev pub digit_char : ℕ → ℕ
digit_char d =
    get_or
      (b'0' ∷ b'1' ∷ b'2' ∷ b'3' ∷ b'4' ∷ b'5' ∷ b'6' ∷ b'7' ∷ b'8' ∷ b'9' ∷ b'a' ∷ b'b' ∷ b'c'
        ∷ b'd' ∷ b'e' ∷ b'f' ∷ [])
      d 0

pub convert_hex : ℕ → List ℕ
convert_hex v = map digit_char (digits 16 16 v)

pub convert_bin : ℕ → List ℕ
convert_bin v = map digit_char (digits 2 64 v)

pub convert_oct : ℕ → List ℕ
convert_oct v = map digit_char (digits 8 24 v)

-- What `convert` writes to stdout: the array from its last element down to its first, and a
-- newline; nothing for another mode.
pub convert : ℕ → ℕ → List ℕ
unfolding convert_hex convert_bin convert_oct
convert mode v =
    if mode == hex
    then reverse (convert_hex v) ++ b'\n' ∷ []
    else if mode == bin
    then reverse (convert_bin v) ++ b'\n' ∷ []
    else if mode == oct
    then reverse (convert_oct v) ++ b'\n' ∷ []
    else []

-- Reading a line back, from the left.
abbrev char_digit : ℕ → ℕ
char_digit c = if leb c b'9' then c - b'0' else c - b'a' + 10

abbrev read_number : ℕ → ℕ → List ℕ → ℕ
read_number base acc [] = acc
read_number base acc (c ∷ cs) = read_number base (acc * base + char_digit c) cs

-- The number that the digits stand for, the lowest first.
abbrev little : ℕ → List ℕ → ℕ
little base [] = 0
little base (d ∷ ds) = d + little base ds * base

-- A line of `n` characters that reads as `v`.
abbrev pub IsNumeral : ℕ → ℕ → ℕ → List ℕ → Type 0
IsNumeral base n v line =
    (ds : List ℕ) × (line ≡ ds ++ b'\n' ∷ []) × (length ds ≡ n) × (read_number base 0 ds ≡ v)

char_digit_table : all_below 16 (λ d. char_digit (digit_char d) == d) ≡ true
unfolding all_below
char_digit_table = refl

char_digit-digit_char : (d : ℕ) → d < 16 → char_digit (digit_char d) ≡ d
char_digit-digit_char d h = (==_iff _ d).0 (all_below_sound 16 _ d char_digit_table h)

read_number-append :
    (base acc : ℕ) (xs ys : List ℕ)
    → read_number base acc (xs ++ ys) ≡ read_number base (read_number base acc xs) ys
read_number-append base acc [] ys = refl
read_number-append base acc (x ∷ xs) ys = read_number-append base (acc * base + char_digit x) xs ys

read_number-reverse :
    (base : ℕ) (ds : List ℕ)
    → All (λ d. d < 16) ds
    → read_number base 0 (reverse (map digit_char ds)) ≡ little base ds
read_number-reverse base [] h = refl
read_number-reverse base (d ∷ ds) h =
    rw (reverse-append (digit_char d ∷ []) (map digit_char ds), read_number-append)
      (rw (read_number-reverse base ds h.1) (omega (arith, char_digit-digit_char d h.0)))

little-zeros : (base n : ℕ) → little base (replicate n 0) ≡ 0
little-zeros base zero = refl
little-zeros base (suc n) = omega (arith, ap (λ (t : ℕ). t * base) (little-zeros base n))

little-digits : (base n v : ℕ) → 0 < base → v < base ^ n → little base (digits base n v) ≡ v
unfolding digits
little-digits base zero v pos h = omega (arith, pow.zero base)
little-digits base (suc n) v pos h = elim (Bool-cases (v / base == 0)) [
  | inl done ↦
      rw done
        (omega (arith, ap (λ (t : ℕ). t * base) (little-zeros base n), mod-add-div' v base, z done))
  | inr more ↦ rw more (
      omega (
        arith,
        mod-add-div' v base,
        ap (λ (t : ℕ). t * base) (little-digits base n (v / base) pos below),
      ))
]
  where
    z : (v / base == 0) ≡ true → v / base * base ≡ 0
    z done = rw ((==_iff (v / base) 0).0 done) (omega arith)

    below : v / base < base ^ n
    below = (div-lt_iff_lt-mul pos).1 (omega (arith, pow-suc base n))

length-digits : (base n v : ℕ) → length (digits base n v) ≡ n
unfolding digits
length-digits base zero v = refl
length-digits base (suc n) v = elim (Bool-cases (v / base == 0)) [
  | inl done ↦ rw done (ap suc (length-replicate n _))
  | inr more ↦ rw more (ap suc (length-digits base n (v / base)))
]

zeros-bound : (m n : ℕ) → 0 < m → All (λ d. d < m) (replicate n 0)
zeros-bound m zero h = tt
zeros-bound m (suc n) h = (h, zeros-bound m n h)

digits-bound : (base n v : ℕ) → 0 < base → All (λ d. d < base) (digits base n v)
unfolding digits
digits-bound base zero v pos = tt
digits-bound base (suc n) v pos = elim (Bool-cases (v / base == 0)) [
  | inl done ↦ rw done (mod-lt v pos, zeros-bound base n pos)
  | inr more ↦ rw more (mod-lt v pos, digits-bound base n (v / base) pos)
]

numeral :
    (base n v : ℕ)
    → 0 < base
    → base ≤ 16
    → v < base ^ n
    → IsNumeral base n v (reverse (map digit_char (digits base n v)) ++ b'\n' ∷ [])
numeral base n v pos few h = (
  reverse (map digit_char (digits base n v)),
  refl,
  length-reverse (map digit_char (digits base n v))
      ∙ (length-map digit_char (digits base n v) ∙ length-digits base n v),
  read_number-reverse base (digits base n v) (
        All-map (λ d. d < base) (λ d. d < 16) (digits base n v) (λ d lt. omega arith)
          (digits-bound base n v pos))
      ∙ little-digits base n v pos h,
)

-- In each of its modes `convert` prints a 64-bit value as one line of fixed length that reads back as it; in
-- any other mode it prints nothing.
pub convert_reads_back :
    (v : ℕ)
    → v < 2 ^ 64
    → IsNumeral 16 16 v (convert hex v)
      × IsNumeral 2 64 v (convert bin v)
      × IsNumeral 8 24 v (convert oct v)
      × ((mode : ℕ) → mode ≢ hex → mode ≢ bin → mode ≢ oct → convert mode v ≡ [])
unfolding convert
convert_reads_back v h = (
  numeral 16 16 v (omega arith) (omega arith) h,
  numeral 2 64 v (omega arith) (omega arith) h,
  numeral 8 24 v (omega arith) (omega arith) (omega arith),
  λ mode a b c. ground arith,
)
