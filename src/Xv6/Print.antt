-- ===== src/Xv6/Print.antt =====
-- Asg02/xv6-2/console.c, printf.c: printing. A call yields the bytes that it prints, in order; the
-- output device is left out.
pub mod Digits
mod Tests
use cs5460spring.Base.{
  ℕ, zero, suc, ◌+◌, ◌-◌, ◌/◌, ◌%◌, ◌^◌, List, [], ◌∷◌, ◌++◌, reverse, Option, none, some, Bool,
  true, false, ◌&&◌, ◌||◌, if◌then◌else◌, ltb, leb, ◌==◌,
}

-- The entry of `digits` for a digit below 16; `ten` is its letter for 10.
abbrev pub digit_of : ℕ → ℕ → ℕ
digit_of ten d = if ltb d 10 then 48 + d else ten + (d - 10)

-- The loop of `printint`, with rounds left: the characters in `buf`.
pub number_chars : ℕ → ℕ → ℕ → ℕ → List ℕ
number_chars zero ten base x = []
number_chars (suc k) ten base x =
    let rest = number_chars k ten base (x / base) in
    digit_of ten (x % base) ∷ (if x / base == 0 then [] else rest)

-- `printint` of a 32-bit pattern, of both files: `ten` is 'a' on the console and 'A' in printf.c. 32
-- rounds are enough for a base from 2 on.
pub printint : ℕ → ℕ → ℕ → Bool → List ℕ
unfolding number_chars
printint ten xx base sgn =
    if sgn && leb (2 ^ 31) xx
    then 45 ∷ reverse (number_chars 32 ten base (2 ^ 32 - xx))
    else reverse (number_chars 32 ten base xx)

-- An argument of a call: a number, or the bytes of a string; null is `none`.
pub data Arg : Type 0 where
  number : ℕ → Arg
  text : Option (List ℕ) → Arg

-- "(null)".
abbrev pub null_text : List ℕ
null_text = 40 ∷ 110 ∷ 117 ∷ 108 ∷ 108 ∷ 41 ∷ []

abbrev pub number_of : Arg → ℕ
number_of (number x) = x
number_of (text s) = 0

abbrev pub text_of : Arg → List ℕ
text_of (number x) = []
text_of (text none) = null_text
text_of (text (some s)) = s

-- What the conversion `c` prints, and the arguments left. It is called with an argument for each
-- conversion that takes one. `chars` says whether `%c` is one.
pub conversion : ℕ → Bool → ℕ → List Arg → List ℕ × List Arg
unfolding printint
conversion ten chars c [] = if c == 37 then (37 ∷ [], []) else (37 ∷ c ∷ [], [])
conversion ten chars c (arg ∷ args) =
    if c == 100
    then (printint ten (number_of arg) 10 true, args)
    else if c == 120 || c == 112
    then (printint ten (number_of arg) 16 false, args)
    else if c == 115
    then (text_of arg, args)
    else if chars && c == 99
    then (number_of arg % 2 ^ 8 ∷ [], args)
    else if c == 37
    then (37 ∷ [], arg ∷ args)
    else (37 ∷ c ∷ [], arg ∷ args)

-- The loops of `cprintf` and `printf` over the bytes of the format; both stop at its end, also
-- after a '%'.
pub format : ℕ → Bool → List ℕ → List Arg → List ℕ
unfolding conversion
format ten chars [] args = []
format ten chars (c ∷ []) args = if c == 37 then [] else c ∷ []
format ten chars (c ∷ d ∷ cs) args =
    let (out, args') = conversion ten chars d args in
    let after = format ten chars cs args' in
    let next = format ten chars (d ∷ cs) args in if c == 37 then out ++ after else c ∷ next

-- `cprintf`, with the lock left out; `printf`, which also knows `%c`.
unfoldable pub cprintf : List ℕ → List Arg → List ℕ
unfolding format
cprintf fmt args = format 97 false fmt args

unfoldable pub printf : List ℕ → List Arg → List ℕ
unfolding format
printf fmt args = format 65 true fmt args
