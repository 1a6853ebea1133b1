-- ===== src/Xv6/Ulib.antt =====
-- Asg02/xv6-2/ulib.c: the string routines of the user programs. A string is the list of its bytes; its
-- terminator stands for the end of the list.
use cs5460spring.Base.{
  ℕ, zero, suc, ◌+◌, ◌-◌, ◌*◌, ◌%◌, ◌^◌, List, [], ◌∷◌, Option, none, some, Bool, ◌&&◌, ◌||◌,
  if◌then◌else◌, leb, ◌==◌,
}
use cs5460spring.Xv6.Str.{Memory, sub32, store}

-- `strcpy` to `s` with `n` bytes of the text left.
unfoldable pub strcpy : ℕ → List ℕ → Memory → Memory
strcpy s [] m = store m s 0
strcpy s (c ∷ t) m = strcpy (s + 1) t (store m s c)

-- `strcmp`; the result is a 32-bit pattern.
unfoldable pub strcmp : List ℕ → List ℕ → ℕ
strcmp [] [] = 0
strcmp [] (d ∷ ds) = sub32 0 d
strcmp (c ∷ cs) [] = sub32 c 0
strcmp (c ∷ cs) (d ∷ ds) = let rest = strcmp cs ds in if c == d then rest else sub32 c d

-- `strchr`: the rest of the string from `c` on; null is `none`.
unfoldable pub strchr : List ℕ → ℕ → Option (List ℕ)
strchr [] c = none
strchr (d ∷ ds) c = let rest = strchr ds c in if d == c then some (d ∷ ds) else rest

-- `gets`, with the bytes that the calls of `read` get before the end of the input, and `max - 1`
-- places left.
unfoldable pub gets : ℕ → List ℕ → List ℕ
gets zero input = []
gets (suc n) [] = []
gets (suc n) (c ∷ cs) = let rest = gets n cs in if c == 10 || c == 13 then c ∷ [] else c ∷ rest

abbrev pub is_digit : ℕ → Bool
is_digit c = leb 48 c && leb c 57

-- The loop of `atoi`, with `n`; an `int` is its 32-bit pattern.
unfoldable pub atoi_from : ℕ → List ℕ → ℕ
atoi_from n [] = n
atoi_from n (c ∷ cs) =
    let rest = atoi_from ((n * 10 + c - 48) % 2 ^ 32) cs in if is_digit c then rest else n

unfoldable pub atoi : List ℕ → ℕ
unfolding atoi_from
atoi s = atoi_from 0 s

-- `memmove`, which copies upwards.
unfoldable pub memmove : ℕ → ℕ → ℕ → Memory → Memory
memmove dst src zero m = m
memmove dst src (suc n) m = memmove (dst + 1) (src + 1) n (store m dst (m src))
