-- ===== src/Asg01/Words.antt =====
-- Asg01/assignment1.c: `byte_sort` and `nibble_sort`, which sort the `w`-bit parts of a word.
use native.Mathlib.Nat.{
  add-mul-div_right, div-eq_of_lt, div-div-eq-div-mul, mod-eq_of_lt, pow-le-pow_right,
  mod-eq-sub-div-mul, mod-lt,
}
use mathlib.Core.List.{Perm}
use cs5460spring.Base.{
  ℕ, zero, suc, ◌+◌, ◌*◌, ◌/◌, ◌%◌, ◌^◌, ◌≤◌, ◌<◌, ◌≡◌, refl, sym, subst, ap, ap₂, ◌∙◌, List, [],
  ◌∷◌, bit_or, arith, length, All, IsSorted,
}
use cs5460spring.Base.Bits.{bit_or-shifted, pow-add, pow-pos}
use cs5460spring.Asg01.Sort.{bubble_sort, bubble_sort_sorts, bubble_sort-All, length-bubble_sort}

-- `parts[i] = (arg >> i*w) & mask` with `n` rounds left, where the mask is `2 ^ w - 1`.
pub unpack : ℕ → ℕ → ℕ → ℕ → List ℕ
unpack w zero i arg = []
unpack w (suc n) i arg = (arg / 2 ^ (i * w) % 2 ^ w) ∷ unpack w n (i + 1) arg

-- The chain of `|` from part `i` on; each shift is on `uint64_t`.
pub pack : ℕ → ℕ → ℕ → List ℕ → ℕ
pack w i acc [] = acc
pack w i acc (x ∷ parts) = pack w (i + 1) (bit_or acc (x * 2 ^ (i * w) % 2 ^ 64)) parts

pub byte_sort : ℕ → ℕ
byte_sort arg = pack 8 0 0 (bubble_sort (unpack 8 8 0 arg) 8)

pub nibble_sort : ℕ → ℕ
nibble_sort arg = pack 4 0 0 (bubble_sort (unpack 4 16 0 arg) 16)

-- The number with these parts, the lowest first.
abbrev value : ℕ → List ℕ → ℕ
value w [] = 0
value w (x ∷ xs) = x + value w xs * 2 ^ w

suc_mul : (i w : ℕ) → (i + 1) * w ≡ i * w + w
suc_mul i w = omega arith

pow-suc_mul : (i w : ℕ) → 2 ^ ((i + 1) * w) ≡ 2 ^ (i * w) * 2 ^ w
pow-suc_mul i w = ap (λ (t : ℕ). 2 ^ t) (suc_mul i w) ∙ pow-add 2 (i * w) w

shifted-le : (x m p : ℕ) → x < m → x * p + p ≤ p * m
shifted-le x m p h = grind arith

-- A part that fits keeps its place under the shift, and the `|` adds it.
part-or :
    (w p acc x : ℕ)
    → acc < 2 ^ p
    → x < 2 ^ w
    → p + w ≤ 64
    → (bit_or acc (x * 2 ^ p % 2 ^ 64) ≡ acc + x * 2 ^ p) × (acc + x * 2 ^ p < 2 ^ p * 2 ^ w)
part-or w p acc x lo hx fits =
    (ap (bit_or acc) (mod-eq_of_lt small) ∙ bit_or-shifted p acc x lo, omega (arith, room, lo))
  where
    room : x * 2 ^ p + 2 ^ p ≤ 2 ^ p * 2 ^ w
    room = shifted-le x (2 ^ w) (2 ^ p) hx

    small : x * 2 ^ p < 2 ^ 64
    small = omega (
      arith,
      room,
      pow-add 2 p w,
      pow-pos p,
      pow-le-pow_right {n = 2} (omega arith) {i = p + w} {j = 64} fits,
    )

pack-value :
    (w i acc : ℕ) (xs : List ℕ)
    → acc < 2 ^ (i * w)
    → All (λ x. x < 2 ^ w) xs
    → i * w + length xs * w ≤ 64
    → pack w i acc xs ≡ acc + value w xs * 2 ^ (i * w)
unfolding pack
pack-value w i acc [] lo all fits = omega arith
pack-value w i acc (x ∷ xs) lo all fits =
    let (e, next) = part-or w (i * w) acc x lo all.0 (omega arith) in
    ap (λ t. pack w (i + 1) t xs) e
    ∙ (pack-value w (i + 1) (acc + x * 2 ^ (i * w)) xs (omega (arith, next, pow-suc_mul i w)) all.1
          (omega arith)
        ∙ omega (arith, ap (λ (t : ℕ). value w xs * t) (pow-suc_mul i w)))

unpack-value :
    (w i arg : ℕ) (xs : List ℕ)
    → All (λ x. x < 2 ^ w) xs
    → arg / 2 ^ (i * w) ≡ value w xs
    → unpack w (length xs) i arg ≡ xs
unfolding unpack
unpack-value w i arg [] all e = refl
unpack-value w i arg (x ∷ xs) all e =
    ap₂ ◌∷◌ (ap (λ (t : ℕ). t % 2 ^ w) e ∙ low) (unpack-value w (i + 1) arg xs all.1 rest)
  where
    high : value w (x ∷ xs) / 2 ^ w ≡ value w xs
    high = omega (arith, add-mul-div_right x (value w xs) (pow-pos w), div-eq_of_lt all.0)

    low : value w (x ∷ xs) % 2 ^ w ≡ x
    low = mod-eq-sub-div-mul _ _ ∙ omega (arith, ap (λ (t : ℕ). t * 2 ^ w) high)

    rest : arg / 2 ^ ((i + 1) * w) ≡ value w xs
    rest =
        ap (λ (t : ℕ). arg / t) (pow-suc_mul i w)
        ∙ (sym (div-div-eq-div-mul arg (2 ^ (i * w)) (2 ^ w))
            ∙ (ap (λ (t : ℕ). t / 2 ^ w) e ∙ high))

pub unpack-pack :
    (w : ℕ) (xs : List ℕ)
    → All (λ x. x < 2 ^ w) xs
    → length xs * w ≤ 64
    → unpack w (length xs) 0 (pack w 0 0 xs) ≡ xs
unpack-pack w xs all fits = unpack-value w 0 _ xs all whole
  where
    one : 2 ^ (0 * w) ≡ 1
    one = let e : 0 * w ≡ 0 = omega arith in ap (λ (t : ℕ). 2 ^ t) e

    whole : pack w 0 0 xs / 2 ^ (0 * w) ≡ value w xs
    whole =
        ap (λ (t : ℕ). pack w 0 0 xs / t) one
        ∙ omega (
          arith,
          pack-value w 0 0 xs (pow-pos (0 * w)) all (omega arith),
          ap (λ (t : ℕ). value w xs * t) one,
        )

length-unpack : (w n i arg : ℕ) → length (unpack w n i arg) ≡ n
unfolding unpack
length-unpack w zero i arg = refl
length-unpack w (suc n) i arg = ap suc (length-unpack w n (i + 1) arg)

unpack-bound : (w n i arg : ℕ) → All (λ x. x < 2 ^ w) (unpack w n i arg)
unfolding unpack
unpack-bound w zero i arg = tt
unpack-bound w (suc n) i arg = (mod-lt _ (pow-pos w), unpack-bound w n (i + 1) arg)

-- The parts of a word that is packed from the sorted parts of `arg` are those, in order.
word_sort_lem :
    (w n arg : ℕ)
    → n * w ≤ 64
    → unpack w n 0 (pack w 0 0 (bubble_sort (unpack w n 0 arg) n))
      ≡ bubble_sort (unpack w n 0 arg) n
word_sort_lem w n arg fits =
    subst (λ k. unpack w k 0 (pack w 0 0 sorted) ≡ sorted) count
      (unpack-pack w sorted
        (bubble_sort-All (λ x. x < 2 ^ w) (unpack w n 0 arg) n (unpack-bound w n 0 arg))
        (omega (arith, ap (λ (t : ℕ). t * w) count)))
  where
    sorted : List ℕ
    sorted = bubble_sort (unpack w n 0 arg) n

    count : length sorted ≡ n
    count = length-bubble_sort (unpack w n 0 arg) n ∙ length-unpack w n 0 arg

-- The bytes of `byte_sort arg`, the lowest first, are in ascending order, and they are the bytes of
-- `arg`, each as often as it occurs there.
pub byte_sort_sorts :
    (arg : ℕ)
    → IsSorted (unpack 8 8 0 (byte_sort arg))
      × Perm (unpack 8 8 0 (byte_sort arg)) (unpack 8 8 0 arg)
unfolding byte_sort
byte_sort_sorts arg =
    rw (word_sort_lem 8 8 arg (omega arith))
      (bubble_sort_sorts (unpack 8 8 0 arg) 8 (sym (length-unpack 8 8 0 arg)))

-- The nibbles of `nibble_sort arg`, the lowest first, are in ascending order, and they are the
-- nibbles of `arg`, each as often as it occurs there.
pub nibble_sort_sorts :
    (arg : ℕ)
    → IsSorted (unpack 4 16 0 (nibble_sort arg))
      × Perm (unpack 4 16 0 (nibble_sort arg)) (unpack 4 16 0 arg)
unfolding nibble_sort
nibble_sort_sorts arg =
    rw (word_sort_lem 4 16 arg (omega arith))
      (bubble_sort_sorts (unpack 4 16 0 arg) 16 (sym (length-unpack 4 16 0 arg)))
