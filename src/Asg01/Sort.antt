-- ===== src/Asg01/Sort.antt =====
-- Asg01/assignment1.c: `bubble_sort`.
use mathlib.Core.List.{Perm}
use mathlib.Core.List.Perm
use cs5460spring.Base.{
  ℕ, zero, suc, ◌-◌, ◌≤◌, ◌≡◌, refl, List, [], ◌∷◌, if◌then◌else◌, ltb, arith, length, drop, All,
  IsSorted, Bool-cases, inl, inr, ap, ◌∙◌,
}

-- The inner loop: `k` comparisons left, the list is `arr[j..]`. The larger of `arr[j]` and
-- `arr[j+1]` moves on to `j + 1`. Past the end of the array nothing is compared.
pub pass : ℕ → List ℕ → List ℕ
pass zero arr = arr
pass (suc k) [] = []
pass (suc k) (x ∷ []) = x ∷ []
pass (suc k) (x ∷ y ∷ arr) = (if ltb y x then y else x) ∷ pass k ((if ltb y x then x else y) ∷ arr)

-- The outer loop with `n - 1 - i` rounds left; that is also its inner loop's bound `n - i - 1`.
pub rounds : ℕ → List ℕ → List ℕ
rounds zero arr = arr
rounds (suc k) arr = rounds k (pass (suc k) arr)

pub bubble_sort : List ℕ → ℕ → List ℕ
bubble_sort arr n = rounds (n - 1) arr

-- The first `k` elements are unordered, and at most all behind them, which are sorted.
abbrev IsTailSorted : ℕ → List ℕ → Type 0
IsTailSorted zero xs = IsSorted xs
IsTailSorted (suc k) [] = Unit
IsTailSorted (suc k) (x ∷ xs) = All (λ y. x ≤ y) (drop k xs) × IsTailSorted k xs

drop-pass :
    (a k h : ℕ) (zs : List ℕ)
    → a ≤ h
    → All (λ y. a ≤ y) (drop k zs)
    → All (λ y. a ≤ y) (drop k (pass k (h ∷ zs)))
unfolding pass
drop-pass a zero h zs le all = (le, all)
drop-pass a (suc zero) h [] le all = tt
drop-pass a (suc (suc k)) h [] le all = tt
drop-pass a (suc k) h (y ∷ ws) le all =
    drop-pass a k (if ltb y h then h else y) ws (ground arith) all

pass-IsTailSorted : (k : ℕ) (xs : List ℕ) → IsTailSorted (suc k) xs → IsTailSorted k (pass k xs)
unfolding pass
pass-IsTailSorted zero [] s = tt
pass-IsTailSorted zero (x ∷ xs) s = s
pass-IsTailSorted (suc k) [] s = tt
pass-IsTailSorted (suc zero) (x ∷ []) s = (tt, tt)
pass-IsTailSorted (suc (suc k)) (x ∷ []) s = (tt, tt)
pass-IsTailSorted (suc k) (x ∷ y ∷ zs) s = elim (Bool-cases (ltb y x)) [
  | inl lt ↦
      rw lt (drop-pass y k x zs (ground arith) s.1.0, pass-IsTailSorted k (x ∷ zs) (s.0, s.1.1))
  | inr ge ↦
      rw ge (drop-pass x k y zs (ground arith) s.0, pass-IsTailSorted k (y ∷ zs) (s.1.0, s.1.1))
]

rounds-IsSorted : (k : ℕ) (xs : List ℕ) → IsTailSorted (suc k) xs → IsSorted (rounds k xs)
unfolding rounds
rounds-IsSorted zero [] s = tt
rounds-IsSorted zero (x ∷ xs) s = s
rounds-IsSorted (suc k) xs s = rounds-IsSorted k (pass (suc k) xs) (pass-IsTailSorted (suc k) xs s)

IsTailSorted-length : (xs : List ℕ) (n : ℕ) → length xs ≤ n → IsTailSorted n xs
IsTailSorted-length [] zero h = tt
IsTailSorted-length [] (suc n) h = tt
IsTailSorted-length (x ∷ xs) zero h = absurd (omega arith)
IsTailSorted-length (x ∷ xs) (suc n) h =
    (All-drop xs n (omega arith), IsTailSorted-length xs n (omega arith))
  where
    All-drop : (ys : List ℕ) (m : ℕ) → length ys ≤ m → All (λ y. x ≤ y) (drop m ys)
    All-drop [] zero h = tt
    All-drop [] (suc m) h = tt
    All-drop (y ∷ ys) zero h = absurd (omega arith)
    All-drop (y ∷ ys) (suc m) h = All-drop ys m (omega arith)

pass-perm : (k : ℕ) (xs : List ℕ) → Perm (pass k xs) xs
unfolding pass
pass-perm zero xs = Perm.refl xs
pass-perm (suc k) [] = Perm.refl []
pass-perm (suc k) (x ∷ []) = Perm.refl (x ∷ [])
pass-perm (suc k) (x ∷ y ∷ zs) = elim (Bool-cases (ltb y x)) [
  | inl lt ↦ rw lt (Perm.trans (Perm.cons y (pass-perm k (x ∷ zs))) (Perm.swap x y zs))
  | inr ge ↦ rw ge (Perm.cons x (pass-perm k (y ∷ zs)))
]

rounds-perm : (k : ℕ) (xs : List ℕ) → Perm (rounds k xs) xs
unfolding rounds
rounds-perm zero xs = Perm.refl xs
rounds-perm (suc k) xs = Perm.trans (rounds-perm k (pass (suc k) xs)) (pass-perm (suc k) xs)

pass-All : (P : ℕ → Type 0) (k : ℕ) (xs : List ℕ) → All P xs → All P (pass k xs)
unfolding pass
pass-All P zero xs h = h
pass-All P (suc k) [] h = tt
pass-All P (suc k) (x ∷ []) h = h
pass-All P (suc k) (x ∷ y ∷ zs) h = elim (Bool-cases (ltb y x)) [
  | inl lt ↦ rw lt (h.1.0, pass-All P k (x ∷ zs) (h.0, h.1.1))
  | inr ge ↦ rw ge (h.0, pass-All P k (y ∷ zs) h.1)
]

rounds-All : (P : ℕ → Type 0) (k : ℕ) (xs : List ℕ) → All P xs → All P (rounds k xs)
unfolding rounds
rounds-All P zero xs h = h
rounds-All P (suc k) xs h = rounds-All P k (pass (suc k) xs) (pass-All P (suc k) xs h)

length-pass : (k : ℕ) (xs : List ℕ) → length (pass k xs) ≡ length xs
unfolding pass
length-pass zero xs = refl
length-pass (suc k) [] = refl
length-pass (suc k) (x ∷ []) = refl
length-pass (suc k) (x ∷ y ∷ zs) = ap suc (length-pass k _)

length-rounds : (k : ℕ) (xs : List ℕ) → length (rounds k xs) ≡ length xs
unfolding rounds
length-rounds zero xs = refl
length-rounds (suc k) xs = length-rounds k (pass (suc k) xs) ∙ length-pass (suc k) xs

-- A property that every element has is kept.
pub bubble_sort-All :
    (P : ℕ → Type 0) (arr : List ℕ) (n : ℕ) → All P arr → All P (bubble_sort arr n)
unfolding bubble_sort
bubble_sort-All P arr n h = rounds-All P (n - 1) arr h

pub length-bubble_sort : (arr : List ℕ) (n : ℕ) → length (bubble_sort arr n) ≡ length arr
unfolding bubble_sort
length-bubble_sort arr n = length-rounds (n - 1) arr

-- Called with the length of the array, `bubble_sort` leaves it in ascending order, and with the
-- elements that it had.
pub bubble_sort_sorts :
    (arr : List ℕ) (n : ℕ)
    → n ≡ length arr
    → IsSorted (bubble_sort arr n) × Perm (bubble_sort arr n) arr
unfolding bubble_sort
bubble_sort_sorts arr n e = (
  rounds-IsSorted (n - 1) arr (IsTailSorted-length arr (suc (n - 1)) (omega arith)),
  rounds-perm (n - 1) arr,
)
