-- ===== src/Asg01/Chain.antt =====
-- Asg01/assignment1.c: `str_to_list`. The list of `struct elt` is a list of characters, and memory
-- the number of calls of `malloc` that succeed.
use cs5460spring.Base.{
  ℕ, zero, suc, ◌+◌, ◌-◌, ◌≤◌, ◌<◌, ◌≡◌, ◌≢◌, ◌∙◌, ap, refl, arith, List, [], ◌∷◌, ◌++◌,
  if◌then◌else◌, ◌==◌, ==_of_ne, length, get_or, drop, All,
}

-- The loop that measures the string, up to its NUL.
pub size_of : List ℕ → ℕ
size_of [] = 0
size_of (c ∷ str) = let rest = size_of str in if c == 0 then 0 else rest + 1

-- A list, or null with the elements that are no longer reachable and were not freed.
pub data Built : Type 0 where
  built : List ℕ → Built
  out_of_memory : List ℕ → Built

-- The loop from `i - 1` down to 0: when `malloc` fails, only the first element of `next` is freed.
pub build : ℕ → ℕ → List ℕ → List ℕ → Built
build zero memory str next = built next
build (suc i) zero str next = out_of_memory (drop 1 next)
build (suc i) (suc memory) str next = build i memory str (get_or str i 0 ∷ next)

pub str_to_list : ℕ → List ℕ → Built
str_to_list memory str = build (size_of str) memory str []

size_of_lem : (s rest : List ℕ) → All (λ c. c ≢ 0) s → size_of (s ++ (0 ∷ rest)) ≡ length s
unfolding size_of
size_of_lem [] rest all = refl
size_of_lem (c ∷ s) rest all = rw (==_of_ne c 0 all.0) (omega (arith, size_of_lem s rest all.1))

get_or-append : (s t : List ℕ) (i : ℕ) → i < length s → get_or (s ++ t) i 0 ≡ get_or s i 0
get_or-append [] t i less = absurd (omega (arith, less))
get_or-append (c ∷ s) t zero less = refl
get_or-append (c ∷ s) t (suc i) less = get_or-append s t i (omega arith)

get_or-drop : (s : List ℕ) (i : ℕ) → i < length s → (get_or s i 0 ∷ drop (suc i) s) ≡ drop i s
get_or-drop [] i less = absurd (omega (arith, less))
get_or-drop (c ∷ s) zero less = refl
get_or-drop (c ∷ s) (suc i) less = get_or-drop s i (omega arith)

drop-length : (s : List ℕ) → drop (length s) s ≡ []
drop-length [] = refl
drop-length (c ∷ s) = drop-length s

step_back :
    (s rest : List ℕ) (i : ℕ)
    → i < length s
    → (get_or (s ++ (0 ∷ rest)) i 0 ∷ drop (suc i) s) ≡ drop i s
step_back s rest i less =
    ap (λ (c : ℕ). c ∷ drop (suc i) s) (get_or-append s (0 ∷ rest) i less) ∙ get_or-drop s i less

build_lem :
    (i memory : ℕ) (s rest : List ℕ)
    → i ≤ length s
    → i ≤ memory
    → build i memory (s ++ (0 ∷ rest)) (drop i s) ≡ built s
unfolding build
build_lem zero memory s rest le enough = refl
build_lem (suc i) zero s rest le enough = absurd (omega (arith, enough))
build_lem (suc i) (suc memory) s rest le enough =
    ap (build i memory (s ++ (0 ∷ rest))) (step_back s rest i (omega arith))
    ∙ build_lem i memory s rest (omega arith) (omega arith)

build-fails :
    (i memory : ℕ) (s rest : List ℕ)
    → i ≤ length s
    → memory < i
    → build i memory (s ++ (0 ∷ rest)) (drop i s) ≡ out_of_memory (drop 1 (drop (i - memory) s))
unfolding build
build-fails zero memory s rest le short = absurd (omega (arith, short))
build-fails (suc i) zero s rest le short =
    ap (λ (k : ℕ). out_of_memory (drop 1 (drop k s))) {x = suc i} (omega arith)
build-fails (suc i) (suc memory) s rest le short =
    ap (build i memory (s ++ (0 ∷ rest))) (step_back s rest i (omega arith))
    ∙ build-fails i memory s rest (omega arith) (omega arith)
    ∙ ap (λ (k : ℕ). out_of_memory (drop 1 (drop k s))) (omega arith)

-- Of a string that ends with a NUL, `str_to_list` makes the list of its characters in order, if
-- `malloc` succeeds for each; else it returns null, and of the elements made so far, which are those
-- of the string's end, all but the first are leaked.
pub str_to_list_lem :
    (memory : ℕ) (s rest : List ℕ)
    → All (λ c. c ≢ 0) s
    → (length s ≤ memory → str_to_list memory (s ++ (0 ∷ rest)) ≡ built s)
      × (memory < length s
          → str_to_list memory (s ++ (0 ∷ rest))
            ≡ out_of_memory (drop 1 (drop (length s - memory) s)))
unfolding str_to_list
str_to_list_lem memory s rest all = (
  λ enough. from_size ∙ build_lem (length s) memory s rest (omega arith) enough,
  λ short. from_size ∙ build-fails (length s) memory s rest (omega arith) short,
)
  where
    from_size :
        build (size_of (s ++ (0 ∷ rest))) memory (s ++ (0 ∷ rest)) []
        ≡ build (length s) memory (s ++ (0 ∷ rest)) (drop (length s) s)
    from_size = rw (size_of_lem s rest all, drop-length s) refl
