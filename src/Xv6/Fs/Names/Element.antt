-- ===== src/Xv6/Fs/Names/Element.antt =====
-- Asg02/xv6-2/fs.c: what `skipelem` takes off a path.
use cs5460spring.Base.{
  ℕ, zero, suc, ◌+◌, ◌-◌, ◌≤◌, ◌<◌, min, ◌≡◌, ◌≢◌, ◌⊎◌, inl, inr, refl, ◌∙◌, sym, ap, subst, arith,
  Option, none, some, true, false, not, ◌&&◌, if◌then◌else◌, ltb, leb, ◌==◌, ==_iff, ==_of_ne,
  ℕ_discrete, dec_lt,
}
use cs5460spring.Xv6.Str.{Memory, store}
use cs5460spring.Xv6.Fs.Content.{moved}
use cs5460spring.Xv6.Fs.Names.{dirsiz, skip_slashes, skip_name, skipelem}

skip_slashes_lem :
    (k n p : ℕ) (path : Memory)
    → n ≤ k
    → ((i : ℕ) → i < n → path (p + i) ≡ 47)
    → path (p + n) ≢ 47
    → skip_slashes k p path ≡ p + n
unfolding skip_slashes
skip_slashes_lem zero zero p path le all stop = omega arith
skip_slashes_lem zero (suc n) p path le all stop = absurd (omega (arith, le))
skip_slashes_lem (suc k) zero p path le all stop =
    rw (==_of_ne (path p) 47 (here stop)) (omega arith)
  where
    here : path (p + 0) ≢ 47 → path p ≢ 47
    here ne e = ne (ap path (omega arith) ∙ e)
skip_slashes_lem (suc k) (suc n) p path le all stop =
    rw ((==_iff (path p) 47).1 (ap path (omega arith) ∙ all 0 (omega arith))) (
      skip_slashes_lem k n (p + 1) path (omega arith)
        (λ i lt. ap path (omega arith) ∙ all (i + 1) (omega arith))
        (λ e. stop (ap path (omega arith) ∙ e))
      ∙ omega arith)

skip_name_lem :
    (k n p : ℕ) (path : Memory)
    → n ≤ k
    → ((i : ℕ) → i < n → (path (p + i) ≢ 47) × (path (p + i) ≢ 0))
    → (path (p + n) ≡ 47) ⊎ (path (p + n) ≡ 0)
    → skip_name k p path ≡ p + n
unfolding skip_name
skip_name_lem zero zero p path le all stop = omega arith
skip_name_lem zero (suc n) p path le all stop = absurd (omega (arith, le))
skip_name_lem (suc k) zero p path le all stop = rw (here stop) (omega arith)
  where
    same : path p ≡ path (p + 0)
    same = ap path (omega arith)

    here :
        (path (p + 0) ≡ 47) ⊎ (path (p + 0) ≡ 0) → (not (path p == 47) && not (path p == 0)) ≡ false
    here s = ground (arith, s, same)
skip_name_lem (suc k) (suc n) p path le all stop = rw (here (all 0 (omega arith))) (
    skip_name_lem k n (p + 1) path (omega arith)
      (λ i lt.
        subst (λ (a : ℕ). (path a ≢ 47) × (path a ≢ 0)) (omega arith) (all (i + 1) (omega arith)))
      (subst (λ (a : ℕ). (path a ≡ 47) ⊎ (path a ≡ 0)) (omega arith) stop)
    ∙ omega arith)
  where
    same : path p ≡ path (p + 0)
    same = ap path (omega arith)

    here :
        (path (p + 0) ≢ 47) × (path (p + 0) ≢ 0) → (not (path p == 47) && not (path p == 0)) ≡ true
    here s = ground (arith, s, same)

-- The element of `n` bytes at `s`, cut to DIRSIZ, and its terminator if there is room for one.
abbrev pub element : Memory → ℕ → ℕ → Memory → Memory
element path s n name j =
    if ltb j (min n dirsiz) then path (s + j) else if j == n && ltb n dirsiz then 0 else name j

copied_lem :
    (path name : Memory) (s n j : ℕ)
    → (if leb dirsiz n
          then moved name 0 dirsiz (λ i. path (s + i))
          else store (moved name 0 n (λ i. path (s + i))) n 0)
        j
      ≡ element path s n name j
copied_lem path name s n j = elim (dec_lt n dirsiz) [
  | yes short ↦ rw (is_less short) (place n short)
  | no long ↦ rw (is_more long) (whole long)
]
  where
    is_less : n < dirsiz → leb dirsiz n ≡ false
    is_less l = ground (arith, l)

    is_more : ¬ (n < dirsiz) → leb dirsiz n ≡ true
    is_more l = ground (arith, l)

    same : path (s + (j - 0)) ≡ path (s + j)
    same = ap (λ (x : ℕ). path (s + x)) (omega arith)

    place :
        (n : ℕ)
        → n < dirsiz
        → store (moved name 0 n (λ i. path (s + i))) n 0 j ≡ element path s n name j
    place n l = ground (arith, l, same)

    whole : ¬ (n < dirsiz) → moved name 0 dirsiz (λ i. path (s + i)) j ≡ element path s n name j
    whole l = ground (arith, l, same)

-- What `skipelem` answers for an element of `n` bytes at `s`, where `rest` follows.
abbrev pub SkipSpec : Memory → ℕ → ℕ → ℕ → Memory → Option (ℕ × Memory) → Type 0
SkipSpec path s n rest name none = n ≡ 0
SkipSpec path s n rest name (some (p', name')) =
    (0 < n) × (p' ≡ rest) × ((j : ℕ) → name' j ≡ element path s n name j)

-- A path with `a` slashes, then an element of `n` bytes, then `b` slashes and no further one, all
-- within the rounds, which ends there if there is no slash behind the element or no element at all:
-- `skipelem` answers the place behind the slashes, and the element, cut to DIRSIZ bytes, and
-- terminated if it is shorter. It answers null exactly if there is no element.
pub skipelem_lem :
    (rounds p a n b : ℕ) (path name : Memory)
    → a + n + b ≤ rounds
    → ((i : ℕ) → i < a → path (p + i) ≡ 47)
    → ((i : ℕ) → i < n → (path (p + a + i) ≢ 47) × (path (p + a + i) ≢ 0))
    → ((i : ℕ) → i < b → path (p + a + n + i) ≡ 47)
    → path (p + a + n + b) ≢ 47
    → (b ≡ 0 → path (p + a + n) ≡ 0)
    → (n ≡ 0 → b ≡ 0)
    → SkipSpec path (p + a) n (p + a + n + b) name (skipelem rounds p path name)
unfolding skipelem
skipelem_lem rounds p a n b path name enough slashes bytes more stop end single =
    rw (first, second, third)
      (elim (ℕ_discrete n 0) [
        | yes e ↦ rw ((==_iff (path (p + a)) 0).1 (ends e)) e
        | no ne ↦
            rw (==_of_ne (path (p + a)) 0 (goes_on ne), length_of)
              (omega arith, refl, λ j. copied_lem path name (p + a) n j)
      ])
  where
    ends : n ≡ 0 → path (p + a) ≡ 0
    ends e = ap path (omega (arith, e)) ∙ end (single e)

    at_start : path (p + a) ≡ path (p + a + 0)
    at_start = ap path (omega arith)

    goes_on : n ≢ 0 → path (p + a) ≢ 0
    goes_on ne e = (bytes 0 (omega arith)).1 (sym at_start ∙ e)

    first : skip_slashes rounds p path ≡ p + a
    first = skip_slashes_lem rounds a p path (omega arith) slashes (elim (ℕ_discrete n 0) [
      | yes e ↦ λ z. omega (arith, ends e, z)
      | no ne ↦ λ z. (bytes 0 (omega arith)).0 (sym at_start ∙ z)
    ])

    second : skip_name rounds (p + a) path ≡ p + a + n
    second = skip_name_lem rounds n (p + a) path (omega arith) bytes (elim (ℕ_discrete b 0) [
      | yes e ↦ inr (end e)
      | no ne ↦ inl (ap path (omega arith) ∙ more 0 (omega arith))
    ])

    third : skip_slashes rounds (p + a + n) path ≡ p + a + n + b
    third = skip_slashes_lem rounds b (p + a + n) path (omega arith) more stop

    length_of : p + a + n - (p + a) ≡ n
    length_of = omega arith
