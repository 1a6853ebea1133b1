-- ===== src/Xv6/Str/Fill.antt =====
-- Asg02/xv6-2/string.c: `memset` and `safestrcpy`.
use cs5460spring.Base.{
  ℕ, zero, suc, ◌+◌, ◌*◌, ◌/◌, ◌%◌, ◌^◌, ◌≤◌, ◌<◌, ◌≡◌, inl, inr, ◌∙◌, ap, refl, arith, List, Bool,
  true, ◌&&◌, if◌then◌else◌, ◌==◌, ==_iff, Bool-cases, ℕ_discrete, length, get_or, set, length-set,
  get_or-set_self, get_or-set_ne, all_below, all_below_sound,
}
use cs5460spring.Xv6.Str.{
  Memory, store, store_word, stosb, stosl, spread, memset, safestrcpy_from, safestrcpy,
}
use cs5460spring.Xv6.Str.Move.{within}

stosb_lem :
    (n dst c : ℕ) (m : Memory) (a : ℕ)
    → stosb n dst c m a ≡ (if within a dst n then c % 2 ^ 8 else m a)
unfolding stosb
stosb_lem zero dst c m a = ground arith
stosb_lem (suc n) dst c m a = stosb_lem n (dst + 1) c (store m dst (c % 2 ^ 8)) a ∙ ground arith

-- A word whose four bytes are `b`.
record IsSpread (w b : ℕ) : Type 0 where
  first : w % 2 ^ 8 ≡ b
  second : w / 2 ^ 8 % 2 ^ 8 ≡ b
  third : w / 2 ^ 16 % 2 ^ 8 ≡ b
  fourth : w / 2 ^ 24 % 2 ^ 8 ≡ b

stosl_lem :
    (n dst w b : ℕ) (m : Memory) (a : ℕ)
    → IsSpread w b
    → stosl n dst w m a ≡ (if within a dst (4 * n) then b else m a)
unfolding stosl
stosl_lem zero dst w b m a s = ground arith
stosl_lem (suc n) dst w b m a s =
    stosl_lem n (dst + 4) w b (store_word m dst w) a s
    ∙ ground (arith, s.first, s.second, s.third, s.fourth)

abbrev spread_test : ℕ → Bool
spread_test b =
    (spread b % 2 ^ 8 == b)
    && (spread b / 2 ^ 8 % 2 ^ 8 == b)
    && (spread b / 2 ^ 16 % 2 ^ 8 == b)
    && (spread b / 2 ^ 24 % 2 ^ 8 == b)

spread_table : all_below 256 spread_test ≡ true
unfolding all_below
spread_table = refl

spread-IsSpread : (b : ℕ) → b < 256 → IsSpread (spread b) b
spread-IsSpread b h =
    let t : spread_test b ≡ true = all_below_sound 256 spread_test b spread_table h in
    record {
      first = ground arith;
      second = ground arith;
      third = ground arith;
      fourth = ground arith;
    }

-- Both ways of `memset`, by words and by bytes, set each byte of the block to the low byte of `c`
-- and change no other.
pub memset_lem :
    (dst c n : ℕ) (m : Memory) (a : ℕ)
    → memset dst c n m a ≡ (if within a dst n then c % 2 ^ 8 else m a)
unfolding memset
memset_lem dst c n m a = elim (Bool-cases (dst % 4 == 0 && n % 4 == 0)) [
  | inr bytes ↦ rw bytes (stosb_lem n dst c m a)
  | inl words ↦ rw words (
      stosl_lem (n / 4) dst (spread (c % 2 ^ 8)) (c % 2 ^ 8) m a
        (spread-IsSpread (c % 2 ^ 8) (omega arith))
      ∙ ap (λ (k : ℕ). if within a dst k then c % 2 ^ 8 else m a) (ground arith))
]

-- What `safestrcpy` leaves: a string that ends within the array's first `n` bytes and agrees with
-- the source up to there.
pub record IsCopied (n : ℕ) (t s' : List ℕ) : Type 0 where
  pub last : ℕ
  pub in_range : last < n
  pub terminated : get_or s' last 0 ≡ 0
  pub agrees : (j : ℕ) → j < last → get_or s' j 0 ≡ get_or t j 0

safestrcpy_from_lem :
    (n i : ℕ) (s t : List ℕ)
    → i + n < length s
    → ((j : ℕ) → j < i → get_or s j 0 ≡ get_or t j 0)
    → IsCopied (i + suc n) t (safestrcpy_from n i s t)
unfolding safestrcpy_from
safestrcpy_from_lem zero i s t room before = record {
  last = i;
  in_range = omega arith;
  terminated = get_or-set_self s i 0 0 (omega arith);
  agrees = λ j lt. get_or-set_ne s i j 0 0 (omega arith) ∙ before j lt;
}
safestrcpy_from_lem (suc n) i s t room before = elim (Bool-cases (get_or t i 0 == 0)) [
  | inl stop ↦ rw stop (record {
    last = i;
    in_range = omega arith;
    terminated =
        get_or-set_ne (set s i (get_or t i 0)) (i + 1) i 0 0 (omega arith)
        ∙ (get_or-set_self s i (get_or t i 0) 0 (omega arith) ∙ (==_iff (get_or t i 0) 0).0 stop);
    agrees = λ j lt.
        get_or-set_ne (set s i (get_or t i 0)) (i + 1) j 0 0 (omega arith)
        ∙ (get_or-set_ne s i j (get_or t i 0) 0 (omega arith) ∙ before j lt);
  })
  | inr more ↦ rw more (
      let rest =
        safestrcpy_from_lem n (i + 1) (set s i (get_or t i 0)) t
          (omega (arith, length-set s i (get_or t i 0))) before' in
      record {
        last = rest.last;
        in_range = omega (arith, rest.in_range);
        terminated = rest.terminated;
        agrees = rest.agrees;
      })
]
  where
    before' : (j : ℕ) → j < i + 1 → get_or (set s i (get_or t i 0)) j 0 ≡ get_or t j 0
    before' j lt = elim (ℕ_discrete i j) [
      | yes e ↦ rw (← e) (get_or-set_self s i (get_or t i 0) 0 (omega arith))
      | no ne ↦ get_or-set_ne s i j (get_or t i 0) 0 ne ∙ before j (omega arith)
    ]

-- Given an array of at least `n > 0` bytes, `safestrcpy` always leaves a terminated string in its
-- first `n` bytes, which agrees with the source up to its end.
pub safestrcpy_terminates :
    (s t : List ℕ) (n : ℕ) → 0 < n → n ≤ length s → IsCopied n t (safestrcpy s t n)
unfolding safestrcpy
safestrcpy_terminates s t zero pos room = absurd (omega arith)
safestrcpy_terminates s t (suc n) pos room =
    let c = safestrcpy_from_lem n 0 s t (omega arith) (λ j lt. absurd (omega arith)) in
    record {
      last = c.last;
      in_range = omega (arith, c.in_range);
      terminated = c.terminated;
      agrees = c.agrees;
    }
