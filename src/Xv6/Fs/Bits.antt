-- ===== src/Xv6/Fs/Bits.antt =====
-- Asg02/xv6-2/fs.c: the free map, read as a set of blocks.
use cs5460spring.Base.{
  ℕ, zero, suc, ◌+◌, ◌-◌, ◌*◌, ◌/◌, ◌%◌, ◌≤◌, ◌<◌, ◌≡◌, ◌≢◌, refl, ◌∙◌, sym, ap, ap₂, arith, Bool,
  if◌then◌else◌, ◌==◌, ==_iff, ==_of_ne, ℕ_discrete,
}
use cs5460spring.Xv6.Str.{store}
use cs5460spring.Xv6.Fs.{bpb, Fs, put_block, bblock, bit, one_shl, bit_of, set_bit, clear_bit}

bit_small : (i x : ℕ) → bit i x < 2
unfolding bit
bit_small zero x = omega arith
bit_small (suc i) x = bit_small i (x / 2)

-- A bit that is 0 is set by adding its mask.
bit-set : (i j x : ℕ) → bit i x ≡ 0 → bit j (x + one_shl i) ≡ (if i == j then 1 else bit j x)
unfolding bit one_shl
bit-set zero zero x h = omega (arith, h)
bit-set zero (suc j) x h =
    let e : (x + 1) / 2 ≡ x / 2 = omega (arith, h) in
    rw (==_of_ne 0 (suc j) (omega arith)) (ap (bit j) e)
bit-set (suc i) zero x h =
    let two : one_shl (suc i) ≡ 2 * one_shl i = refl in
    rw (==_of_ne (suc i) 0 (omega arith)) (omega (arith, two))
bit-set (suc i) (suc j) x h =
    let e : (x + 2 * one_shl i) / 2 ≡ x / 2 + one_shl i = omega arith in
    ap (bit j) e
    ∙ bit-set i j (x / 2) h
    ∙ ap (λ (b : Bool). if b then 1 else bit j (x / 2)) (ground arith)

one_shl_le : (i x : ℕ) → bit i x ≢ 0 → one_shl i ≤ x
unfolding bit one_shl
one_shl_le zero x h = omega (arith, h)
one_shl_le (suc i) x h = omega (arith, one_shl_le i (x / 2) h)

bit-clear : (i j x : ℕ) → bit i x ≢ 0 → bit j (x - one_shl i) ≡ (if i == j then 0 else bit j x)
unfolding bit one_shl
bit-clear zero zero x h = omega (arith, h)
bit-clear zero (suc j) x h =
    let e : (x - 1) / 2 ≡ x / 2 = omega (arith, h) in
    rw (==_of_ne 0 (suc j) (omega arith)) (ap (bit j) e)
bit-clear (suc i) zero x h =
    let two : one_shl (suc i) ≡ 2 * one_shl i = refl in
    rw (==_of_ne (suc i) 0 (omega arith)) (omega (arith, two, one_shl_le i (x / 2) h))
bit-clear (suc i) (suc j) x h =
    let e : (x - 2 * one_shl i) / 2 ≡ x / 2 - one_shl i = omega arith in
    ap (bit j) e
    ∙ bit-clear i j (x / 2) h
    ∙ ap (λ (b : Bool). if b then 0 else bit j (x / 2)) (ground arith)

-- A byte of the map in which the bit of `b` becomes `v`.
bit_of-stored :
    (b c v y : ℕ) (fs : Fs)
    → ((j : ℕ)
        → bit j y
          ≡ (if b % bpb % 8 == j then v else bit j (fs.block (bblock b fs.sb) (b % bpb / 8))))
    → bit_of c (put_block (bblock b fs.sb) (store (fs.block (bblock b fs.sb)) (b % bpb / 8) y) fs)
      ≡ (if b == c then v else bit_of c fs)
bit_of-stored b c v y fs h = elim (ℕ_discrete (bblock c fs.sb) (bblock b fs.sb)) [
  | no ne ↦
      rw (==_of_ne (bblock c fs.sb) (bblock b fs.sb) ne, ==_of_ne b c (λ e. ne (omega (arith, e))))
        refl
  | yes e ↦
      rw ((==_iff (bblock c fs.sb) (bblock b fs.sb)).1 e)
        (elim (ℕ_discrete (b % bpb / 8) (c % bpb / 8)) [
          | no ne ↦
              rw
                (
                  ==_of_ne (b % bpb / 8) (c % bpb / 8) ne,
                  ==_of_ne b c (λ z. ne (omega (arith, z))),
                  e,
                )
                refl
          | yes f ↦ rw ((==_iff (b % bpb / 8) (c % bpb / 8)).1 f) (
              h (c % bpb % 8)
              ∙ ap₂ (λ (t : Bool) (x : ℕ). if t then v else x) (same e f)
                  (ap₂ (λ (n i : ℕ). bit (c % bpb % 8) (fs.block n i)) (sym e) f))
        ])
]
  where
    same :
        bblock c fs.sb ≡ bblock b fs.sb
        → b % bpb / 8 ≡ c % bpb / 8
        → (b % bpb % 8 == c % bpb % 8) ≡ (b == c)
    same e f = ground (arith, e, f)

pub bit_of-set :
    (b c : ℕ) (fs : Fs)
    → bit_of b fs ≡ 0
    → bit_of c (set_bit b fs) ≡ (if b == c then 1 else bit_of c fs)
bit_of-set b c fs h = bit_of-stored b c 1 _ fs (λ j. bit-set (b % bpb % 8) j _ h)

pub bit_of-clear :
    (b c : ℕ) (fs : Fs)
    → bit_of b fs ≢ 0
    → bit_of c (clear_bit b fs) ≡ (if b == c then 0 else bit_of c fs)
bit_of-clear b c fs h = bit_of-stored b c 0 _ fs (λ j. bit-clear (b % bpb % 8) j _ h)
