-- ===== src/Xv6/Str/Move.antt =====
-- Asg02/xv6-2/string.c: `memmove` on blocks that may overlap.
use cs5460spring.Base.{
  ℕ, zero, suc, ◌+◌, ◌-◌, ◌≤◌, ◌<◌, ◌≡◌, ◌≢◌, ◌⊎◌, inl, inr, ◌∙◌, ap, arith, Bool, false, ◌&&◌,
  if◌then◌else◌, ltb, leb, Bool-cases, ℕ_discrete,
}
use cs5460spring.Xv6.Str.{Memory, store, move_down, move_up, memmove}

abbrev pub within : ℕ → ℕ → ℕ → Bool
within a d n = leb d a && ltb a (d + n)

move_down_lem :
    (n d s : ℕ) (m : Memory) (a : ℕ)
    → s < d
    → move_down n d s m a ≡ (if within a d n then m (s + (a - d)) else m a)
unfolding move_down
move_down_lem zero d s m a h = ground arith
move_down_lem (suc n) d s m a h =
    move_down_lem n d s (store m (d + n) (m (s + n))) a h ∙ elim (ℕ_discrete a (d + n)) [
      | yes e ↦ let src : s + (a - d) ≡ s + n = omega arith in ground (arith, ap m src)
      | no ne ↦ ground arith
    ]

move_up_lem :
    (n d s : ℕ) (m : Memory) (a : ℕ)
    → (d ≤ s) ⊎ (s + n ≤ d)
    → move_up n d s m a ≡ (if within a d n then m (s + (a - d)) else m a)
unfolding move_up
move_up_lem zero d s m a h = ground arith
move_up_lem (suc n) d s m a h =
    move_up_lem n (d + 1) (s + 1) (store m d (m s)) a
      (elim h [ inl le ↦ inl (omega arith) | inr le ↦ inr (omega arith) ])
    ∙ elim (ℕ_discrete a d) [
      | yes e ↦ let src : s + (a - d) ≡ s = omega arith in ground (arith, ap m src)
      | no ne ↦ elim (Bool-cases (within a d (suc n))) [
        | inl inside ↦
            let src : s + (a - d) ≡ s + 1 + (a - (d + 1)) = ground arith in
            let away : d ≢ s + 1 + (a - (d + 1)) = ground arith in ground (arith, ap m src)
        | inr out ↦ ground arith
      ]
    ]

-- `memmove` gives each byte of the destination what the source held before the call, also where the
-- two blocks overlap, and changes no other byte.
pub memmove_lem :
    (dst src n : ℕ) (m : Memory) (a : ℕ)
    → memmove dst src n m a ≡ (if within a dst n then m (src + (a - dst)) else m a)
unfolding memmove
memmove_lem dst src n m a = elim (Bool-cases (ltb src dst && ltb dst (src + n))) [
  | inl over ↦ rw over (move_down_lem n dst src m a (ground arith))
  | inr apart ↦ rw apart (move_up_lem n dst src m a (split apart))
]
  where
    split : (ltb src dst && ltb dst (src + n)) ≡ false → (dst ≤ src) ⊎ (src + n ≤ dst)
    split h = ground arith
