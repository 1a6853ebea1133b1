-- ===== src/Xv6/Proc/Create/Search.antt =====
-- Asg02/xv6-2/proc.c: the search of `allocproc`.
use cs5460spring.Base.{
  ℕ, zero, suc, ◌+◌, ◌<◌, ◌≡◌, ◌≢◌, inl, inr, ◌∙◌, ap, refl, some, arith, List, [], ◌∷◌, false,
  Bool-cases, get_elem?,
}
use cs5460spring.Xv6.Proc.Table.{Proc, unused, state_eq, state_eq→eq}
use cs5460spring.Xv6.Proc.Create.{find_unused}

-- The search ends at the first UNUSED entry, `offset` entries on.
pub record FirstUnused (procs : List Proc) (k i : ℕ) : Type 0 where
  pub offset : ℕ
  pub index : i ≡ k + offset
  pub proc : Proc
  pub at : get_elem? procs offset ≡ some proc
  pub free : proc.state ≡ unused
  pub first : (j : ℕ) (q : Proc) → j < offset → get_elem? procs j ≡ some q → q.state ≢ unused

pub find_unused-some :
    (procs : List Proc) (k i : ℕ) → find_unused procs k ≡ some i → FirstUnused procs k i
unfolding find_unused
find_unused-some [] k i e = cc
find_unused-some (p ∷ procs) k i e = elim (Bool-cases (state_eq p.state unused)) [
  | inl free ↦ record {
    offset = 0;
    index = ground arith;
    proc = p;
    at = refl;
    free = state_eq→eq p.state unused free;
    first = λ j q lt at. absurd (omega arith);
  }
  | inr busy ↦ later busy (find_unused-some procs (k + 1) i (rw busy at e))
]
  where
    later :
        state_eq p.state unused ≡ false → FirstUnused procs (k + 1) i → FirstUnused (p ∷ procs) k i
    later busy rest = record {
      offset = suc rest.offset;
      index = omega (arith, rest.index);
      proc = rest.proc;
      at = rest.at;
      free = rest.free;
      first = first;
    }
      where
        first :
            (j : ℕ) (q : Proc)
            → j < suc rest.offset
            → get_elem? (p ∷ procs) j ≡ some q
            → q.state ≢ unused
        first zero q lt at = λ same. ground arith
        first (suc j) q lt at = rest.first j q (omega arith) at

-- Conversely the first UNUSED entry is the one that the search finds.
pub find_unused-here :
    (procs : List Proc) (k m : ℕ) (p : Proc)
    → get_elem? procs m ≡ some p
    → p.state ≡ unused
    → ((j : ℕ) (q : Proc) → j < m → get_elem? procs j ≡ some q → q.state ≢ unused)
    → find_unused procs k ≡ some (k + m)
unfolding find_unused
find_unused-here [] k m p at free first = cc
find_unused-here (q ∷ procs) k zero p at free first = ground arith
find_unused-here (q ∷ procs) k (suc m) p at free first = rw (busy) (
    find_unused-here procs (k + 1) m p at free (λ j r lt e. first (suc j) r (omega arith) e)
    ∙ ap (λ (n : ℕ). some n) (omega arith))
  where
    busy : state_eq q.state unused ≡ false
    busy = ground (arith, first 0 q (omega arith) refl, state_eq→eq q.state unused)
