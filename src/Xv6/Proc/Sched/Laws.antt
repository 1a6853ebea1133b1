-- ===== src/Xv6/Proc/Sched/Laws.antt =====
-- Asg02/xv6-2/proc.c: `kill`.
use cs5460spring.Base.{
  ℕ, zero, suc, ◌<◌, ◌≡◌, ◌≢◌, ◌⊎◌, inl, inr, ◌∙◌, ap, refl, Option, none, some, arith, List, [],
  ◌∷◌, Bool, true, false, ◌==◌, ==_iff, ==_of_ne, ℕ_discrete, get_elem?,
}
use cs5460spring.Xv6.Proc.Table.{sleeping, runnable, Proc, Ptable}
use cs5460spring.Xv6.Proc.Sched.{kill_one, kill_from, kill}

-- What the loop of `kill` does from one entry on.
KillSpec : ℕ → List Proc → List Proc → Bool → Type 0
KillSpec pid procs after true =
    (i : ℕ) × (p : Proc) × (get_elem? procs i ≡ some p)
    × (p.pid ≡ pid)
    × ((j : ℕ) (q : Proc) → j < i → get_elem? procs j ≡ some q → q.pid ≢ pid)
    × (get_elem? after i ≡ some (kill_one p))
    × ((j : ℕ) → i ≢ j → get_elem? after j ≡ get_elem? procs j)
KillSpec pid procs after false =
    (after ≡ procs) × ((j : ℕ) (q : Proc) → get_elem? procs j ≡ some q → q.pid ≢ pid)

kill_skip :
    (pid : ℕ) (p : Proc) (procs rest : List Proc) (found : Bool)
    → p.pid ≢ pid
    → KillSpec pid procs rest found
    → KillSpec pid (p ∷ procs) (p ∷ rest) found
unfolding KillSpec
kill_skip pid p procs rest true ne (i, q, at, same, first, changed, others) =
    (suc i, q, at, same, first', changed, others')
  where
    first' : (j : ℕ) (r : Proc) → j < suc i → get_elem? (p ∷ procs) j ≡ some r → r.pid ≢ pid
    first' zero r lt at' =
        λ e. ne (ap (λ (o : Option Proc). elim o [ none ↦ 0 | some s ↦ s.pid ]) at' ∙ e)
    first' (suc j) r lt at' = first j r (omega arith) at'

    others' : (j : ℕ) → suc i ≢ j → get_elem? (p ∷ rest) j ≡ get_elem? (p ∷ procs) j
    others' zero h = refl
    others' (suc j) h = others j (λ e. h (ap suc e))
kill_skip pid p procs rest false ne (same, none_is) = (ap (◌∷◌ p) same, none_is')
  where
    none_is' : (j : ℕ) (r : Proc) → get_elem? (p ∷ procs) j ≡ some r → r.pid ≢ pid
    none_is' zero r at' =
        λ e. ne (ap (λ (o : Option Proc). elim o [ none ↦ 0 | some s ↦ s.pid ]) at' ∙ e)
    none_is' (suc j) r at' = none_is j r at'

kill_from-KillSpec :
    (pid : ℕ) (procs : List Proc)
    → KillSpec pid procs (kill_from pid procs).0 (kill_from pid procs).1
unfolding kill_from
kill_from-KillSpec pid [] = unfold KillSpec in (refl, λ j q at. absurd (cc at))
kill_from-KillSpec pid (p ∷ procs) = elim (ℕ_discrete p.pid pid) [
  | yes e ↦
      rw (hit e)
        (unfold KillSpec in (0, p, refl, e, (λ j q lt at. absurd (omega arith)), refl, others))
  | no ne ↦ rw (==_of_ne p.pid pid ne) (kill_skip pid p procs _ _ ne (kill_from-KillSpec pid procs))
]
  where
    hit : p.pid ≡ pid → (p.pid == pid) ≡ true
    hit e = (==_iff p.pid pid).1 e

    others : (j : ℕ) → 0 ≢ j → get_elem? (kill_one p ∷ procs) j ≡ get_elem? (p ∷ procs) j
    others zero h = absurd (h refl)
    others (suc j) h = refl

-- `kill` fails exactly if no entry has the number, and then changes nothing; else it marks the first
-- such entry as killed, makes it RUNNABLE if it sleeps, and changes no other.
pub kill_complete :
    (pid : ℕ) (t : Ptable)
    → let (t', found) = kill pid t in
      (t'.nextpid ≡ t.nextpid)
      × (((found ≡ false)
            × (t'.procs ≡ t.procs)
            × ((j : ℕ) (q : Proc) → get_elem? t.procs j ≡ some q → q.pid ≢ pid))
          ⊎ ((found ≡ true)
              × ((i : ℕ) × (p : Proc) × (p' : Proc) × (get_elem? t.procs i ≡ some p)
                  × (p.pid ≡ pid)
                  × ((j : ℕ) (q : Proc) → j < i → get_elem? t.procs j ≡ some q → q.pid ≢ pid)
                  × (get_elem? t'.procs i ≡ some p')
                  × (p'.killed ≡ true)
                  × (p.state ≡ sleeping → p'.state ≡ runnable)
                  × (p.state ≢ sleeping → p'.state ≡ p.state)
                  × ((j : ℕ) → i ≢ j → get_elem? t'.procs j ≡ get_elem? t.procs j))))
unfolding kill KillSpec
kill_complete pid t = (refl, cases _ _ (kill_from-KillSpec pid t.procs))
  where
    cases :
        (after : List Proc) (found : Bool)
        → KillSpec pid t.procs after found
        → ((found ≡ false)
            × (after ≡ t.procs)
            × ((j : ℕ) (q : Proc) → get_elem? t.procs j ≡ some q → q.pid ≢ pid))
          ⊎ ((found ≡ true)
              × ((i : ℕ) × (p : Proc) × (p' : Proc) × (get_elem? t.procs i ≡ some p)
                  × (p.pid ≡ pid)
                  × ((j : ℕ) (q : Proc) → j < i → get_elem? t.procs j ≡ some q → q.pid ≢ pid)
                  × (get_elem? after i ≡ some p')
                  × (p'.killed ≡ true)
                  × (p.state ≡ sleeping → p'.state ≡ runnable)
                  × (p.state ≢ sleeping → p'.state ≡ p.state)
                  × ((j : ℕ) → i ≢ j → get_elem? after j ≡ get_elem? t.procs j)))
    cases after false (same, none_is) = inl (refl, same, none_is)
    cases after true (i, p, at, same, first, changed, others) = inr (
      refl,
      (
        i,
        p,
        kill_one p,
        at,
        same,
        first,
        changed,
        ground arith,
        (λ s. ground arith),
        (λ s. ground arith),
        others,
      ),
    )
