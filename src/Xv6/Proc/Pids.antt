-- ===== src/Xv6/Proc/Pids.antt =====
-- Asg02/xv6-2/proc.c: process numbers are handed out once.
use cs5460spring.Base.{
  ℕ, ◌+◌, ◌<◌, ◌≡◌, ◌≢◌, ◌⊎◌, inl, inr, ◌∙◌, ap, refl, some, arith, get_elem?, modify,
  get_elem?-modify_inv,
}
use cs5460spring.Xv6.Proc.Table.{Proc, Ptable, with_proc}

-- No two entries have the same number, but for 0, and all numbers are below the next one.
pub record IsNumbered (t : Ptable) : Type 0 where
  pub positive : 0 < t.nextpid
  pub below : (i : ℕ) (p : Proc) → get_elem? t.procs i ≡ some p → p.pid < t.nextpid
  pub unique :
      (i j : ℕ) (p q : Proc)
      → get_elem? t.procs i ≡ some p
      → get_elem? t.procs j ≡ some q
      → p.pid ≡ q.pid
      → p.pid ≢ 0
      → i ≡ j

-- Each entry of the second table has the number that it has in the first, or 0.
pub Renumbered : Ptable → Ptable → Type 0
Renumbered t u =
    (u.nextpid ≡ t.nextpid)
    × ((j : ℕ) (q : Proc)
        → get_elem? u.procs j ≡ some q
        → (p : Proc) × (get_elem? t.procs j ≡ some p) × ((q.pid ≡ p.pid) ⊎ (q.pid ≡ 0)))

pub Renumbered-IsNumbered : (t u : Ptable) → Renumbered t u → IsNumbered t → IsNumbered u
unfolding Renumbered
Renumbered-IsNumbered t u r n = record {
  positive = omega (arith, r.0, n.positive);
  below = λ i q at.
      let (p, was, how) = r.1 i q at in omega (arith, r.0, n.below i p was, n.positive, how);
  unique = λ i j q q' at at' same nonzero.
      let (p, was, how) = r.1 i q at in
      let (p', was', how') = r.1 j q' at' in
      n.unique i j p p' was was' (omega (arith, how, how')) (omega (arith, how));
}

pub Renumbered-refl : (t : Ptable) → Renumbered t t
unfolding Renumbered
Renumbered-refl t = (refl, λ j q at. (q, at, inl refl))

pub Renumbered-trans : (t u v : Ptable) → Renumbered t u → Renumbered u v → Renumbered t v
unfolding Renumbered
Renumbered-trans t u v r s = (
  s.0 ∙ r.0,
  λ j q at.
      let (p, was, how) = s.1 j q at in
      let (o, before, how') = r.1 j p was in
      (
        o,
        before,
        elim how [
          | inr zeroed ↦ inr zeroed
          | inl same ↦ elim how' [
            | inl same' ↦ inl (same ∙ same')
            | inr zeroed ↦ inr (same ∙ zeroed)
          ]
        ],
      ),
)

-- A change of one entry that keeps its number, or clears it.
pub Renumbered-with_proc :
    (t : Ptable) (i : ℕ) (f : Proc → Proc)
    → ((p : Proc) → ((f p).pid ≡ p.pid) ⊎ ((f p).pid ≡ 0))
    → Renumbered t (with_proc t i f)
unfolding Renumbered
Renumbered-with_proc t i f keep = (
  refl,
  λ j q at.
      let (p, was, how) = get_elem?-modify_inv t.procs i j f q at in
      (
        p,
        was,
        elim how [
          | inl (here, e) ↦ rw e (keep p)
          | inr (there, e) ↦ inl (ap (λ (r : Proc). r.pid) e)
        ],
      ),
)

-- The number that `allocproc` gives out is new.
pub claim-IsNumbered :
    (t : Ptable) (i : ℕ) (f : Proc → Proc)
    → ((p : Proc) → (f p).pid ≡ t.nextpid)
    → IsNumbered t
    → IsNumbered (record t { procs = modify t.procs i f; nextpid = t.nextpid + 1 })
claim-IsNumbered t i f new n = record {
  positive = omega arith;
  below = λ j q at.
      let (p, was, how) = get_elem?-modify_inv t.procs i j f q at in
      elim how [
        | inl (here, e) ↦ rw e (omega (arith, new p))
        | inr (there, e) ↦ rw e (omega (arith, n.below j p was))
      ];
  unique = λ j k q q' at at' same nonzero.
      distinct j k q q' (get_elem?-modify_inv t.procs i j f q at)
        (get_elem?-modify_inv t.procs i k f q' at') same nonzero;
}
  where
    distinct :
        (j k : ℕ) (q q' : Proc)
        → ((p : Proc) × (get_elem? t.procs j ≡ some p)
            × (((i ≡ j) × (q ≡ f p)) ⊎ ((i ≢ j) × (q ≡ p))))
        → ((p : Proc) × (get_elem? t.procs k ≡ some p)
            × (((i ≡ k) × (q' ≡ f p)) ⊎ ((i ≢ k) × (q' ≡ p))))
        → q.pid ≡ q'.pid
        → q.pid ≢ 0
        → j ≡ k
    distinct j k q q' (p, was, inl (a, e)) (p', was', inl (b, e')) same nonzero = omega arith
    distinct j k q q' (p, was, inl (a, e)) (p', was', inr (b, e')) same nonzero = absurd (
        omega (
          arith,
          n.below k p' was',
          new p,
          ap (λ (r : Proc). r.pid) e,
          ap (λ (r : Proc). r.pid) e',
        ))
    distinct j k q q' (p, was, inr (a, e)) (p', was', inl (b, e')) same nonzero = absurd (
        omega
          (arith, n.below j p was, new p', ap (λ (r : Proc). r.pid) e, ap (λ (r : Proc). r.pid) e'))
    distinct j k q q' (p, was, inr (a, e)) (p', was', inr (b, e')) same nonzero =
        n.unique j k p p' was was'
          (omega (arith, ap (λ (r : Proc). r.pid) e, ap (λ (r : Proc). r.pid) e'))
          (omega (arith, ap (λ (r : Proc). r.pid) e))
