-- ===== src/Xv6/Proc/Exit/Orphans.antt =====
-- Asg02/xv6-2/proc.c: what `exit2` leaves to the parent and to init.
use cs5460spring.Base.{
  ℕ, zero, suc, ◌+◌, ◌≡◌, ◌≢◌, ◌⊎◌, inl, inr, ◌∙◌, sym, ap, subst, refl, Option, none, some, arith,
  List, [], ◌∷◌, ◌++◌, Bool, true, false, ◌&&◌, if◌then◌else◌, ltb, leb, ◌==◌, ==_refl, ==_of_ne,
  Bool-cases, Option-cases, ℕ_discrete, length, get_elem?, modify, get_elem?-modify_self,
  get_elem?-modify_ne, get_elem?-lt, get_elem?-map,
}
use mathlib.Core.Option
use cs5460spring.Xv6.Proc.Table.{
  sleeping, runnable, zombie, state_eq, state_eq→eq, Chan, at_proc, chan_of, points_to, chan_eq,
  Proc, Ptable, Call, begin_op, iput, end_op, wakeup1, wakeup_one,
}
use cs5460spring.Xv6.Proc.Exit.{
  adopt_one, adopt, exit_section, exit2, close_own, parent_at, close_calls,
}

-- How an entry may change while another process exits.
record Touched (cur : ℕ) (init : Option ℕ) (inside : Bool) (p q : Proc) : Type 0 where
  frame : q ≡ record p { state = q.state; parent = q.parent }
  parent_rule : q.parent ≡ (if inside && points_to p.parent cur then init else p.parent)
  state_rule : (q.state ≡ p.state) ⊎ ((p.state ≡ sleeping) × (q.state ≡ runnable))

wakeup_one-Touched :
    (cur : ℕ) (init : Option ℕ) (chan : Chan) (p : Proc)
    → Touched cur init false p (wakeup_one chan p)
wakeup_one-Touched cur init chan p =
    elim (Bool-cases (state_eq p.state sleeping && chan_eq p.chan chan)) [
      | inl hit ↦ rw hit (record {
        frame = refl;
        parent_rule = refl;
        state_rule = inr (state_eq→eq p.state sleeping (ground arith), refl);
      })
      | inr miss ↦ rw miss (record { frame = refl; parent_rule = refl; state_rule = inl refl })
    ]

Touched-trans :
    (cur : ℕ) (init : Option ℕ) (a : Bool) (p q r : Proc)
    → Touched cur init a p q
    → Touched cur init false q r
    → Touched cur init a p r
Touched-trans cur init a p q r x y = record {
  frame = y.frame ∙ ap (λ (o : Proc). record o { state = r.state; parent = r.parent }) x.frame;
  parent_rule = y.parent_rule ∙ x.parent_rule;
  state_rule = ground (arith, x.state_rule, y.state_rule);
}

Touched-after :
    (cur : ℕ) (init : Option ℕ) (b : Bool) (p q r : Proc)
    → Touched cur init false p q
    → Touched cur init b q r
    → Touched cur init b p r
Touched-after cur init b p q r x y = record {
  frame = y.frame ∙ ap (λ (o : Proc). record o { state = r.state; parent = r.parent }) x.frame;
  parent_rule =
      y.parent_rule ∙ ap (λ (o : Option ℕ). if b && points_to o cur then init else o) x.parent_rule;
  state_rule = ground (arith, x.state_rule, y.state_rule);
}

wakeup1-Touched :
    (cur : ℕ) (init : Option ℕ) (chan : Chan) (procs : List Proc) (j : ℕ) (p : Proc)
    → get_elem? procs j ≡ some p
    → (get_elem? (wakeup1 chan procs) j ≡ some (wakeup_one chan p))
      × Touched cur init false p (wakeup_one chan p)
unfolding wakeup1
wakeup1-Touched cur init chan procs j p at = (
  get_elem?-map (wakeup_one chan) procs j ∙ ap (Option.map (wakeup_one chan)) at,
  wakeup_one-Touched cur init chan p,
)

Touched-refl : (cur : ℕ) (init : Option ℕ) (p : Proc) → Touched cur init false p p
Touched-refl cur init p = record { frame = refl; parent_rule = refl; state_rule = inl refl }

-- One round of `adopt` changes the parent of a child at its own index only.
adopt_one-Touched :
    (cur : ℕ) (init : Option ℕ) (procs : List Proc) (i : ℕ) (here : Proc) (j : ℕ) (p : Proc)
    → get_elem? procs i ≡ some here
    → get_elem? procs j ≡ some p
    → (q : Proc) × (get_elem? (adopt_one cur init procs i here) j ≡ some q)
      × Touched cur init (i == j) p q
unfolding adopt_one
adopt_one-Touched cur init procs i here j p at_i at_j =
    elim (Bool-cases (points_to here.parent cur)) [
      | inr other ↦ rw other (p, at_j, unmoved other)
      | inl child ↦ rw child (elim (Bool-cases (state_eq here.state zombie)) [
        | inl dead ↦ rw dead (
            let (at_q, touched) =
              wakeup1-Touched cur init (chan_of init) moved j (moved-at child).0
                (moved-at child).1 in
            (
              wakeup_one (chan_of init) (moved-at child).0,
              at_q,
              Touched-trans cur init (i == j) p _ _ (moved-at child).2 touched,
            ))
        | inr alive ↦ rw alive (moved-at child)
      ])
    ]
  where
    same : i ≡ j → here ≡ p
    same e = ground (arith, ap (get_elem? procs) e)

    unmoved : points_to here.parent cur ≡ false → Touched cur init (i == j) p p
    unmoved other = record {
      frame = refl;
      parent_rule = ground (arith, same);
      state_rule = inl refl;
    }

    moved : List Proc
    moved = modify procs i (λ q. record q { parent = init })

    moved-at :
        points_to here.parent cur ≡ true
        → (q : Proc) × (get_elem? moved j ≡ some q) × Touched cur init (i == j) p q
    moved-at child = elim (ℕ_discrete i j) [
      | yes e ↦ (
        record p { parent = init },
        ap (get_elem? moved) (sym e)
            ∙ get_elem?-modify_self procs i _ (ap (get_elem? procs) e ∙ at_j),
        record { frame = refl; parent_rule = ground (arith, same); state_rule = inl refl },
      )
      | no ne ↦ (
        p,
        get_elem?-modify_ne procs i j _ ne ∙ at_j,
        rw (==_of_ne i j ne) (Touched-refl cur init p),
      )
    ]

-- The indices that the loop still visits.
abbrev ahead : ℕ → ℕ → ℕ → Bool
ahead n i j = leb i j && ltb j (i + n)

ahead_later : (n i j : ℕ) → i ≢ j → ahead (suc n) i j ≡ ahead n (i + 1) j
ahead_later n i j ne = ground arith

ahead_here : (n i j : ℕ) → i ≡ j → (ahead (suc n) i j ≡ true) × (ahead n (i + 1) j ≡ false)
ahead_here n i j e = ground arith

adopt-Touched :
    (n i cur : ℕ) (init : Option ℕ) (procs : List Proc) (j : ℕ) (p : Proc)
    → get_elem? procs j ≡ some p
    → (q : Proc) × (get_elem? (adopt n i cur init procs) j ≡ some q)
      × Touched cur init (ahead n i j) p q
unfolding adopt
adopt-Touched zero i cur init procs j p at = (p, at, rw (off) (Touched-refl cur init p))
  where
    off : ahead 0 i j ≡ false
    off = ground arith
adopt-Touched (suc n) i cur init procs j p at = elim (Option-cases (get_elem? procs i)) [
  | inl past ↦ rw past (
      let (q, at_q, touched) = adopt-Touched n (i + 1) cur init procs j p at in
      (q, at_q, rw (skip past) touched))
  | inr (here, at_i) ↦ rw at_i (
      let (q, at_q, first) = adopt_one-Touched cur init procs i here j p at_i at in
      let (r, at_r, later) =
        adopt-Touched n (i + 1) cur init (adopt_one cur init procs i here) j q at_q in
      (r, at_r, join q r first later))
]
  where
    skip : get_elem? procs i ≡ none → ahead (suc n) i j ≡ ahead n (i + 1) j
    skip past = ahead_later n i j (λ e. cc (sym past ∙ (ap (get_elem? procs) e ∙ at)))

    join :
        (q r : Proc)
        → Touched cur init (i == j) p q
        → Touched cur init (ahead n (i + 1) j) q r
        → Touched cur init (ahead (suc n) i j) p r
    join q r first later = elim (ℕ_discrete i j) [
      | yes e ↦
          subst (λ b. Touched cur init b p r) (sym (ahead_here n i j e).0)
            (Touched-trans cur init true p q r
              (subst (λ b. Touched cur init b p q) (ground arith) first)
              (subst (λ b. Touched cur init b q r) (ahead_here n i j e).1 later))
      | no ne ↦
          subst (λ b. Touched cur init b p r) (sym (ahead_later n i j ne))
            (Touched-after cur init (ahead n (i + 1) j) p q r
              (subst (λ b. Touched cur init b p q) (==_of_ne i j ne) first) later)
    ]

-- Every entry of the exiting process's critical section, before and after it.
section-entry :
    (status cur : ℕ) (parent : Option ℕ) (t : Ptable) (j : ℕ) (p : Proc)
    → get_elem? t.procs j ≡ some p
    → (q : Proc) × (get_elem?
          (adopt (length t.procs) 0 cur t.initproc (wakeup1 (chan_of parent) t.procs))
          j
        ≡ some q)
      × Touched cur t.initproc true p q
      × Touched cur t.initproc true (wakeup_one (chan_of parent) p) q
section-entry status cur parent t j p at =
    let (at_w, woken) = wakeup1-Touched cur t.initproc (chan_of parent) t.procs j p at in
    let (q, at_q, touched) =
      adopt-Touched (length t.procs) 0 cur t.initproc _ j (wakeup_one (chan_of parent) p) at_w in
    let touched' =
      subst (λ b. Touched cur t.initproc b (wakeup_one (chan_of parent) p) q) whole touched in
    (q, at_q, Touched-after cur t.initproc true p _ q woken touched', touched')
  where
    whole : ahead (length t.procs) 0 j ≡ true
    whole = ground (arith, get_elem?-lt t.procs j at)

wakes :
    (chan : Chan) (p : Proc)
    → p.state ≡ sleeping
    → p.chan ≡ chan
    → chan_eq chan chan ≡ true
    → (wakeup_one chan p).state ≡ runnable
wakes chan p slept on self = ground arith

-- Let a process other than init exit, and let `u` be the table when it takes `ptable.lock`, whatever
-- the others did while its files were closed. The exit goes through to `sched`, and leaves of `u`:
-- the caller a ZOMBIE with its number, its status and its parent; each of its children with init for
-- its parent, and every other process with the parent that it had; and the caller's parent, if it
-- slept in a wait, RUNNABLE.
pub exit2_hands_over :
    (others : Ptable → Ptable) (status cur : ℕ) (curproc mine : Proc) (t u : Ptable)
    → t.initproc ≢ some cur
    → others (close_own cur t) ≡ u
    → get_elem? u.procs cur ≡ some mine
    → (t' : Ptable) × (calls : List Call) × (exit2 others status cur curproc t ≡ some (t', calls))
      × ((z : Proc) × (get_elem? t'.procs cur ≡ some z)
          × (z.state ≡ zombie)
          × (z.exit_status ≡ status)
          × (z.pid ≡ mine.pid)
          × (mine.parent ≢ some cur → z.parent ≡ mine.parent))
      × ((j : ℕ) (p : Proc)
          → get_elem? u.procs j ≡ some p
          → cur ≢ j
          → (q : Proc) × (get_elem? t'.procs j ≡ some q)
            × (q.pid ≡ p.pid)
            × (p.parent ≡ some cur → q.parent ≡ u.initproc)
            × (p.parent ≢ some cur → q.parent ≡ p.parent)
            × (mine.parent ≡ some j → p.state ≡ sleeping → p.chan ≡ at_proc j → q.state ≡ runnable))
unfolding exit2
exit2_hands_over others status cur curproc mine t u not_init meanwhile at = (
  exit_section status cur mine.parent u,
  close_calls curproc.ofile ++ (begin_op ∷ iput curproc.cwd ∷ end_op ∷ []),
  rw (not_pointed, meanwhile, parent_is) refl,
  self,
  rest,
)
  where
    parent_is : parent_at u cur ≡ mine.parent
    parent_is = ap (λ (o : Option Proc). elim o [ none ↦ none | some p ↦ p.parent ]) at

    not_pointed : points_to t.initproc cur ≡ false
    not_pointed = ground arith

    parents :
        (p q : Proc)
        → Touched cur u.initproc true p q
        → (p.parent ≡ some cur → q.parent ≡ u.initproc)
          × (p.parent ≢ some cur → q.parent ≡ p.parent)
    parents p q touched =
        (λ mine. ground (arith, touched.parent_rule), λ other. ground (arith, touched.parent_rule))

    self :
        (z : Proc) × (get_elem? (exit_section status cur mine.parent u).procs cur ≡ some z)
        × (z.state ≡ zombie)
        × (z.exit_status ≡ status)
        × (z.pid ≡ mine.pid)
        × (mine.parent ≢ some cur → z.parent ≡ mine.parent)
    self =
        let (q, at_q, touched, woken) = section-entry status cur mine.parent u cur _ at in
        (
          record q { state = zombie; exit_status = status },
          get_elem?-modify_self _ cur _ at_q,
          refl,
          refl,
          ap (λ (o : Proc). o.pid) touched.frame,
          (parents _ q touched).1,
        )

    rest :
        (j : ℕ) (p : Proc)
        → get_elem? u.procs j ≡ some p
        → cur ≢ j
        → (q : Proc) × (get_elem? (exit_section status cur mine.parent u).procs j ≡ some q)
          × (q.pid ≡ p.pid)
          × (p.parent ≡ some cur → q.parent ≡ u.initproc)
          × (p.parent ≢ some cur → q.parent ≡ p.parent)
          × (mine.parent ≡ some j → p.state ≡ sleeping → p.chan ≡ at_proc j → q.state ≡ runnable)
    rest j p at_j ne =
        let (q, at_q, touched, woken) = section-entry status cur mine.parent u j p at_j in
        (
          q,
          get_elem?-modify_ne _ cur j _ ne ∙ at_q,
          ap (λ (o : Proc). o.pid) touched.frame,
          (parents p q touched).0,
          (parents p q touched).1,
          λ waits slept on.
              let up : (wakeup_one (chan_of mine.parent) p).state ≡ runnable =
                wakes (chan_of mine.parent) p slept (rw waits on) (rw waits (==_refl j)) in
              ground (arith, woken.state_rule, up),
        )
