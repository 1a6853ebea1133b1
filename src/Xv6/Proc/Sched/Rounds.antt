-- ===== src/Xv6/Proc/Sched/Rounds.antt =====
-- Asg02/xv6-2/proc.c: the rounds of `scheduler`.
use cs5460spring.Base.{
  ℕ, zero, suc, ◌+◌, ◌≤◌, ◌<◌, ◌≡◌, ◌≢◌, inl, inr, ◌∙◌, sym, ap, refl, some, arith, List, [], ◌∷◌,
  ◌++◌, if◌then◌else◌, ◌==◌, ==_refl, ==_of_ne, Bool-cases, Option-cases, ℕ_discrete, get_elem?,
  get_elem?-modify_ne,
}
use cs5460spring.Xv6.Proc.Table.{runnable, state_eq, Proc, Ptable}
use cs5460spring.Xv6.Proc.Sched.{dispatch, scheduler_pass}

abbrev pub count : ℕ → List ℕ → ℕ
count j [] = 0
count j (k ∷ ks) = (if j == k then 1 else 0) + count j ks

count-append : (j : ℕ) (xs ys : List ℕ) → count j (xs ++ ys) ≡ count j xs + count j ys
count-append j [] ys = omega arith
count-append j (x ∷ xs) ys = omega (arith, count-append j xs ys)

module _ (run : ℕ → Ptable → Ptable) where
  dispatch-other : (i j : ℕ) (t : Ptable) → i ≢ j → count j (dispatch run i t).1 ≡ 0
  unfolding dispatch
  dispatch-other i j t ne = elim (Option-cases (get_elem? t.procs i)) [
    | inl past ↦ rw (past, dispatch)
    | inr (p, at) ↦
        rw (at, dispatch)
          (elim (Bool-cases (state_eq p.state runnable)) [
            | inl ready ↦ rw ready (rw (==_of_ne j i (λ e. ne (sym e))))
            | inr idle ↦ rw idle
          ])
  ]

  pass-past : (n i j : ℕ) (t : Ptable) → j < i → count j (scheduler_pass run n i t).1 ≡ 0
  unfolding scheduler_pass
  pass-past zero i j t h = refl
  pass-past (suc n) i j t h = omega (
    arith,
    count-append j (dispatch run i t).1 (scheduler_pass run n (i + 1) (dispatch run i t).0).1,
    dispatch-other i j t (omega arith),
    pass-past n (i + 1) j (dispatch run i t).0 (omega arith),
  )

  -- What a process does to the entry of another that is RUNNABLE: nothing.
  abbrev pub LeavesAlone : ℕ → Type 0
  LeavesAlone j =
      (i : ℕ) (t : Ptable) (p : Proc)
      → i ≢ j
      → get_elem? t.procs j ≡ some p
      → p.state ≡ runnable
      → (q : Proc) × (get_elem? (run i t).procs j ≡ some q) × (q.state ≡ runnable)

  dispatch-alone :
      (i j : ℕ) (t : Ptable) (p : Proc)
      → LeavesAlone j
      → i ≢ j
      → get_elem? t.procs j ≡ some p
      → p.state ≡ runnable
      → (q : Proc) × (get_elem? (dispatch run i t).0.procs j ≡ some q) × (q.state ≡ runnable)
  unfolding dispatch
  dispatch-alone i j t p alone ne at ready = elim (Option-cases (get_elem? t.procs i)) [
    | inl past ↦ rw (past, dispatch) (p, at, ready)
    | inr (o, at_i) ↦
        rw (at_i, dispatch)
          (elim (Bool-cases (state_eq o.state runnable)) [
            | inl go ↦ rw go (alone i _ p ne (get_elem?-modify_ne t.procs i j _ ne ∙ at) ready)
            | inr idle ↦ rw idle (p, at, ready)
          ])
  ]

  dispatch_self :
      (i : ℕ) (t : Ptable) (p : Proc)
      → get_elem? t.procs i ≡ some p
      → p.state ≡ runnable
      → count i (dispatch run i t).1 ≡ 1
  unfolding dispatch
  dispatch_self i t p at ready = rw (at, dispatch) (rw (ready, ==_refl i))

  -- In a pass of the scheduler over the table, a process that is RUNNABLE at its start, and whose
  -- entry the processes run before it leave alone, is dispatched exactly once.
  pub scheduler_pass_once :
      (n i j : ℕ) (t : Ptable) (p : Proc)
      → LeavesAlone j
      → i ≤ j
      → j < i + n
      → get_elem? t.procs j ≡ some p
      → p.state ≡ runnable
      → count j (scheduler_pass run n i t).1 ≡ 1
  unfolding scheduler_pass
  scheduler_pass_once zero i j t p alone lo hi at ready = absurd (omega arith)
  scheduler_pass_once (suc n) i j t p alone lo hi at ready =
      count-append j (dispatch run i t).1 _ ∙ elim (ℕ_discrete i j) [
        | yes e ↦ omega (
          arith,
          ap (λ (k : ℕ). count j (dispatch run k t).1) e ∙ dispatch_self j t p at ready,
          pass-past n (i + 1) j (dispatch run i t).0 (omega arith),
        )
        | no ne ↦
            let (q, at_q, ready_q) = dispatch-alone i j t p alone ne at ready in
            omega (
              arith,
              dispatch-other i j t ne,
              scheduler_pass_once n (i + 1) j (dispatch run i t).0 q alone (omega arith)
                  (omega arith) at_q ready_q,
            )
      ]
