-- ===== src/Xv6/Proc/Sched/Zero.antt =====
-- Asg02/xv6-2/proc.c: `kill` of number 0, which entries that are not in use have.
use cs5460spring.Base.{
  ℕ, ◌+◌, ◌<◌, ◌≡◌, ◌≢◌, inl, inr, ◌∙◌, sym, ap, Option, none, some, arith, List, Bool, true, false,
  dec_lt, get_elem?,
}
use cs5460spring.Xv6.Proc.Table.{unused, runnable, Proc, Ptable}
use cs5460spring.Xv6.Proc.Create.{find_unused, fork}
use cs5460spring.Xv6.Proc.Create.Search.{FirstUnused, find_unused-some, find_unused-here}
use cs5460spring.Xv6.Proc.Create.Laws.{fork_creates}
use cs5460spring.Xv6.Proc.Sched.{kill}
use cs5460spring.Xv6.Proc.Sched.Laws.{kill_complete}

find_unused-zero :
    (procs : List Proc) (m : ℕ) (p : Proc)
    → get_elem? procs m ≡ some p
    → p.state ≡ unused
    → ((j : ℕ) (q : Proc) → j < m → get_elem? procs j ≡ some q → q.state ≢ unused)
    → find_unused procs 0 ≡ some m
find_unused-zero procs m p at free first =
    let e : 0 + m ≡ m = omega arith in find_unused-here procs 0 m p at free first ∙ ap some e

killed_of : Option Proc → Bool
killed_of none = false
killed_of (some p) = p.killed

module _ (t : Ptable) (i : ℕ) (free : find_unused t.procs 0 ≡ some i) (old : Proc)
    (at : get_elem? t.procs i ≡ some old) (zero_pid : old.pid ≡ 0)
    (no_earlier : (j : ℕ) (q : Proc) → j < i → get_elem? t.procs j ≡ some q → q.pid ≢ 0) where
  f : FirstUnused t.procs 0 i
  f = find_unused-some t.procs 0 i free

  offset-i : f.offset ≡ i
  offset-i = omega (arith, f.index)

  old-unused : old.state ≡ unused
  old-unused =
      ap (λ (o : Option Proc). elim o [ none ↦ unused | some p ↦ p.state ])
        (sym at ∙ (ap (get_elem? t.procs) (sym offset-i) ∙ f.at))
      ∙ f.free

  -- The entry that `kill 0` finds is this one, and stays the first that is not in use.
  record Marked : Type 0 where
    found : (kill 0 t).1 ≡ true
    entry : Proc
    at_i : get_elem? (kill 0 t).0.procs i ≡ some entry
    dead : entry.killed ≡ true
    still : find_unused (kill 0 t).0.procs 0 ≡ some i

  marked : Marked
  marked = elim (kill_complete 0 t).1 [
    | inl (no_match, same, none_is) ↦ absurd (none_is i old at zero_pid)
    | inr (found, (k, p, p', at_k, pid_k, first, at', dead, woken, kept, others)) ↦
        let here : k ≡ i = unique k p at_k pid_k first in
        let at_i : get_elem? (kill 0 t).0.procs i ≡ some p' =
          ap (get_elem? (kill 0 t).0.procs) (sym here) ∙ at' in
        let free' : p.state ≡ unused = was k p here at_k in
        record {
          found = found;
          entry = p';
          at_i = at_i;
          dead = dead;
          still =
              find_unused-zero (kill 0 t).0.procs i p' at_i (kept (λ s. cc (sym free' ∙ s)) ∙ free')
                (λ j q lt at_q.
                  f.first j q (omega (arith, f.index)) (sym (others j (omega arith)) ∙ at_q));
        }
  ]
    where
      unique :
          (k : ℕ) (p : Proc)
          → get_elem? t.procs k ≡ some p
          → p.pid ≡ 0
          → ((j : ℕ) (q : Proc) → j < k → get_elem? t.procs j ≡ some q → q.pid ≢ 0)
          → k ≡ i
      unique k p at_k pid_k first = elim (dec_lt k i) [
        | yes lt ↦ absurd (no_earlier k p lt at_k pid_k)
        | no ge ↦ elim (dec_lt i k) [
          | yes lt ↦ absurd (first i old lt at zero_pid)
          | no le ↦ omega arith
        ]
      ]

      was : (k : ℕ) (p : Proc) → k ≡ i → get_elem? t.procs k ≡ some p → p.state ≡ unused
      was k p here at_k =
          ap (λ (o : Option Proc). elim o [ none ↦ unused | some q ↦ q.state ])
            (sym at_k ∙ (ap (get_elem? t.procs) here ∙ at))
          ∙ old-unused

-- When the first entry that is not in use has number 0, and no entry before it has, `kill 0` reports
-- success, and the next process that `fork` makes is born killed, if what the others do meanwhile
-- leaves a `killed` flag that is set in its entry.
pub kill_zero_poisons_fork :
    (t : Ptable) (i : ℕ)
    → find_unused t.procs 0 ≡ some i
    → (old : Proc) → get_elem? t.procs i ≡ some old
    → old.pid ≡ 0
    → ((j : ℕ) (q : Proc) → j < i → get_elem? t.procs j ≡ some q → q.pid ≢ 0)
    → (others : Ptable → Ptable)
    → ((v : Ptable) (p : Proc)
        → get_elem? v.procs i ≡ some p
        → p.killed ≡ true
        → (q : Proc) × (get_elem? (others v).procs i ≡ some q) × (q.killed ≡ true))
    → (forkret trapret cur : ℕ) (curproc : Proc) (page pgdir : ℕ) → page ≢ 0
    → pgdir ≢ 0
    → let (t1, found) = kill 0 t in
      (found ≡ true)
      × ((child : Proc) × (get_elem?
              (fork others forkret trapret cur curproc page pgdir t1).table.procs
              i
            ≡ some child)
          × (child.killed ≡ true))
kill_zero_poisons_fork t i free old at zero_pid no_earlier others stays forkret trapret cur curproc
      page pgdir has_page has_dir =
    let (res, (before, next, init, made, alone, last, kept_rest, next', init')) =
      fork_creates others forkret trapret cur curproc page pgdir i (kill 0 t).0 has_page has_dir
        m.still in
    let (was, child, at_was, idle, at_child, st, pid, par, dir, stack, size, cwd, tf, kept) =
      made in
    let dead : child.killed ≡ true =
      kept ∙ (unfold killed_of in (ap killed_of (sym at_was ∙ m.at_i) ∙ m.dead)) in
    let (q, at_q, still_dead) = stays before child at_child dead in
    (m.found, (record q { state = runnable }, last q at_q, still_dead))
  where
    m : Marked t i free old at zero_pid no_earlier
    m = marked t i free old at zero_pid no_earlier
