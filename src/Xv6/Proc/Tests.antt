-- ===== src/Xv6/Proc/Tests.antt =====
-- Asg02/xv6-2/proc.c: a table of init, its child, a zombie grandchild and a free entry.
use cs5460spring.Base.{
  ℕ, zero, suc, ◌<◌, ◌≡◌, ◌≢◌, refl, List, [], ◌∷◌, Option, none, some, true, false, arith,
  get_elem?, ◌⊎◌, inl, inr, ap, sym, ◌∙◌, get_elem?-modify_ne,
}
use cs5460spring.Xv6.Proc.Table.{
  unused, embryo, sleeping, runnable, running, zombie, null, at_proc, Proc, Ptable, Call, with_proc,
}
use cs5460spring.Xv6.Proc.Pids.{IsNumbered, Renumbered-IsNumbered, Renumbered-with_proc}
use cs5460spring.Xv6.Proc.Create.{find_unused, zero_context, fork}
use cs5460spring.Xv6.Proc.Create.Laws.{fork-IsNumbered, fork_creates}
use cs5460spring.Xv6.Proc.Exit.{wait_round, exit2}
use cs5460spring.Xv6.Proc.Exit.Laws.{WaitSpec, wait_round_complete}
use cs5460spring.Xv6.Proc.Exit.Orphans.{exit2_hands_over}
use cs5460spring.Xv6.Proc.Sched.{kill, scheduler_pass}
use cs5460spring.Xv6.Proc.Sched.Laws.{kill_complete}
use cs5460spring.Xv6.Proc.Sched.Zero.{kill_zero_poisons_fork}
use cs5460spring.Xv6.Proc.Sched.Rounds.{count, scheduler_pass_once}

abbrev free_entry : Proc
free_entry = record {
  sz = 0;
  pgdir = 0;
  kstack = 0;
  state = unused;
  pid = 0;
  parent = none;
  tf = record { eax = 0; others = [] };
  trapret = 0;
  context = zero_context;
  chan = null;
  killed = false;
  ofile = none ∷ none ∷ [];
  cwd = none;
  name = 0 ∷ 0 ∷ 0 ∷ 0 ∷ [];
  exit_status = 0;
}

abbrev init_proc : Proc
init_proc = record free_entry { state = sleeping; pid = 1; chan = at_proc 0 }

abbrev shell : Proc
shell = record free_entry {
  state = running;
  pid = 2;
  parent = some 0;
  sz = 4096;
  tf = record { eax = 5; others = 6 ∷ [] };
  ofile = some 3 ∷ none ∷ [];
  cwd = some 1;
}

abbrev child : Proc
child = record free_entry { state = zombie; pid = 3; parent = some 1; exit_status = 4 }

abbrev worker : Proc
worker = record free_entry { state = runnable; pid = 4; parent = some 1 }

abbrev table : Ptable
table = record {
  procs = init_proc ∷ shell ∷ child ∷ worker ∷ free_entry ∷ [];
  nextpid = 5;
  initproc = some 0;
}

abbrev number_of : Option Proc → ℕ
number_of none = 0
number_of (some p) = p.pid

table_numbers :
    (i : ℕ) (p : Proc)
    → get_elem? table.procs i ≡ some p
    → ((i < 4) × (p.pid ≡ suc i)) ⊎ ((i ≡ 4) × (p.pid ≡ 0))
table_numbers zero p at = inl (omega arith, sym (ap number_of at))
table_numbers (suc zero) p at = inl (omega arith, sym (ap number_of at))
table_numbers (suc (suc zero)) p at = inl (omega arith, sym (ap number_of at))
table_numbers (suc (suc (suc zero))) p at = inl (omega arith, sym (ap number_of at))
table_numbers (suc (suc (suc (suc zero)))) p at = inr (refl, sym (ap number_of at))
table_numbers (suc (suc (suc (suc (suc i))))) p at = absurd (ground (arith, at))

table-IsNumbered : IsNumbered table
table-IsNumbered = record {
  positive = omega arith;
  below = λ i p at. omega (arith, table_numbers i p at);
  unique =
      λ i j p q at at' same nonzero. omega (arith, table_numbers i p at, table_numbers j q at');
}

free_at : find_unused table.procs 0 ≡ some 4
unfolding find_unused
free_at = refl

-- While the shell is at work, its worker runs; the rest of the table stays.
abbrev worker_runs : Ptable → Ptable
worker_runs t = with_proc t 3 (λ p. record p { state = running })

worker_runs-IsNumbered : (v : Ptable) → IsNumbered v → IsNumbered (worker_runs v)
worker_runs-IsNumbered v n =
    Renumbered-IsNumbered v _ (Renumbered-with_proc v 3 _ (λ p. inl refl)) n

fork-IsNumbered_example : IsNumbered (fork worker_runs 7 8 1 shell 4096 8192 table).table
fork-IsNumbered_example =
    fork-IsNumbered worker_runs 7 8 1 shell 4096 8192 table worker_runs-IsNumbered (omega arith)
      table-IsNumbered

fork_creates_example :
    let r = fork worker_runs 7 8 1 shell 4096 8192 table in
    (r.result ≡ some 5)
    × ((before : Ptable) × (before.nextpid ≡ 6)
        × (before.initproc ≡ some 0)
        × ((old : Proc) × (new : Proc) × (get_elem? table.procs 4 ≡ some old)
            × (old.state ≡ unused)
            × (get_elem? before.procs 4 ≡ some new)
            × (new.state ≡ embryo)
            × (new.pid ≡ 5)
            × (new.parent ≡ some 1)
            × (new.pgdir ≡ 8192)
            × (new.kstack ≡ 4096)
            × (new.sz ≡ 4096)
            × (new.cwd ≡ some 1)
            × (new.tf ≡ record { eax = 0; others = 6 ∷ [] })
            × (new.killed ≡ old.killed))
        × ((j : ℕ) → 4 ≢ j → get_elem? before.procs j ≡ get_elem? table.procs j)
        × ((p : Proc)
            → get_elem? (worker_runs before).procs 4 ≡ some p
            → get_elem? r.table.procs 4 ≡ some (record p { state = runnable }))
        × ((j : ℕ) → 4 ≢ j → get_elem? r.table.procs j ≡ get_elem? (worker_runs before).procs j)
        × (r.table.nextpid ≡ (worker_runs before).nextpid)
        × (r.table.initproc ≡ (worker_runs before).initproc))
fork_creates_example =
    fork_creates worker_runs 7 8 1 shell 4096 8192 4 table (omega arith) (omega arith) free_at

wait_round_complete_example : WaitSpec 1 false table (wait_round 1 false table)
wait_round_complete_example = wait_round_complete 1 false table

abbrev closed_shell : Proc
closed_shell = record shell { ofile = none ∷ none ∷ []; cwd = none }

abbrev meanwhile : Ptable
meanwhile = record table {
  procs = init_proc ∷ closed_shell ∷ child ∷ record worker { state = running } ∷ free_entry ∷ [];
}

exit2_hands_over_example :
    (t' : Ptable) × (calls : List Call) × (exit2 worker_runs 9 1 shell table ≡ some (t', calls))
    × ((z : Proc) × (get_elem? t'.procs 1 ≡ some z)
        × (z.state ≡ zombie)
        × (z.exit_status ≡ 9)
        × (z.pid ≡ 2)
        × (closed_shell.parent ≢ some 1 → z.parent ≡ closed_shell.parent))
    × ((j : ℕ) (p : Proc)
        → get_elem? meanwhile.procs j ≡ some p
        → 1 ≢ j
        → (q : Proc) × (get_elem? t'.procs j ≡ some q)
          × (q.pid ≡ p.pid)
          × (p.parent ≡ some 1 → q.parent ≡ some 0)
          × (p.parent ≢ some 1 → q.parent ≡ p.parent)
          × (closed_shell.parent ≡ some j
              → p.state ≡ sleeping
              → p.chan ≡ at_proc j
              → q.state ≡ runnable))
exit2_hands_over_example =
    exit2_hands_over worker_runs 9 1 shell closed_shell table meanwhile (λ e. ground (arith, e))
      refl refl

kill_complete_example :
    let (t', found) = kill 1 table in
    (t'.nextpid ≡ 5)
    × (((found ≡ false)
          × (t'.procs ≡ table.procs)
          × ((j : ℕ) (q : Proc) → get_elem? table.procs j ≡ some q → q.pid ≢ 1))
        ⊎ ((found ≡ true)
            × ((i : ℕ) × (p : Proc) × (p' : Proc) × (get_elem? table.procs i ≡ some p)
                × (p.pid ≡ 1)
                × ((j : ℕ) (q : Proc) → j < i → get_elem? table.procs j ≡ some q → q.pid ≢ 1)
                × (get_elem? t'.procs i ≡ some p')
                × (p'.killed ≡ true)
                × (p.state ≡ sleeping → p'.state ≡ runnable)
                × (p.state ≢ sleeping → p'.state ≡ p.state)
                × ((j : ℕ) → i ≢ j → get_elem? t'.procs j ≡ get_elem? table.procs j))))
kill_complete_example = kill_complete 1 table

none_zero : (j : ℕ) (q : Proc) → j < 4 → get_elem? table.procs j ≡ some q → q.pid ≢ 0
none_zero j q lt at = λ z. omega (arith, table_numbers j q at)

kill_zero_poisons_fork_example :
    let (t1, found) = kill 0 table in
    (found ≡ true)
    × ((new : Proc) × (get_elem? (fork worker_runs 7 8 1 shell 4096 8192 t1).table.procs 4
          ≡ some new)
        × (new.killed ≡ true))
kill_zero_poisons_fork_example =
    kill_zero_poisons_fork table 4 free_at free_entry refl refl none_zero worker_runs
      (λ v p at dead. (p, get_elem?-modify_ne v.procs 3 4 _ (omega arith) ∙ at, dead)) 7 8 1 shell
      4096 8192 (omega arith) (omega arith)

-- The processes that run change nothing.
scheduler_pass_once_example : count 3 (scheduler_pass (λ i t. t) 5 0 table).1 ≡ 1
scheduler_pass_once_example =
    scheduler_pass_once (λ i t. t) 5 0 3 table worker (λ i t p ne at ready. (p, at, ready))
      (omega arith) (omega arith) refl refl
