-- ===== src/Xv6/Proc/Create/Laws.antt =====
-- Asg02/xv6-2/proc.c: `allocproc` and `fork`.
use cs5460spring.Base.{
  ℕ, ◌+◌, ◌%◌, ◌^◌, ◌<◌, ◌≡◌, ◌≢◌, inl, inr, ◌∙◌, ap, subst, refl, Option, none, some, arith, List,
  [], ◌∷◌, ◌++◌, ◌==◌, ==_of_ne, Bool-cases, get_elem?, modify, get_elem?-modify_self,
  get_elem?-modify_ne,
}
use cs5460spring.Xv6.Proc.Table.{Proc, Ptable, with_proc, unused, embryo, runnable, idup}
use cs5460spring.Xv6.Proc.Pids.{
  IsNumbered, Renumbered-IsNumbered, Renumbered-with_proc, claim-IsNumbered,
}
use cs5460spring.Xv6.Proc.Create.Search.{FirstUnused, find_unused-some}
use cs5460spring.Xv6.Proc.Create.{
  find_unused, alloc_at, allocproc, fork_at, fork, Forked, claim, copy_proc, pid_at, dup_calls,
  set_stack,
}

-- The changes of `fork` after `allocproc` keep every number or leave it out of use.
fork_at-IsNumbered :
    (others : Ptable → Ptable) (cur : ℕ) (curproc : Proc) (pgdir : ℕ) (found : Option ℕ)
    (t : Ptable)
    → ((v : Ptable) → IsNumbered v → IsNumbered (others v))
    → IsNumbered t
    → IsNumbered (fork_at others cur curproc pgdir (found, t)).table
unfolding fork_at
fork_at-IsNumbered others cur curproc pgdir none t keep n = n
fork_at-IsNumbered others cur curproc pgdir (some i) t keep n = elim (Bool-cases (pgdir == 0)) [
  | inl failed ↦ rw failed (
      Renumbered-IsNumbered (others t) _ (Renumbered-with_proc (others t) i _ (λ p. inl refl))
        (keep t n))
  | inr copied ↦
      let made : Ptable = with_proc t i (copy_proc cur curproc pgdir) in
      rw copied (
        Renumbered-IsNumbered (others made) _
          (Renumbered-with_proc (others made) i _ (λ p. inl refl))
          (keep made (
            Renumbered-IsNumbered t _
              (Renumbered-with_proc t i (copy_proc cur curproc pgdir) (λ p. inl refl)) n)))
]

alloc_at-IsNumbered :
    (forkret trapret page : ℕ) (t : Ptable) (found : Option ℕ)
    → t.nextpid + 1 < 2 ^ 31
    → IsNumbered t
    → IsNumbered (alloc_at forkret trapret page t found).1
unfolding alloc_at
alloc_at-IsNumbered forkret trapret page t none fits n = n
alloc_at-IsNumbered forkret trapret page t (some i) fits n = elim (Bool-cases (page == 0)) [
  | inl failed ↦
      rw failed
        (Renumbered-IsNumbered claimed _ (Renumbered-with_proc claimed i _ (λ p. inl refl)) n')
  | inr given ↦
      rw given
        (Renumbered-IsNumbered claimed _ (Renumbered-with_proc claimed i _ (λ p. inl refl)) n')
]
  where
    numbered : ℕ → Ptable
    numbered m = record t { procs = modify t.procs i (claim t.nextpid); nextpid = m }

    claimed : Ptable
    claimed = numbered ((t.nextpid + 1) % 2 ^ 32)

    n' : IsNumbered claimed
    n' =
        subst (λ (m : ℕ). IsNumbered (numbered m)) (omega (arith, fits))
          (claim-IsNumbered t i (claim t.nextpid) (λ p. refl) n)

-- While `nextpid` does not overflow its `int`, and if the others keep them so, process numbers stay
-- distinct and below the next one, whether `fork` succeeds or fails.
pub fork-IsNumbered :
    (others : Ptable → Ptable) (forkret trapret cur : ℕ) (curproc : Proc) (page pgdir : ℕ)
    (t : Ptable)
    → ((v : Ptable) → IsNumbered v → IsNumbered (others v))
    → t.nextpid + 1 < 2 ^ 31
    → IsNumbered t
    → IsNumbered (fork others forkret trapret cur curproc page pgdir t).table
unfolding fork allocproc
fork-IsNumbered others forkret trapret cur curproc page pgdir t keep fits n =
    fork_at-IsNumbered others cur curproc pgdir _ _ keep
      (alloc_at-IsNumbered forkret trapret page t (find_unused t.procs 0) fits n)

-- The changes that make a child of entry `i`, one after the other.
module _ (forkret trapret cur : ℕ) (curproc : Proc) (page pgdir i : ℕ) (t : Ptable) where
  abbrev claimed : List Proc
  claimed = modify t.procs i (claim t.nextpid)

  abbrev stacked : List Proc
  stacked = modify claimed i (set_stack forkret trapret page)

  abbrev copied : List Proc
  copied = modify stacked i (copy_proc cur curproc pgdir)

  abbrev child_of : Proc → Proc
  child_of old = copy_proc cur curproc pgdir (set_stack forkret trapret page (claim t.nextpid old))

  copied-at :
      {old : Proc} → get_elem? t.procs i ≡ some old → get_elem? copied i ≡ some (child_of old)
  copied-at e = get_elem?-modify_self stacked i (copy_proc cur curproc pgdir) (
      get_elem?-modify_self claimed i (set_stack forkret trapret page)
        (get_elem?-modify_self t.procs i (claim t.nextpid) e))

  copied-ne : (j : ℕ) → i ≢ j → get_elem? copied j ≡ get_elem? t.procs j
  copied-ne j ne =
      get_elem?-modify_ne stacked i j (copy_proc cur curproc pgdir) ne
      ∙ (get_elem?-modify_ne claimed i j (set_stack forkret trapret page) ne
          ∙ get_elem?-modify_ne t.procs i j (claim t.nextpid) ne)

  -- The table when `fork` has set the fields, and before the others have their turn.
  abbrev made : Ptable
  made = record t { procs = copied; nextpid = (t.nextpid + 1) % 2 ^ 32 }

  abbrev forked : (Ptable → Ptable) → Forked
  forked others = record {
    result = some (pid_at made i);
    table = with_proc (others made) i (λ np. record np { state = runnable });
    calls = dup_calls curproc.ofile ++ (idup curproc.cwd ∷ []);
  }

  fork-forked :
      (others : Ptable → Ptable)
      → page ≢ 0
      → pgdir ≢ 0
      → find_unused t.procs 0 ≡ some i
      → fork others forkret trapret cur curproc page pgdir t ≡ forked others
  unfolding fork allocproc
  fork-forked others has_page has_dir free =
      ap (λ f. fork_at others cur curproc pgdir (alloc_at forkret trapret page t f)) free
      ∙ (unfold alloc_at fork_at in rw (==_of_ne page 0 has_page, ==_of_ne pgdir 0 has_dir))

-- With a free entry, a page for the stack and a copied page table, `fork` returns the next process
-- number, and makes a child before the others have their turn: the child takes a free entry, and has
-- that number, the caller for its parent, its size, directory and registers but for a result of 0,
-- and the `killed` flag that the entry had; every other entry is as before, and the next number is
-- one more, as an `int`. Whatever the others then do, the child's entry is RUNNABLE and else as they
-- leave it, as is the rest of the table.
pub fork_creates :
    (others : Ptable → Ptable) (forkret trapret cur : ℕ) (curproc : Proc) (page pgdir i : ℕ)
    (t : Ptable)
    → page ≢ 0
    → pgdir ≢ 0
    → find_unused t.procs 0 ≡ some i
    → let r = fork others forkret trapret cur curproc page pgdir t in
      (r.result ≡ some t.nextpid)
      × ((before : Ptable) × (before.nextpid ≡ (t.nextpid + 1) % 2 ^ 32)
          × (before.initproc ≡ t.initproc)
          × ((old : Proc) × (child : Proc) × (get_elem? t.procs i ≡ some old)
              × (old.state ≡ unused)
              × (get_elem? before.procs i ≡ some child)
              × (child.state ≡ embryo)
              × (child.pid ≡ t.nextpid)
              × (child.parent ≡ some cur)
              × (child.pgdir ≡ pgdir)
              × (child.kstack ≡ page)
              × (child.sz ≡ curproc.sz)
              × (child.cwd ≡ curproc.cwd)
              × (child.tf ≡ record (curproc.tf) { eax = 0 })
              × (child.killed ≡ old.killed))
          × ((j : ℕ) → i ≢ j → get_elem? before.procs j ≡ get_elem? t.procs j)
          × ((p : Proc)
              → get_elem? (others before).procs i ≡ some p
              → get_elem? r.table.procs i ≡ some (record p { state = runnable }))
          × ((j : ℕ) → i ≢ j → get_elem? r.table.procs j ≡ get_elem? (others before).procs j)
          × (r.table.nextpid ≡ (others before).nextpid)
          × (r.table.initproc ≡ (others before).initproc))
fork_creates others forkret trapret cur curproc page pgdir i t has_page has_dir free =
    rw (fork-forked forkret trapret cur curproc page pgdir i t others has_page has_dir free) (
      ap (λ (o : Option Proc). some (elim o [ none ↦ 0 | some p ↦ p.pid ])) there,
      (
        before,
        refl,
        refl,
        (
          old,
          child_of forkret trapret cur curproc page pgdir i t old,
          here,
          f.free,
          there,
          refl,
          refl,
          refl,
          refl,
          refl,
          refl,
          refl,
          refl,
          refl,
        ),
        copied-ne forkret trapret cur curproc page pgdir i t,
        (λ p at. get_elem?-modify_self (others before).procs i _ at),
        (λ j ne. get_elem?-modify_ne (others before).procs i j _ ne),
        refl,
        refl,
      ),
    )
  where
    before : Ptable
    before = made forkret trapret cur curproc page pgdir i t

    f : FirstUnused t.procs 0 i
    f = find_unused-some t.procs 0 i free

    old : Proc
    old = f.proc

    here : get_elem? t.procs i ≡ some old
    here = ap (get_elem? t.procs) (omega (arith, f.index)) ∙ f.at

    there :
        get_elem? (copied forkret trapret cur curproc page pgdir i t) i
        ≡ some (child_of forkret trapret cur curproc page pgdir i t old)
    there = copied-at forkret trapret cur curproc page pgdir i t here
