-- ===== src/Xv6/Proc/Create.antt =====
-- Asg02/xv6-2/proc.c: `allocproc`, `fork`.
pub mod Search
pub mod Laws
use cs5460spring.Base.{
  ℕ, ◌+◌, ◌%◌, ◌^◌, List, [], ◌∷◌, ◌++◌, Option, none, some, if◌then◌else◌, ◌==◌, modify, get_elem?,
}
use cs5460spring.Xv6.Str.{safestrcpy}
use cs5460spring.Xv6.Proc.Table.{
  ProcState, unused, embryo, runnable, state_eq, Trapframe, Context, Proc, Ptable, Call, kfree,
  filedup, idup, with_proc,
}

-- The search loop of `allocproc`, from index `i` on.
unfoldable pub find_unused : List Proc → ℕ → Option ℕ
find_unused [] i = none
find_unused (p ∷ procs) i = if state_eq p.state unused then some i else find_unused procs (i + 1)

-- What the search claims of an entry, under the lock.
abbrev pub claim : ℕ → Proc → Proc
claim pid p = record p { state = embryo; pid = pid }

abbrev pub zero_context : Context
zero_context = record { edi = 0; esi = 0; ebx = 0; ebp = 0; eip = 0 }

-- The kernel stack's set-up; the addresses of `forkret` and `trapret` are the linker's.
abbrev pub set_stack : ℕ → ℕ → ℕ → Proc → Proc
set_stack forkret trapret page p = record p {
  kstack = page;
  trapret = trapret;
  context = record zero_context { eip = forkret };
}

-- `allocproc` at the entry that its search found. `nextpid` is an `int`, as its 32-bit pattern.
pub alloc_at : ℕ → ℕ → ℕ → Ptable → Option ℕ → Option ℕ × Ptable
alloc_at forkret trapret page t none = (none, t)
alloc_at forkret trapret page t (some i) =
    let t1 = record t {
      procs = modify t.procs i (claim t.nextpid);
      nextpid = (t.nextpid + 1) % 2 ^ 32;
    } in
    if page == 0
    then (none, with_proc t1 i (λ p. record p { kstack = 0; state = unused }))
    else (some i, with_proc t1 i (set_stack forkret trapret page))

-- `allocproc`, with the answer of its `kalloc`: the index of the new process, if any.
pub allocproc : ℕ → ℕ → ℕ → Ptable → Option ℕ × Ptable
allocproc forkret trapret page t = alloc_at forkret trapret page t (find_unused t.procs 0)

-- `fork`'s loop over `ofile`: an entry of the child is written only where the parent's is set.
abbrev pub copy_files : List (Option ℕ) → List (Option ℕ) → List (Option ℕ)
copy_files (some f ∷ fs) (g ∷ gs) = some f ∷ copy_files fs gs
copy_files (none ∷ fs) (g ∷ gs) = g ∷ copy_files fs gs
copy_files [] gs = gs
copy_files (f ∷ fs) [] = []

abbrev pub dup_calls : List (Option ℕ) → List Call
dup_calls [] = []
dup_calls (some f ∷ fs) = filedup f ∷ dup_calls fs
dup_calls (none ∷ fs) = dup_calls fs

-- The fields that `fork` sets from the parent, before the child is made runnable.
abbrev pub copy_proc : ℕ → Proc → ℕ → Proc → Proc
copy_proc cur curproc pgdir np = record np {
  pgdir = pgdir;
  sz = curproc.sz;
  parent = some cur;
  tf = record (curproc.tf) { eax = 0 };
  ofile = copy_files curproc.ofile np.ofile;
  cwd = curproc.cwd;
  name = safestrcpy np.name curproc.name 16;
}

-- A call's result (`none` is -1), the table after it, and the calls that it made.
pub record Forked : Type 0 where
  pub result : Option ℕ
  pub table : Ptable
  pub calls : List Call

abbrev pub pid_at : Ptable → ℕ → ℕ
pid_at t i = elim (get_elem? t.procs i) [ none ↦ 0 | some p ↦ p.pid ]

abbrev pub kstack_at : Ptable → ℕ → ℕ
kstack_at t i = elim (get_elem? t.procs i) [ none ↦ 0 | some p ↦ p.kstack ]

-- `fork` after its `allocproc`, with the answer of `copyuvm`, and with what the others do to the table
-- before the last stores to the new entry.
pub fork_at : (Ptable → Ptable) → ℕ → Proc → ℕ → Option ℕ × Ptable → Forked
fork_at others cur curproc pgdir (none, t1) = record { result = none; table = t1; calls = [] }
fork_at others cur curproc pgdir (some i, t1) =
    if pgdir == 0
    then record {
      result = none;
      table = with_proc (others t1) i (λ np. record np { kstack = 0; state = unused; pgdir = 0 });
      calls = kfree (kstack_at t1 i) ∷ [];
    }
    else (let t2 = with_proc t1 i (copy_proc cur curproc pgdir) in
        record {
          result = some (pid_at t2 i);
          table = with_proc (others t2) i (λ np. record np { state = runnable });
          calls = dup_calls curproc.ofile ++ (idup curproc.cwd ∷ []);
        })

-- `fork` by the process `curproc` at index `cur`, with the answers of `kalloc` and of `copyuvm`. It
-- holds `ptable.lock` in `allocproc` and again for the last store; `others` is what the others do to
-- the table in between.
pub fork : (Ptable → Ptable) → ℕ → ℕ → ℕ → Proc → ℕ → ℕ → Ptable → Forked
fork others forkret trapret cur curproc page pgdir t =
    fork_at others cur curproc pgdir (allocproc forkret trapret page t)
