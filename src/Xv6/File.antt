-- ===== src/Xv6/File.antt =====
-- Asg02/xv6-2/file.c: the table of open files and its reference counts. `ftable.lock` makes each
-- critical section one step. A `struct file *` is an index of the table, and lies inside it.
pub mod Refs
pub mod Io
mod Tests
use cs5460spring.Base.{
  ℕ, ◌+◌, ◌-◌, List, [], ◌∷◌, Option, none, some, Bool, if◌then◌else◌, ltb, ◌==◌, modify, get_elem?,
}

pub data FileType : Type 0 where
  fd_none fd_pipe fd_inode : FileType

-- `struct file`. `pipe` and `ip` are addresses.
pub record File : Type 0 where
  pub type : FileType
  pub ref : ℕ
  pub readable : Bool
  pub writable : Bool
  pub pipe : ℕ
  pub ip : ℕ
  pub off : ℕ

-- The search loop of `filealloc`, from index `i` on.
pub find_free : List File → ℕ → Option ℕ
find_free [] i = none
find_free (f ∷ files) i = if f.ref == 0 then some i else find_free files (i + 1)

-- `none` is the null pointer; the table is then as before.
pub filealloc : List File → Option (ℕ × List File)
unfolding find_free
filealloc files = elim (find_free files 0) [
  | none ↦ none
  | some i ↦ some (i, modify files i (λ f. record f { ref = 1 }))
]

-- `none` is a panic. The count does not overflow its `int`: each reference is a descriptor of one of
-- the 64 processes, 16 at most in each, or held by a call in progress.
pub filedup : ℕ → List File → Option (List File)
filedup i files = elim (get_elem? files i) [
  | none ↦ none
  | some f ↦ if ltb f.ref 1 then none else some (modify files i (λ g. record g { ref = f.ref + 1 }))
]

-- What a file stands for is given up: by `pipeclose`, or by `iput` in a transaction of its own.
pub data Release : Type 0 where
  pipeclose : ℕ → Bool → Release
  begin_op : Release
  iput : ℕ → Release
  end_op : Release

-- The end of `fileclose`, on its copy of the entry.
abbrev pub release_of : File → List Release
release_of f = elim (f.type) [
  | fd_pipe ↦ pipeclose f.pipe f.writable ∷ []
  | fd_inode ↦ begin_op ∷ iput f.ip ∷ end_op ∷ []
  | fd_none ↦ []
]

pub fileclose : ℕ → List File → Option (List File × List Release)
fileclose i files = elim (get_elem? files i) [
  | none ↦ none
  | some f ↦
      if ltb f.ref 1
      then none
      else if ltb 0 (f.ref - 1)
      then some (modify files i (λ g. record g { ref = f.ref - 1 }), [])
      else some (modify files i (λ g. record g { ref = 0; type = fd_none }), release_of f)
]
