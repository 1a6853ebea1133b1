-- ===== src/Xv6/Sysfile/Fds.antt =====
-- Asg02/xv6-2/sysfile.c: file descriptors, over the table of open files of Xv6/File. -1 is its 32-bit
-- pattern, and `none` a panic.
use cs5460spring.Base.{
  ℕ, ◌+◌, ◌^◌, List, [], ◌∷◌, Option, none, some, not, ◌||◌, if◌then◌else◌, leb, ◌==◌, get_or, set,
  bit_and, modify, ◌++◌,
}
use cs5460spring.Xv6.Syscall.{Caller, argint, argptr}
use cs5460spring.Xv6.File.{File, fd_inode, filealloc, filedup, Release, fileclose}
use cs5460spring.Xv6.Fs.Content.{minus_one}

-- NOFILE.
abbrev pub nofile : ℕ
nofile = 16

-- `argfd`: the descriptor and its file.
pub argfd : Caller → List (Option ℕ) → ℕ → Option (ℕ × ℕ)
argfd p ofile n = elim (argint p n) [
  | none ↦ none
  | some fd ↦
      if leb (2 ^ 31) fd || leb nofile fd
      then none
      else elim (get_or ofile fd none) [ none ↦ none | some f ↦ some (fd, f) ]
]

-- The loop of `fdalloc` over the rest of the table.
pub fdalloc_from : List (Option ℕ) → ℕ → ℕ → Option (ℕ × List (Option ℕ))
fdalloc_from [] fd f = none
fdalloc_from (none ∷ fds) fd f = some (fd, some f ∷ fds)
fdalloc_from (some g ∷ fds) fd f = elim (fdalloc_from fds (fd + 1) f) [
  | none ↦ none
  | some (found, fds') ↦ some (found, some g ∷ fds')
]

pub fdalloc : ℕ → List (Option ℕ) → Option (ℕ × List (Option ℕ))
unfolding fdalloc_from
fdalloc f ofile = fdalloc_from ofile 0 f

-- The result, the caller's table and the open files.
unfoldable pub sys_dup :
    Caller → List (Option ℕ) → List File → Option (ℕ × List (Option ℕ) × List File)
unfolding argfd fdalloc
sys_dup p ofile files = elim (argfd p ofile 0) [
  | none ↦ some (minus_one, ofile, files)
  | some (old, f) ↦ elim (fdalloc f ofile) [
    | none ↦ some (minus_one, ofile, files)
    | some (fd, ofile') ↦ elim (filedup f files) [
      | none ↦ none
      | some files' ↦ some (fd, ofile', files')
    ]
  ]
]

-- With what the last close gives up.
unfoldable pub sys_close :
    Caller → List (Option ℕ) → List File → Option (ℕ × List (Option ℕ) × List File × List Release)
unfolding argfd
sys_close p ofile files = elim (argfd p ofile 0) [
  | none ↦ some (minus_one, ofile, files, [])
  | some (fd, f) ↦ elim (fileclose f files) [
    | none ↦ none
    | some (files', released) ↦ some (0, set ofile fd none, files', released)
  ]
]

-- The arguments of `sys_read` and `sys_write`: the file, the address and the number of bytes.
pub rw_args : Caller → List (Option ℕ) → Option (ℕ × ℕ × ℕ)
unfolding argfd
rw_args p ofile = elim (argfd p ofile 0) [
  | none ↦ none
  | some (fd, f) ↦ elim (argint p 2) [
    | none ↦ none
    | some n ↦ elim (argptr p 1 n) [ none ↦ none | some addr ↦ some (f, addr, n) ]
  ]
]

-- `sys_read` and `sys_write`, with what `fileread` or `filewrite` does.
unfoldable pub sys_read :
    {S : Type 0} → (ℕ → ℕ → ℕ → S → ℕ × S) → Caller → List (Option ℕ) → S → ℕ × S
unfolding rw_args
sys_read fileread p ofile s = elim (rw_args p ofile) [
  | none ↦ (minus_one, s)
  | some (f, addr, n) ↦ fileread f addr n s
]

unfoldable pub sys_write :
    {S : Type 0} → (ℕ → ℕ → ℕ → S → ℕ × S) → Caller → List (Option ℕ) → S → ℕ × S
unfolding rw_args
sys_write filewrite p ofile s = elim (rw_args p ofile) [
  | none ↦ (minus_one, s)
  | some (f, addr, n) ↦ filewrite f addr n s
]

-- `sys_fstat`, with what `filestat` does; `sizeof(struct stat)` is 20.
unfoldable pub sys_fstat : {S : Type 0} → (ℕ → ℕ → S → ℕ × S) → Caller → List (Option ℕ) → S → ℕ × S
unfolding argfd
sys_fstat filestat p ofile s = elim (argfd p ofile 0) [
  | none ↦ (minus_one, s)
  | some (fd, f) ↦ elim (argptr p 1 20) [ none ↦ (minus_one, s) | some st ↦ filestat f st s ]
]

-- The end of `sys_open`, for the inode `ip` that it has locked: the descriptor; else -1, and the
-- inode is to be unlocked and put. O_WRONLY is 1 and O_RDWR is 2.
unfoldable pub open_file :
    ℕ
    → ℕ
    → List (Option ℕ)
    → List File
    → Option (Option ℕ × List (Option ℕ) × List File × List Release)
unfolding fdalloc
open_file ip omode ofile files = elim (filealloc files) [
  | none ↦ some (none, ofile, files, [])
  | some (f, files') ↦ elim (fdalloc f ofile) [
    | none ↦ elim (fileclose f files') [
      | none ↦ none
      | some (files'', released) ↦ some (none, ofile, files'', released)
    ]
    | some (fd, ofile') ↦
        let wronly = not (bit_and omode 1 == 0) in
        some (
          some fd,
          ofile',
          modify files' f (λ g. record g {
            type = fd_inode;
            ip = ip;
            off = 0;
            readable = not wronly;
            writable = wronly || not (bit_and omode 2 == 0);
          }),
          [],
        )
  ]
]

-- The end of `sys_pipe`, for the two files of `pipealloc`: the two descriptors, or none.
unfoldable pub pipe_fds :
    ℕ
    → ℕ
    → List (Option ℕ)
    → List File
    → Option (Option (ℕ × ℕ) × List (Option ℕ) × List File × List Release)
unfolding fdalloc
pipe_fds rf wf ofile files =
    let undo : List (Option ℕ)
        → Option (Option (ℕ × ℕ) × List (Option ℕ) × List File × List Release) =
      λ ofile'. elim (fileclose rf files) [
        | none ↦ none
        | some (files', one) ↦ elim (fileclose wf files') [
          | none ↦ none
          | some (files'', two) ↦ some (none, ofile', files'', one ++ two)
        ]
      ] in
    elim (fdalloc rf ofile) [
      | none ↦ undo ofile
      | some (fd0, ofile') ↦ elim (fdalloc wf ofile') [
        | none ↦ undo (set ofile' fd0 none)
        | some (fd1, ofile'') ↦ some (some (fd0, fd1), ofile'', files, [])
      ]
    ]
