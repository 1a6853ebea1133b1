-- ===== src/Xv6/Sysfile/Open.antt =====
-- Asg02/xv6-2/sysfile.c: `sys_open`.
use cs5460spring.Base.{ℕ, List, [], Option, none, some, not, ◌&&◌, if◌then◌else◌, ◌==◌, bit_and}
use cs5460spring.Xv6.Str.{Memory}
use cs5460spring.Xv6.Syscall.{Caller, argint}
use cs5460spring.Xv6.File.{File, Release}
use cs5460spring.Xv6.Fs.Content.{minus_one}
use cs5460spring.Xv6.Fs.Names.{
  Act, ◌>>=◌, ◌>>◌, pure, panic, entry, ilock_at, iunlockput_at, t_dir, t_file, namei,
}
use cs5460spring.Xv6.Sysfile.{path_arg, create}
use cs5460spring.Xv6.Sysfile.Fds.{open_file}

module _ (reads : ℕ → Option (ℕ → Memory → ℕ × Memory)) (writes : ℕ → Option (ℕ → Memory → ℕ)) where
  -- The inode, locked, that the path and the mode select; O_CREATE is 0x200.
  pub open_inode : ℕ → Memory → ℕ → ℕ → Act (Option ℕ)
  open_inode rounds path omode cwd =
      if not (bit_and omode 0x200 == 0) then create reads writes rounds path t_file 0 0 cwd else do
        found ← namei reads writes rounds path cwd
        elim found [
          | none ↦ pure none
          | some i ↦ do
            ilock_at i
            ip ← entry i
            if ip.type == t_dir && not (omode == 0)
                then (do iunlockput_at i; pure none)
                else pure (some i)
        ]

  -- The result, the caller's table, the open files, and what a last close gives up.
  unfoldable pub sys_open :
      Caller
      → ℕ
      → List (Option ℕ)
      → List File
      → Act (ℕ × List (Option ℕ) × List File × List Release)
  unfolding open_inode
  sys_open p cwd ofile files = elim (path_arg p 0) [
    | none ↦ pure (minus_one, ofile, files, [])
    | some (rounds, path) ↦ elim (argint p 1) [
      | none ↦ pure (minus_one, ofile, files, [])
      | some omode ↦ do
        opened ← open_inode rounds path omode cwd
        elim opened [
          | none ↦ pure (minus_one, ofile, files, [])
          | some i ↦ elim (open_file i omode ofile files) [
            | none ↦ panic
            | some (fd, ofile', files', released) ↦ elim fd [
              | none ↦ do iunlockput_at i; pure (minus_one, ofile', files', released)
              | some n ↦ pure (n, ofile', files', released)
            ]
          ]
        ]
    ]
  ]
