-- ===== src/Xv6/File/Io.antt =====
-- Asg02/xv6-2/file.c: `filestat`, `fileread`, `filewrite`, on the file's entry with the pipe or the
-- cached inode that it stands for.
use cs5460spring.Base.{
  ℕ, zero, suc, ◌+◌, ◌-◌, ◌*◌, ◌/◌, ◌%◌, ◌^◌, min, List, Option, none, some, Bool, not, ◌&&◌,
  if◌then◌else◌, ltb, leb, ◌==◌,
}
use cs5460spring.Xv6.Str.{Memory}
use cs5460spring.Xv6.File.{fd_none, fd_pipe, fd_inode, File}
use cs5460spring.Xv6.Pipe.{Pipe, Channel, Ended, Others, pipewrite, piperead}
use cs5460spring.Xv6.Fs.{Fs}
use cs5460spring.Xv6.Fs.Inode.{Inode, ilock}
use cs5460spring.Xv6.Fs.Content.{minus_one, Stat, stati, readi, writei}

-- How a call ends: -1 for a file that does not allow it, a result of the pipe's, or the result with
-- the file, its inode and the disk; or a panic.
pub data Access {ℓ} (P A : Type ℓ) : Type ℓ where
  denied : Access P A
  piped : P → Access P A
  done : A → Access P A
  panicked : Access P A

-- `filestat`.
unfoldable pub filestat : File → Inode → Fs → Access Unit (Stat × Inode)
filestat f ip fs = elim (f.type) [
  | fd_inode ↦ elim (ilock ip fs) [ none ↦ panicked | some ip' ↦ done (stati ip', ip') ]
  | fd_pipe ↦ denied
  | fd_none ↦ denied
]

-- `r > 0` of a 32-bit pattern.
abbrev pub is_positive : ℕ → Bool
is_positive r = ltb 0 r && ltb r (2 ^ 31)

abbrev pub advance : ℕ → File → File
advance r f = if is_positive r then record f { off = (f.off + r) % 2 ^ 32 } else f

-- The functions of `devsw` by major number.
module _ (reads : ℕ → Option (ℕ → Memory → ℕ × Memory)) (writes : ℕ → Option (ℕ → Memory → ℕ)) where
  -- `fileread` of `n` bytes into the buffer `addr`; `sleeps` and `killed` are those of `piperead`.
  unfoldable pub fileread :
      List Others
      → Bool
      → File
      → Pipe
      → Inode
      → Memory
      → ℕ
      → Fs
      → Access (Ended × List ℕ × Pipe × List Channel) (ℕ × Memory × File × Inode × Fs)
  fileread sleeps killed f pipe ip addr n fs = if not f.readable then denied else elim (f.type) [
    | fd_none ↦ panicked
    | fd_pipe ↦ piped (piperead sleeps killed pipe n)
    | fd_inode ↦ elim (ilock ip fs) [
      | none ↦ panicked
      | some ip0 ↦ elim (readi reads ip0 addr (f.off) n fs) [
        | none ↦ panicked
        | some (r, addr', ip', fs') ↦ done (r, addr', advance r f, ip', fs')
      ]
    ]
  ]

  -- `((MAXOPBLOCKS-1-1-2) / 2) * 512`.
  abbrev pub write_max : ℕ
  write_max = (10 - 1 - 1 - 2) / 2 * 512

  -- The loop of `filewrite` at byte `i`, with rounds left: where it ends.
  pub write_rounds : ℕ → ℕ → ℕ → File → Inode → Memory → Fs → Option (ℕ × File × Inode × Fs)
  write_rounds zero i n f ip addr fs = none
  write_rounds (suc k) i n f ip addr fs =
      let n1 = min (n - i) write_max in
      let rest : Option (ℕ × File × Inode × Fs) = elim (ilock ip fs) [
        | none ↦ none
        | some ip0 ↦ elim (writei writes ip0 (λ j. addr (i + j)) (f.off) n1 fs) [
          | none ↦ none
          | some (r, ip', fs') ↦
              if leb (2 ^ 31) r
              then some (i, f, ip', fs')
              else if not (r == n1)
              then none
              else write_rounds k (i + r) n (advance r f) ip' addr fs'
        ]
      ] in
      if ltb i n then rest else some (i, f, ip, fs)

  -- The part of `filewrite` for an inode, with the pattern of `n`: one round for each
  -- full transaction, and two more.
  pub write_inode : File → Inode → Memory → ℕ → Fs → Option (ℕ × File × Inode × Fs)
  unfolding write_rounds
  write_inode f ip addr n fs =
      if leb (2 ^ 31) n
      then some (minus_one, f, ip, fs)
      else elim (write_rounds (n / write_max + 2) 0 n f ip addr fs) [
        | none ↦ none
        | some (i, f', ip', fs') ↦ some ((if i == n then n else minus_one), f', ip', fs')
      ]

  -- `filewrite` of the bytes of the buffer `addr`, which are listed for a pipe.
  unfoldable pub filewrite :
      List Others
      → Bool
      → File
      → Pipe
      → Inode
      → Memory
      → List ℕ
      → ℕ
      → Fs
      → Access (Ended × Pipe × List Channel) (ℕ × File × Inode × Fs)
  unfolding write_inode
  filewrite sleeps killed f pipe ip addr bytes n fs =
      if not f.writable then denied else elim (f.type) [
        | fd_none ↦ panicked
        | fd_pipe ↦ piped (pipewrite sleeps killed pipe bytes)
        | fd_inode ↦ elim (write_inode f ip addr n fs) [ none ↦ panicked | some r ↦ done r ]
      ]
