-- ===== src/Xv6/Sysfile.antt =====
-- Asg02/xv6-2/sysfile.c: the system calls on files and paths. `ofile` is the caller's table of open
-- files, and `cwd` its directory. A result of -1 is its 32-bit pattern; a panic is `none`.
pub mod Fds
pub mod Open
use cs5460spring.Base.{
  ℕ, ◌+◌, ◌-◌, ◌*◌, ◌/◌, ◌%◌, ◌^◌, zero, suc, Option, none, some, Bool, true, false, not, ◌&&◌,
  ◌||◌, if◌then◌else◌, ltb, leb, ◌==◌,
}
use cs5460spring.Xv6.Str.{Memory}
use cs5460spring.Xv6.Syscall.{Caller, argint, argstr}
use cs5460spring.Xv6.Fs.Inode.{Inode, load_half}
use cs5460spring.Xv6.Fs.Content.{minus_one}
use cs5460spring.Xv6.Fs.Names.{
  Act, ◌>>=◌, ◌>>◌, pure, panic, entry, put_entry, ilock_at, iupdate_at, iput_at, iunlockput_at,
  ialloc_at, dirent_size, t_dir, t_file, namecmp, read_dirent, write_dirent, dirlookup, dirlink,
  namei, nameiparent,
}

-- A path argument: the rounds for it, and its bytes.
abbrev pub path_arg : Caller → ℕ → Option (ℕ × Memory)
path_arg p n = elim (argstr p n) [
  | none ↦ none
  | some (addr, len) ↦ some (len + 1, λ i. p.memory (addr + i))
]

-- `nlink` by one more or less, on disk too; it is a short.
abbrev pub add_link : ℕ → Act (Unit {0})
add_link i = do
  ip ← entry i
  put_entry i (record ip { nlink = (ip.nlink + 1) % 2 ^ 16 })
  iupdate_at i

abbrev pub drop_link : ℕ → Act (Unit {0})
drop_link i = do
  ip ← entry i
  put_entry i (record ip { nlink = (ip.nlink + 2 ^ 16 - 1) % 2 ^ 16 })
  iupdate_at i

-- "." and "..".
abbrev pub dot : Memory
dot i = if i == 0 then 46 else 0

abbrev pub dot_dot : Memory
dot_dot i = if ltb i 2 then 46 else 0

module _ (reads : ℕ → Option (ℕ → Memory → ℕ × Memory)) (writes : ℕ → Option (ℕ → Memory → ℕ)) where
  -- `bad` of `sys_link`.
  pub unlink_back : ℕ → Act ℕ
  unlink_back i = do ilock_at i; drop_link i; iunlockput_at i; pure minus_one

  -- `sys_link` once `ip` is there and counted.
  pub link_to : ℕ → ℕ → Memory → ℕ → Act ℕ
  unfolding unlink_back
  link_to i rounds new cwd = do
    r ← nameiparent reads writes rounds new cwd (λ j. 0)
    let (parent, name) = r in
        elim parent [
          | none ↦ unlink_back i
          | some d ↦ do
            ilock_at d
            dp ← entry d
            ip ← entry i
            linked ← if dp.dev == ip.dev then dirlink reads writes d name (ip.inum) else pure false
            iunlockput_at d
            if linked then (do iput_at i; pure 0) else unlink_back i
        ]

  unfoldable pub sys_link : Caller → ℕ → Act ℕ
  unfolding link_to
  sys_link p cwd = elim (path_arg p 0) [
    | none ↦ pure minus_one
    | some (rounds, old) ↦ elim (path_arg p 1) [
      | none ↦ pure minus_one
      | some (rounds', new) ↦ do
        found ← namei reads writes rounds old cwd
        elim found [
          | none ↦ pure minus_one
          | some i ↦ do
            ilock_at i
            ip ← entry i
            if ip.type == t_dir
                then (do iunlockput_at i; pure minus_one)
                else (do add_link i; link_to i rounds' new cwd)
        ]
    ]
  ]

  -- The loop of `isdirempty`, with rounds left.
  pub empty_dir_from : ℕ → ℕ → ℕ → Act Bool
  empty_dir_from zero i off = panic
  empty_dir_from (suc k) i off = do
    dp ← entry i
    if not (ltb off dp.size) then pure true else do
      de ← read_dirent reads writes i off
      if load_half de 0 == 0 then empty_dir_from k i (off + dirent_size) else pure false

  pub isdirempty : ℕ → Act Bool
  unfolding empty_dir_from
  isdirempty i = do dp ← entry i; empty_dir_from (dp.size / dirent_size + 2) i (2 * dirent_size)

  -- `bad` of `sys_unlink`.
  abbrev pub refuse_unlink : ℕ → Act ℕ
  refuse_unlink d = do iunlockput_at d; pure minus_one

  -- `sys_unlink` of the entry at `off` of `d`, which names `i`.
  pub unlink_at : ℕ → ℕ → ℕ → Act ℕ
  unfolding isdirempty
  unlink_at d i off = do
    ilock_at i
    ip ← entry i
    if ltb (ip.nlink) 1 || leb (2 ^ 15) (ip.nlink) then panic else do
      empty ← if ip.type == t_dir then isdirempty i else pure true
      if not empty then (do iunlockput_at i; refuse_unlink d) else do
        write_dirent reads writes d off (λ a. 0)
        if ip.type == t_dir then drop_link d else pure tt
        iunlockput_at d
        drop_link i
        iunlockput_at i
        pure 0

  unfoldable pub sys_unlink : Caller → ℕ → Act ℕ
  unfolding unlink_at
  sys_unlink p cwd = elim (path_arg p 0) [
    | none ↦ pure minus_one
    | some (rounds, path) ↦ do
      r ← nameiparent reads writes rounds path cwd (λ j. 0)
      let (parent, name) = r in
          elim parent [
            | none ↦ pure minus_one
            | some d ↦ do
              ilock_at d
              if namecmp name dot == 0 || namecmp name dot_dot == 0 then refuse_unlink d else do
                found ← dirlookup reads writes d name
                elim found [ none ↦ refuse_unlink d | some (i, off) ↦ unlink_at d i off ]
          ]
  ]

  -- The name is there already.
  pub create_found : ℕ → ℕ → ℕ → Act (Option ℕ)
  create_found type d i = do
    iunlockput_at d
    ilock_at i
    ip ← entry i
    if type == t_file && ip.type == t_file then pure (some i) else (do iunlockput_at i; pure none)

  -- "." and ".." of the new directory `i` in `d`.
  pub make_dots : ℕ → ℕ → ℕ → ℕ → Act Bool
  make_dots d i parent inum = do
    add_link d
    one ← dirlink reads writes i dot inum
    if one then dirlink reads writes i dot_dot parent else pure false

  -- A new inode in the directory `d`.
  pub create_new : ℕ → ℕ → ℕ → ℕ → Memory → Act (Option ℕ)
  unfolding make_dots
  create_new type major minor d name = do
    dp ← entry d
    i ← ialloc_at (dp.dev) type
    ilock_at i
    ip ← entry i
    put_entry i (record ip { major = major; minor = minor; nlink = 1 })
    iupdate_at i
    dots ← if type == t_dir then make_dots d i (dp.inum) (ip.inum) else pure true
    if not dots then panic else do
      linked ← dirlink reads writes d name (ip.inum)
      if not linked then panic else (do iunlockput_at d; pure (some i))

  -- `create`, of shorts; the inode that it answers is locked.
  pub create : ℕ → Memory → ℕ → ℕ → ℕ → ℕ → Act (Option ℕ)
  unfolding create_found create_new
  create rounds path type major minor cwd = do
    r ← nameiparent reads writes rounds path cwd (λ j. 0)
    let (parent, name) = r in
        elim parent [
          | none ↦ pure none
          | some d ↦ do
            ilock_at d
            found ← dirlookup reads writes d name
            elim found [
              | some (i, off) ↦ create_found type d i
              | none ↦ create_new type major minor d name
            ]
        ]

  -- `sys_mkdir`, and `sys_mknod` with its other arguments.
  pub make : Caller → ℕ → ℕ → ℕ → ℕ → Act ℕ
  unfolding create
  make p type major minor cwd = elim (path_arg p 0) [
    | none ↦ pure minus_one
    | some (rounds, path) ↦ do
      r ← create rounds path type major minor cwd
      elim r [ none ↦ pure minus_one | some i ↦ do iunlockput_at i; pure 0 ]
  ]

  unfoldable pub sys_mkdir : Caller → ℕ → Act ℕ
  unfolding make
  sys_mkdir p cwd = make p t_dir 0 0 cwd

  unfoldable pub sys_mknod : Caller → ℕ → Act ℕ
  unfolding make
  sys_mknod p cwd = elim (argint p 1) [
    | none ↦ pure minus_one
    | some major ↦ elim (argint p 2) [
      | none ↦ pure minus_one
      | some minor ↦ make p 3 (major % 2 ^ 16) (minor % 2 ^ 16) cwd
    ]
  ]

  -- `sys_chdir`: the result and the new directory.
  unfoldable pub sys_chdir : Caller → ℕ → Act (ℕ × ℕ)
  sys_chdir p cwd = elim (path_arg p 0) [
    | none ↦ pure (minus_one, cwd)
    | some (rounds, path) ↦ do
      found ← namei reads writes rounds path cwd
      elim found [
        | none ↦ pure (minus_one, cwd)
        | some i ↦ do
          ilock_at i
          ip ← entry i
          if not (ip.type == t_dir)
              then (do iunlockput_at i; pure (minus_one, cwd))
              else (do iput_at cwd; pure (0, i))
      ]
  ]
