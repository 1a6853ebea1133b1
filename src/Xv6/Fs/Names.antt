-- ===== src/Xv6/Fs/Names.antt =====
-- Asg02/xv6-2/fs.c: directories and paths, over the cache of inodes and the disk. The transaction
-- calls and the sleep locks are left out: an inode is used by the call that has it locked. A panic, or
-- rounds that run out, is `none`.
pub mod Element
mod Tests
use cs5460spring.Base.{
  ℕ, zero, suc, ◌+◌, ◌-◌, ◌/◌, List, Option, none, some, Bool, true, false, not, ◌&&◌, ◌||◌,
  if◌then◌else◌, ltb, leb, ◌==◌, get_elem?, set,
}
use cs5460spring.Xv6.Str.{Memory, store, strncmp, strncpy}
use cs5460spring.Xv6.Fs.{Fs}
use cs5460spring.Xv6.Fs.Inode.{Inode, load_half, store_half, iupdate, ilock, idup, iget, ialloc}
use cs5460spring.Xv6.Fs.Content.{moved, readi, writei, iput, iunlockput, minus_one}

-- `icache` and the disk.
pub record World : Type 0 where
  pub cache : List Inode
  pub fs : Fs

abbrev pub Act : Type 0 → Type 0
Act A = World → Option (A × World)

infixl 5 ◌>>=◌ ◌>>◌
abbrev pub ◌>>=◌ : {A B : Type 0} → Act A → (A → Act B) → Act B
◌>>=◌ m f w = elim (m w) [ none ↦ none | some (a, w') ↦ f a w' ]

abbrev pub ◌>>◌ : {A B : Type 0} → Act A → Act B → Act B
◌>>◌ m k w = elim (m w) [ none ↦ none | some (a, w') ↦ k w' ]

abbrev pub pure : {A : Type 0} → A → Act A
pure a w = some (a, w)

abbrev pub panic : {A : Type 0} → Act A
panic w = none

-- The entry `i` of the cache.
abbrev pub entry : ℕ → Act Inode
entry i w = elim (get_elem? w.cache i) [ none ↦ none | some ip ↦ some (ip, w) ]

abbrev pub put_entry : ℕ → Inode → Act (Unit {0})
put_entry i ip w = some (tt, record w { cache = set w.cache i ip })

-- A routine of Fs/Content on the entry `i`.
abbrev pub on_inode : ℕ → (Inode → Fs → Option (Inode × Fs)) → Act (Unit {0})
on_inode i f w = elim (get_elem? w.cache i) [
  | none ↦ none
  | some ip ↦ elim (f ip w.fs) [
    | none ↦ none
    | some (ip', fs') ↦ some (tt, record { cache = set w.cache i ip'; fs = fs' })
  ]
]

abbrev pub ilock_at : ℕ → Act (Unit {0})
ilock_at i = on_inode i (λ ip fs. elim (ilock ip fs) [ none ↦ none | some ip' ↦ some (ip', fs) ])

abbrev pub iupdate_at : ℕ → Act (Unit {0})
iupdate_at i = on_inode i (λ ip fs. some (ip, iupdate ip fs))

abbrev pub iput_at : ℕ → Act (Unit {0})
iput_at i = on_inode i iput

abbrev pub iunlockput_at : ℕ → Act (Unit {0})
iunlockput_at i = on_inode i (iunlockput true)

abbrev pub iget_at : ℕ → ℕ → Act ℕ
iget_at dev inum w = elim (iget dev inum w.cache) [
  | none ↦ none
  | some (i, cache') ↦ some (i, record w { cache = cache' })
]

abbrev pub idup_at : ℕ → Act ℕ
idup_at i w = some (i, record w { cache = idup i w.cache })

abbrev pub ialloc_at : ℕ → ℕ → Act ℕ
ialloc_at dev type w = elim (ialloc dev type w.cache w.fs) [
  | none ↦ none
  | some (i, cache', fs') ↦ some (i, record { cache = cache'; fs = fs' })
]

-- DIRSIZ, and `sizeof(struct dirent)`.
abbrev pub dirsiz : ℕ
dirsiz = 14

abbrev pub dirent_size : ℕ
dirent_size = 16

abbrev pub t_dir : ℕ
t_dir = 1

abbrev pub t_file : ℕ
t_file = 2

-- Two arrays of less than 64 bytes, side by side.
abbrev beside : Memory → Memory → Memory
beside s t a = if ltb a 64 then s a else t (a - 64)

-- `namecmp`; the name of a directory entry stands at 2.
pub namecmp : Memory → Memory → ℕ
namecmp s t = strncmp 0 64 dirsiz (beside s t)

abbrev pub de_name : Memory → Memory
de_name de i = de (i + 2)

-- The entry that `dirlink` writes.
abbrev pub new_dirent : Memory → ℕ → Memory
new_dirent name inum =
    store_half (λ i. if ltb i 2 then 0 else strncpy 0 64 dirsiz (beside (λ j. 0) name) (i - 2)) 0
      inum

-- The functions of `devsw` by major number.
module _ (reads : ℕ → Option (ℕ → Memory → ℕ × Memory)) (writes : ℕ → Option (ℕ → Memory → ℕ)) where
  -- `readi` and `writei` of one directory entry, which panic if it is cut short.
  pub read_dirent : ℕ → ℕ → Act Memory
  read_dirent i off w = elim (get_elem? w.cache i) [
    | none ↦ none
    | some ip ↦ elim (readi reads ip (λ a. 0) off dirent_size w.fs) [
      | none ↦ none
      | some (r, de, ip', fs') ↦
          if r == dirent_size
          then some (de, record { cache = set w.cache i ip'; fs = fs' })
          else none
    ]
  ]

  pub write_dirent : ℕ → ℕ → Memory → Act (Unit {0})
  write_dirent i off de = on_inode i (λ ip fs. elim (writei writes ip de off dirent_size fs) [
    | none ↦ none
    | some (r, ip', fs') ↦ if r == dirent_size then some (ip', fs') else none
  ])

  -- The loop of `dirlookup` from `off` on, with rounds left: the number and the offset.
  pub look_from : ℕ → ℕ → Memory → ℕ → Act (Option (ℕ × ℕ))
  unfolding read_dirent namecmp
  look_from zero i name off = panic
  look_from (suc k) i name off = do
    dp ← entry i
    if not (ltb off dp.size) then pure none else do
      de ← read_dirent i off
      if load_half de 0 == 0 || not (namecmp name (de_name de) == 0)
          then look_from k i name (off + dirent_size)
          else pure (some (load_half de 0, off))

  -- `dirlookup`: the entry of the cache and the offset; null is `none`.
  pub dirlookup : ℕ → Memory → Act (Option (ℕ × ℕ))
  unfolding look_from
  dirlookup i name = do
    dp ← entry i
    if not (dp.type == t_dir) then panic else do
      found ← look_from (dp.size / dirent_size + 2) i name 0
      elim found [
        | none ↦ pure none
        | some (inum, off) ↦ do j ← iget_at (dp.dev) inum; pure (some (j, off))
      ]

  -- The loop of `dirlink` that looks for an empty entry.
  pub empty_from : ℕ → ℕ → ℕ → Act ℕ
  unfolding read_dirent
  empty_from zero i off = panic
  empty_from (suc k) i off = do
    dp ← entry i
    if not (ltb off dp.size) then pure off else do
      de ← read_dirent i off
      if load_half de 0 == 0 then pure off else empty_from k i (off + dirent_size)

  -- `dirlink`: whether it returns 0.
  pub dirlink : ℕ → Memory → ℕ → Act Bool
  unfolding dirlookup empty_from write_dirent
  dirlink i name inum = do
    found ← dirlookup i name
    elim found [
      | some (j, off) ↦ do iput_at j; pure false
      | none ↦ do
        dp ← entry i
        off ← empty_from (dp.size / dirent_size + 2) i 0
        write_dirent i off (new_dirent name inum)
        pure true
    ]

-- The loops of `skipelem` over a path, with rounds left: where they end.
pub skip_slashes : ℕ → ℕ → Memory → ℕ
skip_slashes zero p path = p
skip_slashes (suc k) p path =
    let rest = skip_slashes k (p + 1) path in if path p == 47 then rest else p

pub skip_name : ℕ → ℕ → Memory → ℕ
skip_name zero p path = p
skip_name (suc k) p path =
    let rest = skip_name k (p + 1) path in
    if not (path p == 47) && not (path p == 0) then rest else p

-- `skipelem`, for a path that ends within the rounds: where the rest starts, and the element.
unfoldable pub skipelem : ℕ → ℕ → Memory → Memory → Option (ℕ × Memory)
unfolding skip_slashes skip_name
skipelem rounds p path name =
    let s = skip_slashes rounds p path in
    let e = skip_name rounds s path in
    let len = e - s in
    let copied : Memory =
      if leb dirsiz len
      then moved name 0 dirsiz (λ i. path (s + i))
      else store (moved name 0 len (λ i. path (s + i))) len 0 in
    if path s == 0 then none else some (skip_slashes rounds e path, copied)

module _ (reads : ℕ → Option (ℕ → Memory → ℕ × Memory)) (writes : ℕ → Option (ℕ → Memory → ℕ)) where
  -- What the loop of `namex` does with one element.
  pub step_into : Bool → Memory → ℕ → ℕ → Memory → Act (Option ℕ × Bool)
  unfolding dirlookup
  step_into parent path p i name = do
    ilock_at i
    ip ← entry i
    if not (ip.type == t_dir)
        then (do iunlockput_at i; pure (none, true))
        else if parent && path p == 0
        then pure (some i, true)
        else do
          found ← dirlookup reads writes i name
          iunlockput_at i
          pure (elim found [ none ↦ (none, true) | some (j, off) ↦ (some j, false) ])

  -- The loop of `namex` at `p`, with the inode reached, and elements and rounds left; with the last
  -- element.
  pub walk : ℕ → ℕ → Bool → Memory → ℕ → ℕ → Memory → Act (Option ℕ × Memory)
  unfolding step_into
  walk zero rounds parent path p i name = panic
  walk (suc k) rounds parent path p i name = elim (skipelem rounds p path name) [
    | none ↦ if parent then (do iput_at i; pure (none, name)) else pure (some i, name)
    | some (p', name') ↦ do
      next ← step_into parent path p' i name'
      let (reached, done) = next in
          elim reached [
            | none ↦ pure (none, name')
            | some j ↦ if done then pure (some j, name') else walk k rounds parent path p' j name'
          ]
  ]

  -- `namex`, for a path that ends within the rounds; ROOTDEV and ROOTINO are 1.
  pub namex : ℕ → Memory → Bool → ℕ → Memory → Act (Option ℕ × Memory)
  unfolding walk
  namex rounds path parent cwd name = do
    i ← if path 0 == 47 then iget_at 1 1 else idup_at cwd
    walk (rounds + 1) rounds parent path 0 i name

  pub namei : ℕ → Memory → ℕ → Act (Option ℕ)
  unfolding namex
  namei rounds path cwd = do r ← namex rounds path false cwd (λ i. 0); pure (r.0)

  unfoldable pub nameiparent : ℕ → Memory → ℕ → Memory → Act (Option ℕ × Memory)
  unfolding namex
  nameiparent rounds path cwd name = namex rounds path true cwd name
