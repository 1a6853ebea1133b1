-- ===== src/Xv6/Fs/Inode.antt =====
-- Asg02/xv6-2/fs.c, file.h: inodes, their cache and their places on disk. The entry's sleep lock is
-- left out: a call that needs it is made by its holder.
use cs5460spring.Base.{
  ℕ, zero, suc, ◌+◌, ◌-◌, ◌*◌, ◌/◌, ◌%◌, ◌^◌, List, [], ◌∷◌, Option, none, some, Bool, true, false,
  not, ◌&&◌, ◌||◌, if◌then◌else◌, ltb, ◌==◌, get_elem?, set, ◌⊎◌, inl, inr,
}
use cs5460spring.Xv6.Str.{Memory, store, store_word}
use cs5460spring.Xv6.Syscall.{load_word}
use cs5460spring.Xv6.Fs.{Superblock, Fs, put_block}

-- NDIRECT, NINDIRECT, IPB and `sizeof(struct dinode)`.
abbrev pub ndirect : ℕ
ndirect = 12

abbrev pub nindirect : ℕ
nindirect = 128

abbrev pub ipb : ℕ
ipb = 8

abbrev pub dinode_size : ℕ
dinode_size = 64

-- `struct inode`. The shorts are 16-bit patterns.
pub record Inode : Type 0 where
  pub dev : ℕ
  pub inum : ℕ
  pub ref : ℕ
  pub valid : Bool
  pub type : ℕ
  pub major : ℕ
  pub minor : ℕ
  pub nlink : ℕ
  pub size : ℕ
  pub addrs : ℕ → ℕ

-- IBLOCK, and the place of the inode in that block.
abbrev pub iblock : ℕ → Superblock → ℕ
iblock i sb = i / ipb + sb.inodestart

abbrev pub dinode_at : ℕ → ℕ
dinode_at inum = inum % ipb * dinode_size

abbrev pub load_half : Memory → ℕ → ℕ
load_half m a = m a + m (a + 1) * 2 ^ 8

abbrev pub store_half : Memory → ℕ → ℕ → Memory
store_half m a x = store (store m a (x % 2 ^ 8)) (a + 1) (x / 2 ^ 8 % 2 ^ 8)

-- `memmove(dip->addrs, ip->addrs, ...)`, with words left.
pub store_words : ℕ → ℕ → ℕ → (ℕ → ℕ) → Memory → Memory
store_words zero i a words m = m
store_words (suc n) i a words m = store_words n (i + 1) a words (store_word m (a + 4 * i) (words i))

-- `iupdate`.
unfoldable pub iupdate : Inode → Fs → Fs
unfolding store_words
iupdate ip fs =
    let b = iblock (ip.inum) (fs.sb) in
    let a = dinode_at (ip.inum) in
    let m =
      store_half
        (store_half (store_half (store_half (fs.block b) a (ip.type)) (a + 2) (ip.major)) (a + 4)
          (ip.minor))
        (a + 6) (ip.nlink) in
    put_block b (store_words 13 0 (a + 12) (ip.addrs) (store_word m (a + 8) (ip.size))) fs

-- What `ilock` reads into the entry.
abbrev pub load_inode : Inode → Fs → Inode
load_inode ip fs =
    let m = fs.block (iblock (ip.inum) (fs.sb)) in
    let a = dinode_at (ip.inum) in
    record ip {
      type = load_half m a;
      major = load_half m (a + 2);
      minor = load_half m (a + 4);
      nlink = load_half m (a + 6);
      size = load_word m (a + 8);
      addrs = λ i. load_word m (a + 12 + 4 * i);
      valid = true;
    }

-- `ilock` of an entry; `none` is a panic.
unfoldable pub ilock : Inode → Fs → Option Inode
ilock ip fs =
    if ltb (ip.ref) 1
    then none
    else if not ip.valid
    then (let ip' = load_inode ip fs in if ip'.type == 0 then none else some ip')
    else some ip

-- `iunlock`, with the answer of `holdingsleep`: whether it panics.
abbrev pub iunlock : Bool → Inode → Bool
iunlock holding ip = not holding || ltb (ip.ref) 1

abbrev pub is_inode : ℕ → ℕ → Inode → Bool
is_inode dev inum ip = ltb 0 ip.ref && ip.dev == dev && ip.inum == inum

-- The search of `iget` from index `i` on, with the free entry seen so far: the index of the inode, or
-- a free entry.
pub search_inode : ℕ → ℕ → ℕ → Option ℕ → List Inode → ℕ ⊎ Option ℕ
search_inode dev inum i empty [] = inr empty
search_inode dev inum i empty (ip ∷ ips) =
    let empty' : Option ℕ = elim empty [
      | some e ↦ some e
      | none ↦ if ip.ref == 0 then some i else none
    ] in
    let rest = search_inode dev inum (i + 1) empty' ips in
    if is_inode dev inum ip then inl i else rest

-- `idup`.
abbrev pub idup : ℕ → List Inode → List Inode
idup i cache = elim (get_elem? cache i) [
  | none ↦ cache
  | some ip ↦ set cache i (record ip { ref = ip.ref + 1 })
]

-- An entry that gets another inode.
abbrev pub recycle : ℕ → ℕ → Inode → Inode
recycle dev inum ip = record ip { dev = dev; inum = inum; ref = 1; valid = false }

-- `iget`: the entry's index; `none` is its panic.
pub iget : ℕ → ℕ → List Inode → Option (ℕ × List Inode)
unfolding search_inode
iget dev inum cache = elim (search_inode dev inum 0 none cache) [
  | inl i ↦ some (i, idup i cache)
  | inr none ↦ none
  | inr (some i) ↦ elim (get_elem? cache i) [
    | none ↦ none
    | some ip ↦ some (i, set cache i (recycle dev inum ip))
  ]
]

-- The loop of `ialloc`, with inodes left: the number of the free inode, marked; `none` is its panic.
pub ialloc_from : ℕ → ℕ → ℕ → Fs → Option (ℕ × Fs)
ialloc_from zero type inum fs = none
ialloc_from (suc n) type inum fs =
    let b = iblock inum (fs.sb) in
    let a = dinode_at inum in
    let m = fs.block b in
    let rest = ialloc_from n type (inum + 1) fs in
    let cleared : Memory = λ i. if not (ltb i a) && ltb i (a + dinode_size) then 0 else m i in
    if load_half m a == 0 then some (inum, put_block b (store_half cleared a type) fs) else rest

unfoldable pub ialloc : ℕ → ℕ → List Inode → Fs → Option (ℕ × List Inode × Fs)
unfolding ialloc_from iget
ialloc dev type cache fs = elim (ialloc_from (fs.sb.ninodes - 1) type 1 fs) [
  | none ↦ none
  | some (inum, fs') ↦ elim (iget dev inum cache) [
    | none ↦ none
    | some (i, cache') ↦ some (i, cache', fs')
  ]
]
