-- ===== src/Xv6/Fs/Content.antt =====
-- Asg02/xv6-2/fs.c: the content of an inode: `bmap`, `itrunc`, `iput`, `readi`, `writei`. The entry of
-- the cache that the caller has locked is an argument and comes back changed. `none` is a panic, or
-- rounds that run out.
use cs5460spring.Base.{
  ℕ, zero, suc, ◌+◌, ◌-◌, ◌*◌, ◌/◌, ◌%◌, ◌^◌, min, Option, none, some, Bool, false, ◌&&◌, ◌||◌,
  if◌then◌else◌, ltb, leb, ◌==◌,
}
use cs5460spring.Xv6.Str.{Memory, store_word}
use cs5460spring.Xv6.Syscall.{load_word}
use cs5460spring.Xv6.Fs.{bsize, Fs, put_block, balloc, bfree}
use cs5460spring.Xv6.Fs.Inode.{ndirect, nindirect, Inode, iupdate, iunlock}

abbrev pub set_addr : ℕ → ℕ → Inode → Inode
set_addr i b ip = record ip { addrs = λ j. if i == j then b else ip.addrs j }

-- The block of entry `i` of `addrs`, allocated if there is none.
unfoldable pub own_block : Inode → ℕ → Fs → Option (ℕ × Inode × Fs)
own_block ip i fs =
    if ip.addrs i == 0
    then elim (balloc fs) [ none ↦ none | some (b, fs') ↦ some (b, set_addr i b ip, fs') ]
    else some (ip.addrs i, ip, fs)

-- The block of entry `bn` of the indirect block `addr`, allocated if there is none.
unfoldable pub indirect_block : ℕ → ℕ → Fs → Option (ℕ × Fs)
indirect_block addr bn fs =
    if load_word (fs.block addr) (4 * bn) == 0
    then elim (balloc fs) [
      | none ↦ none
      | some (b, fs') ↦ some (b, put_block addr (store_word (fs'.block addr) (4 * bn) b) fs')
    ]
    else some (load_word (fs.block addr) (4 * bn), fs)

unfoldable pub bmap : Inode → ℕ → Fs → Option (ℕ × Inode × Fs)
unfolding own_block indirect_block
bmap ip bn fs =
    if ltb bn ndirect
    then own_block ip bn fs
    else if ltb (bn - ndirect) nindirect
    then elim (own_block ip ndirect fs) [
      | none ↦ none
      | some (addr, ip', fs') ↦ elim (indirect_block addr (bn - ndirect) fs') [
        | none ↦ none
        | some (b, fs'') ↦ some (b, ip', fs'')
      ]
    ]
    else none

-- The two loops of `itrunc`, with entries left.
pub free_direct : ℕ → ℕ → Inode → Fs → Option (Inode × Fs)
free_direct zero i ip fs = some (ip, fs)
free_direct (suc n) i ip fs =
    let here : Option (Inode × Fs) =
      if ip.addrs i == 0
      then some (ip, fs)
      else elim (bfree (ip.addrs i) fs) [ none ↦ none | some fs' ↦ some (set_addr i 0 ip, fs') ] in
    elim here [ none ↦ none | some (ip', fs') ↦ free_direct n (i + 1) ip' fs' ]

-- `a` is the data of the indirect block.
pub free_indirect : ℕ → ℕ → ℕ → Fs → Option Fs
free_indirect zero j addr fs = some fs
free_indirect (suc n) j addr fs =
    let a = load_word (fs.block addr) (4 * j) in
    elim (if a == 0 then some fs else bfree a fs) [
      | none ↦ none
      | some fs' ↦ free_indirect n (j + 1) addr fs'
    ]

-- What follows the loop over the direct blocks.
pub trunc_rest : Inode → Fs → Option (Inode × Fs)
unfolding free_indirect
trunc_rest ip fs =
    let done : Inode → Fs → Option (Inode × Fs) =
      λ ip' fs'. let ip'' = record ip' { size = 0 } in some (ip'', iupdate ip'' fs') in
    if ip.addrs ndirect == 0
    then done ip fs
    else elim (free_indirect nindirect 0 (ip.addrs ndirect) fs) [
      | none ↦ none
      | some fs' ↦ elim (bfree (ip.addrs ndirect) fs') [
        | none ↦ none
        | some fs'' ↦ done (set_addr ndirect 0 ip) fs''
      ]
    ]

unfoldable pub itrunc : Inode → Fs → Option (Inode × Fs)
unfolding free_direct trunc_rest
itrunc ip fs = elim (free_direct ndirect 0 ip fs) [
  | none ↦ none
  | some (ip', fs') ↦ trunc_rest ip' fs'
]

abbrev dropped : Inode × Fs → Inode × Fs
dropped (ip, fs) = (record ip { ref = ip.ref - 1 }, fs)

-- `iput` of an entry.
pub iput : Inode → Fs → Option (Inode × Fs)
unfolding itrunc
iput ip fs =
    if ip.valid && ip.nlink == 0 && ip.ref == 1
    then elim (itrunc ip fs) [
      | none ↦ none
      | some (ip', fs') ↦
          let ip'' = record ip' { type = 0 } in
          some (dropped (record ip'' { valid = false }, iupdate ip'' fs'))
    ]
    else some (dropped (ip, fs))

unfoldable pub iunlockput : Bool → Inode → Fs → Option (Inode × Fs)
unfolding iput
iunlockput holding ip fs = if iunlock holding ip then none else iput ip fs

-- `struct stat`, as `stati` fills it.
pub record Stat : Type 0 where
  pub type : ℕ
  pub dev : ℕ
  pub ino : ℕ
  pub nlink : ℕ
  pub size : ℕ

abbrev pub stati : Inode → Stat
stati ip = record { dev = ip.dev; ino = ip.inum; type = ip.type; nlink = ip.nlink; size = ip.size }

-- `memmove` of `n` bytes to index `a` of a buffer.
abbrev pub moved : Memory → ℕ → ℕ → Memory → Memory
moved m a n src i = if leb a i && ltb i (a + n) then src (i - a) else m i

-- How many bytes of the block of `off` a round moves.
abbrev pub chunk : ℕ → ℕ → ℕ
chunk off left = min left (bsize - off % bsize)

-- The loop of `readi`, with rounds left, into the caller's buffer. `bmap` may allocate a block.
unfoldable pub read_from : ℕ → Inode → ℕ → ℕ → ℕ → Memory → Fs → Option (Memory × Inode × Fs)
unfolding bmap
read_from zero ip tot off n dst fs = none
read_from (suc k) ip tot off n dst fs =
    let m = chunk off (n - tot) in
    let rest : Option (Memory × Inode × Fs) = elim (bmap ip (off / bsize) fs) [
      | none ↦ none
      | some (b, ip', fs') ↦
          read_from k ip' (tot + m) (off + m) n
            (moved dst tot m (λ i. fs'.block b (off % bsize + i))) fs'
    ] in
    if ltb tot n then rest else some (dst, ip, fs)

-- The loop for `n` bytes. One round for each block that the range may touch is enough.
unfoldable pub read_file : Inode → Memory → ℕ → ℕ → Fs → Option (ℕ × Memory × Inode × Fs)
unfolding read_from
read_file ip dst off n fs = elim (read_from (n / bsize + 3) ip 0 off n dst fs) [
  | none ↦ none
  | some (dst', ip', fs') ↦ some (n, dst', ip', fs')
]

abbrev pub t_dev : ℕ
t_dev = 3

abbrev pub ndev : ℕ
ndev = 10

abbrev pub minus_one : ℕ
minus_one = 2 ^ 32 - 1

-- `ip->major < 0 || ip->major >= NDEV`, of a short.
abbrev pub no_device : ℕ → Bool
no_device major = leb (2 ^ 15) major || leb ndev major

-- `readi`, with the `read` functions of `devsw` by major number, null being `none`: the result as a
-- 32-bit pattern, and the buffer.
unfoldable pub readi :
    (ℕ → Option (ℕ → Memory → ℕ × Memory))
    → Inode
    → Memory
    → ℕ
    → ℕ
    → Fs
    → Option (ℕ × Memory × Inode × Fs)
unfolding read_file
readi devsw ip dst off n0 fs =
    if ip.type == t_dev
    then (if no_device (ip.major) then some (minus_one, dst, ip, fs) else elim (devsw (ip.major)) [
      | none ↦ some (minus_one, dst, ip, fs)
      | some read ↦ let (r, dst') = read n0 dst in some (r, dst', ip, fs)
    ])
    else if ltb ip.size off || ltb ((off + n0) % 2 ^ 32) off
    then some (minus_one, dst, ip, fs)
    else read_file ip dst off (if ltb ip.size ((off + n0) % 2 ^ 32) then ip.size - off else n0) fs

-- MAXFILE.
abbrev pub maxfile : ℕ
maxfile = ndirect + nindirect

-- The loop of `writei`, with rounds left, from the caller's buffer: where `off` ends.
unfoldable pub write_from : ℕ → Inode → ℕ → ℕ → ℕ → Memory → Fs → Option (ℕ × Inode × Fs)
unfolding bmap
write_from zero ip tot off n src fs = none
write_from (suc k) ip tot off n src fs =
    let m = chunk off (n - tot) in
    let rest : Option (ℕ × Inode × Fs) = elim (bmap ip (off / bsize) fs) [
      | none ↦ none
      | some (b, ip', fs') ↦
          write_from k ip' (tot + m) (off + m) n src
            (put_block b (moved (fs'.block b) (off % bsize) m (λ i. src (tot + i))) fs')
    ] in
    if ltb tot n then rest else some (off, ip, fs)

-- The end of `writei`.
abbrev pub grow_to : ℕ → ℕ → Inode → Fs → Inode × Fs
grow_to n off ip fs =
    if ltb 0 n && ltb ip.size off
    then (let ip' = record ip { size = off } in (ip', iupdate ip' fs))
    else (ip, fs)

-- `writei`, with the `write` functions of `devsw`.
unfoldable pub writei :
    (ℕ → Option (ℕ → Memory → ℕ)) → Inode → Memory → ℕ → ℕ → Fs → Option (ℕ × Inode × Fs)
unfolding write_from
writei devsw ip src off n fs =
    if ip.type == t_dev
    then (if no_device (ip.major) then some (minus_one, ip, fs) else elim (devsw (ip.major)) [
      | none ↦ some (minus_one, ip, fs)
      | some write ↦ some (write n src, ip, fs)
    ])
    else if ltb ip.size off || ltb ((off + n) % 2 ^ 32) off
    then some (minus_one, ip, fs)
    else if ltb (maxfile * bsize) ((off + n) % 2 ^ 32)
    then some (minus_one, ip, fs)
    else elim (write_from (n / bsize + 3) ip 0 off n src fs) [
      | none ↦ none
      | some (off', ip', fs') ↦ let (ip'', fs'') = grow_to n off' ip' fs' in some (n, ip'', fs'')
    ]
