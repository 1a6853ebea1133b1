-- ===== src/Xv6/Fs/Read.antt =====
-- Asg02/xv6-2/fs.c: what `readi` reads.
use cs5460spring.Base.{
  ℕ, zero, suc, ◌+◌, ◌-◌, ◌*◌, ◌/◌, ◌%◌, ◌^◌, ◌≤◌, ◌<◌, min, ◌≡◌, ◌≢◌, refl, ◌∙◌, sym, ap, ap₂,
  arith, Option, none, some, ◌&&◌, if◌then◌else◌, ltb, leb, ==_iff, ==_of_ne, dec_lt,
}
use cs5460spring.Xv6.Str.{Memory}
use cs5460spring.Xv6.Syscall.{load_word}
use cs5460spring.Xv6.Fs.{bsize, Fs}
use cs5460spring.Xv6.Fs.Inode.{ndirect, nindirect, Inode}
use cs5460spring.Xv6.Fs.Content.{
  own_block, indirect_block, bmap, moved, chunk, read_from, read_file, t_dev, maxfile, readi,
}
use cs5460spring.Xv6.Fs.Owned.{named, node}
use cs5460spring.Xv6.Fs.Step.{is_below, is_above, is_within, is_before, is_behind}
use cs5460spring.Xv6.Fs.Bmap.{slot}

-- The block of byte `i` of the content, 0 if there is none, and the byte.
abbrev pub block_at : Fs → Inode → ℕ → ℕ
block_at fs ip i = node fs ip (slot (i / bsize))

abbrev pub content : Fs → Inode → ℕ → ℕ
content fs ip i = fs.block (block_at fs ip i) (i % bsize)

-- A block that is there is found, and nothing changes.
pub bmap_found :
    (fs : Fs) (ip : Inode) (bn : ℕ)
    → bn < maxfile
    → node fs ip (slot bn) ≢ 0
    → bmap ip bn fs ≡ some (node fs ip (slot bn), ip, fs)
unfolding bmap own_block indirect_block
bmap_found fs ip bn lt ne = elim (dec_lt bn ndirect) [
  | yes direct ↦
      direct_case direct (rw (is_below bn ndirect direct) (rw (is_below bn 13 (omega arith)) refl))
  | no nd ↦ indirect_case nd (
      rw (is_above bn ndirect nd) (
        rw (is_above (bn + 1) 13 (omega arith), is_below (bn + 1) 141 (omega arith))
          (ap (named fs.block (ip.addrs 12)) (omega arith))))
]
  where
    direct_case :
        bn < ndirect
        → node fs ip (slot bn) ≡ ip.addrs bn
        → bmap ip bn fs ≡ some (node fs ip (slot bn), ip, fs)
    direct_case direct e =
        rw (e, is_below bn ndirect direct, ==_of_ne (ip.addrs bn) 0 (λ z. ne (e ∙ z))) refl

    indirect_case :
        ¬ (bn < ndirect)
        → node fs ip (slot bn) ≡ named fs.block (ip.addrs 12) (bn - ndirect)
        → bmap ip bn fs ≡ some (node fs ip (slot bn), ip, fs)
    indirect_case nd e =
        let there : ip.addrs 12 ≢ 0 = λ z. ne (e ∙ rw ((==_iff (ip.addrs 12) 0).1 z) refl) in
        let here : named fs.block (ip.addrs 12) (bn - ndirect)
            ≡ load_word (fs.block (ip.addrs 12)) (4 * (bn - ndirect)) =
          rw (==_of_ne (ip.addrs 12) 0 there) refl in
        rw
          (
            e,
            here,
            is_above bn ndirect nd,
            is_below (bn - ndirect) nindirect (omega arith),
            ==_of_ne (ip.addrs 12) 0 there,
            ==_of_ne (load_word (fs.block (ip.addrs 12)) (4 * (bn - ndirect))) 0
                (λ z. ne (e ∙ here ∙ z)),
          )
          refl

-- The buffer after a read of the bytes from `off` on into the places from `tot` to `n`.
abbrev pub received : Fs → Inode → ℕ → ℕ → ℕ → Memory → Memory
received fs ip tot off n dst j =
    if leb tot j && ltb j n then content fs ip (off + (j - tot)) else dst j

-- Two ranges in a row: the first holds what is wanted there.
ranges :
    (C B : ℕ → ℕ) (tot off n m j d : ℕ)
    → tot + m ≤ n
    → (tot ≤ j → j < tot + m → B (j - tot) ≡ C (off + (j - tot)))
    → (if leb (tot + m) j && ltb j n
        then C (off + m + (j - (tot + m)))
        else if leb tot j && ltb j (tot + m)
        then B (j - tot)
        else d)
      ≡ (if leb tot j && ltb j n then C (off + (j - tot)) else d)
ranges C B tot off n m j d fits here = elim (dec_lt j tot) [
  | yes early ↦
      rw
        (
          is_before (tot + m) n j (omega arith),
          is_before tot (tot + m) j early,
          is_before tot n j early,
        )
        refl
  | no ne ↦ elim (dec_lt j (tot + m)) [
    | yes first ↦
        rw
          (
            is_before (tot + m) n j first,
            is_within tot (tot + m) j (omega arith) first,
            is_within tot n j (omega arith) (omega arith),
          )
          (here (omega arith) first)
    | no nf ↦ elim (dec_lt j n) [
      | yes second ↦
          rw (is_within (tot + m) n j (omega arith) second, is_within tot n j (omega arith) second)
            (ap C (omega arith))
      | no past ↦
          rw
            (
              is_behind (tot + m) n j (omega arith),
              is_behind tot (tot + m) j (omega arith),
              is_behind tot n j (omega arith),
            )
            refl
    ]
  ]
]

-- The bytes of a round lie in the block of its first one.
same_block :
    (fs : Fs) (ip : Inode) (off i : ℕ)
    → off % bsize + i < bsize
    → fs.block (block_at fs ip off) (off % bsize + i) ≡ content fs ip (off + i)
same_block fs ip off i lt =
    let e : (off + i) / bsize ≡ off / bsize = omega (arith, lt) in
    let e' : (off + i) % bsize ≡ off % bsize + i = omega (arith, lt) in
    sym (ap₂ (λ (q a : ℕ). fs.block (node fs ip (slot q)) a) e e')

read_from_lem :
    (k : ℕ) (fs : Fs) (ip : Inode) (tot off n : ℕ) (dst : Memory)
    → tot ≤ n
    → 0 < k
    → (tot < n → n - tot + off % bsize ≤ bsize * (k - 1))
    → off + (n - tot) ≤ maxfile * bsize
    → ((i : ℕ) → off ≤ i → i < off + (n - tot) → block_at fs ip i ≢ 0)
    → (dst' : Memory) × (read_from k ip tot off n dst fs ≡ some (dst', ip, fs))
      × ((j : ℕ) → dst' j ≡ received fs ip tot off n dst j)
unfolding read_from
read_from_lem zero fs ip tot off n dst le pos enough fits there = absurd (omega (arith, pos))
read_from_lem (suc k) fs ip tot off n dst le pos enough fits there = elim (dec_lt tot n) [
  | no done ↦ rw (is_above tot n done) (dst, refl, λ j. sym (empty done j))
  | yes more ↦
      let m = chunk off (n - tot) in
      rw
        (
          is_below tot n more,
          bmap_found fs ip (off / bsize) (omega arith) (there off (omega arith) (omega arith)),
        )
        (next more (
          read_from_lem k fs ip (tot + m) (off + m) n
            (moved dst tot m (λ i. fs.block (block_at fs ip off) (off % bsize + i))) (omega arith)
            (omega (arith, enough more)) (λ z. omega (arith, enough more, z)) (omega arith)
            (λ i lo hi. there i (omega arith) (omega arith))))
]
  where
    empty : ¬ (tot < n) → (j : ℕ) → received fs ip tot off n dst j ≡ dst j
    empty done j = elim (dec_lt j n) [
      | yes lt ↦ rw (is_before tot n j (omega arith)) refl
      | no nl ↦ rw (is_behind tot n j (omega arith)) refl
    ]

    next :
        tot < n
        → (dst' : Memory) × (read_from k ip
              (tot + chunk off (n - tot))
              (off + chunk off (n - tot))
              n
              (moved dst tot
                (chunk off (n - tot))
                (λ i. fs.block (block_at fs ip off) (off % bsize + i)))
              fs
            ≡ some (dst', ip, fs))
          × ((j : ℕ)
              → dst' j
                ≡ received fs ip
                    (tot + chunk off (n - tot))
                    (off + chunk off (n - tot))
                    n
                    (moved dst tot
                      (chunk off (n - tot))
                      (λ i. fs.block (block_at fs ip off) (off % bsize + i)))
                    j)
        → (dst' : Memory) × (read_from k ip
              (tot + chunk off (n - tot))
              (off + chunk off (n - tot))
              n
              (moved dst tot
                (chunk off (n - tot))
                (λ i. fs.block (block_at fs ip off) (off % bsize + i)))
              fs
            ≡ some (dst', ip, fs))
          × ((j : ℕ) → dst' j ≡ received fs ip tot off n dst j)
    next more (dst', e, bytes) = (
      dst',
      e,
      λ j.
          bytes j
          ∙ ranges (content fs ip) (λ i. fs.block (block_at fs ip off) (off % bsize + i)) tot off n
              (chunk off (n - tot)) j (dst j) (omega arith)
              (λ lo hi. same_block fs ip off (j - tot) (omega arith)),
    )

-- The buffer after a read of `n` bytes from `off` on.
abbrev pub filled : Fs → Inode → ℕ → ℕ → Memory → Memory
filled fs ip off n dst j = if ltb j n then content fs ip (off + j) else dst j

received-filled :
    (fs : Fs) (ip : Inode) (off n j : ℕ) (dst : Memory)
    → received fs ip 0 off n dst j ≡ filled fs ip off n dst j
received-filled fs ip off n j dst = elim (dec_lt j n) [
  | yes lt ↦
      rw (is_within 0 n j (omega arith) lt, is_below j n lt) (ap (content fs ip) (omega arith))
  | no nl ↦ rw (is_behind 0 n j (omega arith), is_above j n nl) refl
]

read_file_lem :
    (fs : Fs) (ip : Inode) (off n : ℕ) (dst : Memory)
    → ip.size ≤ maxfile * bsize
    → off + n ≤ ip.size
    → ((i : ℕ) → off ≤ i → i < off + n → block_at fs ip i ≢ 0)
    → (dst' : Memory) × (read_file ip dst off n fs ≡ some (n, dst', ip, fs))
      × ((j : ℕ) → dst' j ≡ filled fs ip off n dst j)
unfolding read_file
read_file_lem fs ip off n dst top le there = done (read_from (n / bsize + 3) ip 0 off n dst fs) (
    read_from_lem (n / bsize + 3) fs ip 0 off n dst (omega arith) (omega arith) (λ z. omega arith)
      (omega arith) (λ i lo hi. there i lo (omega arith)))
  where
    result : Option (Memory × Inode × Fs) → Option (ℕ × Memory × Inode × Fs)
    result none = none
    result (some (dst', ip', fs')) = some (n, dst', ip', fs')

    done :
        (r : Option (Memory × Inode × Fs))
        → (dst' : Memory) × (r ≡ some (dst', ip, fs))
          × ((j : ℕ) → dst' j ≡ received fs ip 0 off n dst j)
        → (dst' : Memory) × (result r ≡ some (n, dst', ip, fs))
          × ((j : ℕ) → dst' j ≡ filled fs ip off n dst j)
    done r (dst', e, bytes) = (dst', ap result e, λ j. bytes j ∙ received-filled fs ip off n j dst)

-- A read of a file, not a device, of at most MAXFILE blocks, that starts within the file, whose
-- range does not wrap, and where every block of the range is there: it returns the number of bytes
-- asked for, cut at the file's size, puts just these bytes of the content into the buffer, and
-- changes neither the inode nor the disk.
pub readi_lem :
    (devsw : ℕ → Option (ℕ → Memory → ℕ × Memory)) (fs : Fs) (ip : Inode) (off n : ℕ) (dst : Memory)
    → ip.type ≢ t_dev
    → off ≤ ip.size
    → off + n < 2 ^ 32
    → ip.size ≤ maxfile * bsize
    → ((i : ℕ) → off ≤ i → i < min (off + n) ip.size → block_at fs ip i ≢ 0)
    → (dst' : Memory) × (readi devsw ip dst off n fs ≡ some (min n (ip.size - off), dst', ip, fs))
      × ((j : ℕ) → dst' j ≡ filled fs ip off (min n (ip.size - off)) dst j)
unfolding readi
readi_lem devsw fs ip off n dst file start fits top there =
    rw
      (
        ==_of_ne ip.type t_dev file,
        is_above ip.size off (omega arith),
        wrap,
        is_above (off + n) off (omega arith),
        cut,
      )
      (read_file_lem fs ip off (min n (ip.size - off)) dst top (omega arith)
        (λ i lo hi. there i lo (omega arith)))
  where
    c : ℕ
    c = min n (ip.size - off)

    wrap : (off + n) % 2 ^ 32 ≡ off + n
    wrap = omega (arith, fits)

    cut : (if ltb ip.size (off + n) then ip.size - off else n) ≡ c
    cut = ground arith
