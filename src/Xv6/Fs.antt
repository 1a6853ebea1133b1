-- ===== src/Xv6/Fs.antt =====
-- Asg02/xv6-2/fs.c, fs.h: the file system's blocks and their allocation. The disk is the bytes of its
-- blocks, as the transaction in progress sees them through the buffer cache: `bread` reads there, a
-- change of a buffer's data is a change there, and `log_write`, `brelse` are those of Xv6/Log and
-- Xv6/Bio. Block numbers stay below 2 ^ 31.
pub mod Bits
pub mod Alloc
pub mod Inode
pub mod Content
pub mod Owned
pub mod Step
pub mod Bmap
pub mod Read
pub mod Write
pub mod Room
pub mod WriteLoop
pub mod Save
pub mod Names
mod Tests
use cs5460spring.Base.{
  ℕ, zero, suc, ◌+◌, ◌-◌, ◌*◌, ◌/◌, ◌%◌, Option, none, some, if◌then◌else◌, ltb, ◌==◌,
}
use cs5460spring.Xv6.Str.{Memory, store}
use cs5460spring.Xv6.Syscall.{load_word}

-- BSIZE, and BPB, the bits of a block.
abbrev pub bsize : ℕ
bsize = 512

abbrev pub bpb : ℕ
bpb = 4096

pub record Superblock : Type 0 where
  pub size : ℕ
  pub nblocks : ℕ
  pub ninodes : ℕ
  pub nlog : ℕ
  pub logstart : ℕ
  pub inodestart : ℕ
  pub bmapstart : ℕ

pub record Fs : Type 0 where
  pub sb : Superblock
  pub block : ℕ → Memory

-- A block that gets new bytes.
abbrev pub put_block : ℕ → Memory → Fs → Fs
put_block b m fs = record fs { block = λ c. if c == b then m else fs.block c }

-- `readsb`.
abbrev pub readsb : Fs → Superblock
readsb fs =
    let m = fs.block 1 in
    record {
      size = load_word m 0;
      nblocks = load_word m 4;
      ninodes = load_word m 8;
      nlog = load_word m 12;
      logstart = load_word m 16;
      inodestart = load_word m 20;
      bmapstart = load_word m 24;
    }

-- BBLOCK.
abbrev pub bblock : ℕ → Superblock → ℕ
bblock b sb = b / bpb + sb.bmapstart

-- `bzero`.
abbrev pub bzero : ℕ → Fs → Fs
bzero bno fs = put_block bno (λ i. 0) fs

-- `(data >> i) & 1`, which is not 0 exactly if `data & (1 << i)` is not.
pub bit : ℕ → ℕ → ℕ
bit zero x = x % 2
bit (suc i) x = bit i (x / 2)

-- `1 << i`.
pub one_shl : ℕ → ℕ
one_shl zero = 1
one_shl (suc i) = 2 * one_shl i

-- The bit of block `b`.
abbrev pub bit_of : ℕ → Fs → ℕ
bit_of b fs = bit (b % bpb % 8) (fs.block (bblock b fs.sb) (b % bpb / 8))

-- `bp->data[bi/8] |= m` where that bit is 0, and `bp->data[bi/8] &= ~m` where it is 1.
abbrev pub set_bit : ℕ → Fs → Fs
set_bit b fs =
    let m = fs.block (bblock b fs.sb) in
    put_block (bblock b fs.sb) (store m (b % bpb / 8) (m (b % bpb / 8) + one_shl (b % bpb % 8))) fs

abbrev pub clear_bit : ℕ → Fs → Fs
clear_bit b fs =
    let m = fs.block (bblock b fs.sb) in
    put_block (bblock b fs.sb) (store m (b % bpb / 8) (m (b % bpb / 8) - one_shl (b % bpb % 8))) fs

-- The inner loop of `balloc`, with bits left from `b + bi` on: the first free block.
pub find_bit : ℕ → ℕ → ℕ → Fs → Option ℕ
find_bit zero b bi fs = none
find_bit (suc n) b bi fs =
    let rest = find_bit n b (bi + 1) fs in
    if ltb (b + bi) (fs.sb.size)
    then (if bit (bi % 8) (fs.block (bblock b fs.sb) (bi / 8)) == 0 then some (b + bi) else rest)
    else none

-- The outer loop, with bitmap blocks left.
pub find_block : ℕ → ℕ → Fs → Option ℕ
unfolding find_bit
find_block zero b fs = none
find_block (suc n) b fs =
    let rest = find_block n (b + bpb) fs in
    if ltb b (fs.sb.size)
    then elim (find_bit bpb b 0 fs) [ none ↦ rest | some found ↦ some found ]
    else none

-- `balloc`; `none` is its panic. One round more than there are whole bitmap blocks is enough.
pub balloc : Fs → Option (ℕ × Fs)
unfolding find_block
balloc fs = elim (find_block (fs.sb.size / bpb + 1) 0 fs) [
  | none ↦ none
  | some b ↦ some (b, bzero b (set_bit b fs))
]

-- `bfree`, which reads the superblock again; `none` is its panic.
pub bfree : ℕ → Fs → Option Fs
bfree b fs0 =
    let fs = record fs0 { sb = readsb fs0 } in
    if bit_of b fs == 0 then none else some (clear_bit b fs)
