-- ===== src/Xv6/Fs/Tests.antt =====
-- Asg02/xv6-2/fs.c: a disk of 100 blocks, the first eight in use; a file of 20 bytes in block 4.
use cs5460spring.Base.{
  ℕ, zero, suc, ◌/◌, ◌%◌, ◌<◌, ◌⊎◌, inl, inr, ap₂, Option, Bool, ◌≤◌, ◌≡◌, ◌≢◌, refl, ◌∙◌, sym, ap,
  subst, none, some, true, arith, if◌then◌else◌, ◌==◌, ==_of_ne,
}
use cs5460spring.Xv6.Str.{Memory}
use cs5460spring.Xv6.Fs.{
  Fs, bblock, bit, bit_of, bzero, set_bit, find_bit, find_block, balloc, bfree,
}
use cs5460spring.Xv6.Fs.Alloc.{IsUsed, IsFs, AllocSpec, balloc_lem, bfree-balloc}
use cs5460spring.Xv6.Fs.Inode.{Inode}
use cs5460spring.Xv6.Fs.Content.{bmap, readi, writei}
use cs5460spring.Xv6.Fs.Owned.{IsOwn, node, IsFile}
use cs5460spring.Xv6.Fs.Bmap.{BmapSpec, bmap_lem}
use cs5460spring.Xv6.Fs.Room.{HasRoom, row-HasRoom}
use cs5460spring.Xv6.Fs.Read.{filled, readi_lem}
use cs5460spring.Xv6.Fs.Save.{WriteSpec, writei_lem, readi-writei}

-- The superblock's bytes that are not 0.
abbrev super_bytes : Memory
super_bytes i =
    if i == 0
    then 100
    else if i == 4
    then 92
    else if i == 8
    then 8
    else if i == 20
    then 2
    else if i == 24
    then 3
    else 0

abbrev disk : Fs
disk = record {
  sb = record {
    size = 100;
    nblocks = 92;
    ninodes = 8;
    nlog = 0;
    logstart = 0;
    inodestart = 2;
    bmapstart = 3;
  };
  block = λ b.
      if b == 1 then super_bytes else if b == 3 then (λ i. if i == 0 then 255 else 0) else (λ i. 0);
}

abbrev small_file : Inode
small_file = record {
  dev = 1;
  inum = 1;
  ref = 1;
  valid = true;
  type = 2;
  major = 0;
  minor = 0;
  nlink = 1;
  size = 20;
  addrs = λ i. if i == 0 then 4 else 0;
}

the_map : (c : ℕ) → c < 100 → bblock c disk.sb ≡ 3
the_map c lt = omega arith

not_in_map : (b : ℕ) → b ≢ 3 → (c : ℕ) → c < 100 → bblock c disk.sb ≢ b
not_in_map b ne c lt e = ne (sym e ∙ the_map c lt)

map_bit : (c : ℕ) → c < 100 → bit_of c disk ≡ bit (c % 8) (if c / 8 == 0 then 255 else 0)
map_bit c lt =
    ap (λ (x : ℕ). bit (c % 4096 % 8) (disk.block x (c % 4096 / 8))) (the_map c lt)
    ∙ ap₂ (λ (i j : ℕ). bit i (if j == 0 then 255 else 0)) (omega arith) (omega arith)

bit_ones : (i : ℕ) → i < 8 → bit i 255 ≢ 0
unfolding bit
bit_ones zero lt e = omega (arith, e)
bit_ones (suc zero) lt e = omega (arith, e)
bit_ones (suc (suc zero)) lt e = omega (arith, e)
bit_ones (suc (suc (suc zero))) lt e = omega (arith, e)
bit_ones (suc (suc (suc (suc zero)))) lt e = omega (arith, e)
bit_ones (suc (suc (suc (suc (suc zero))))) lt e = omega (arith, e)
bit_ones (suc (suc (suc (suc (suc (suc zero)))))) lt e = omega (arith, e)
bit_ones (suc (suc (suc (suc (suc (suc (suc zero))))))) lt e = omega (arith, e)
bit_ones (suc (suc (suc (suc (suc (suc (suc (suc i)))))))) lt e = omega (arith, lt)

bit_zeros : (i : ℕ) → bit i 0 ≡ 0
unfolding bit
bit_zeros zero = refl
bit_zeros (suc i) = bit_zeros i

low-IsUsed : (b : ℕ) → b < 8 → IsUsed disk b
low-IsUsed b lt = (
  omega arith,
  λ e.
      let zero_byte : b / 8 ≡ 0 = omega arith in
      bit_ones (b % 8) (omega arith) (
        ap (λ (j : ℕ). bit (b % 8) (if j == 0 then 255 else 0)) (sym zero_byte)
        ∙ sym (map_bit b (omega arith))
        ∙ e),
)

high_free : (c : ℕ) → 8 ≤ c → c < 100 → bit_of c disk ≡ 0
high_free c lo lt =
    map_bit c lt
    ∙ ap (λ (t : Bool). bit (c % 8) (if t then 255 else 0)) (==_of_ne (c / 8) 0 (omega arith))
    ∙ bit_zeros (c % 8)

disk-IsFs : IsFs disk
disk-IsFs = record {
  small = omega arith;
  boot = low-IsUsed 0 (omega arith);
  super = (low-IsUsed 1 (omega arith), not_in_map 1 (omega arith));
  marked = λ c lt. subst (IsUsed disk) (sym (the_map c lt)) (low-IsUsed 3 (omega arith));
  mounted = refl;
}

disk-HasRoom : HasRoom disk 6
disk-HasRoom = row-HasRoom disk 8 6 (omega arith) (λ c lo hi. high_free c lo (omega arith))

nodes :
    (n : ℕ)
    → n < 142
    → ((n ≡ 0) × (node disk small_file n ≡ 4))
      ⊎ ((n ≡ 141) × (node disk small_file n ≡ 2))
      ⊎ (node disk small_file n ≡ 0)
nodes n lt = ground (arith, lt)

small_file-IsFile : IsFile disk small_file
small_file-IsFile = record {
  own = λ n lt ne. elim (nodes n lt) [
    | inl (e, four) ↦ subst (IsOwn disk) (sym four) (owned 4 (omega arith) (omega arith))
    | inr (inl (e, two)) ↦ subst (IsOwn disk) (sym two) (owned 2 (omega arith) (omega arith))
    | inr (inr z) ↦ absurd (ne z)
  ];
  once = λ m n lm ln ne e. omega (arith, nodes m lm, nodes n ln, e, ne);
  home = omega arith;
}
  where
    owned : (b : ℕ) → b < 8 → (b ≢ 3) × (b ≢ 1) → IsOwn disk b
    owned b lt (not_map, not_super) = ((low-IsUsed b lt, not_in_map b not_map), not_super)

balloc_lem_example : AllocSpec disk (balloc disk)
balloc_lem_example = balloc_lem disk disk-IsFs

abbrev taken : Fs
taken = bzero 8 (set_bit 8 disk)

takes_8 : balloc disk ≡ some (8, taken)
unfolding balloc find_block find_bit bit
takes_8 = refl

bfree-balloc_example :
    (fs'' : Fs) × (bfree 8 taken ≡ some fs'') × ((c : ℕ) → c < 100 → bit_of c fs'' ≡ bit_of c disk)
bfree-balloc_example = bfree-balloc disk disk-IsFs 8 taken takes_8

-- Block 13 of the content lies behind the indirect block, and neither is there.
bmap_lem_example : BmapSpec disk small_file 13 (bmap small_file 13 disk)
bmap_lem_example = bmap_lem disk small_file 13 disk-IsFs small_file-IsFile (omega arith)

abbrev no_reads : ℕ → Option (ℕ → Memory → ℕ × Memory)
no_reads major = none

abbrev no_writes : ℕ → Option (ℕ → Memory → ℕ)
no_writes major = none

abbrev ones : Memory
ones i = 1

readi_lem_example :
    (dst' : Memory) × (readi no_reads small_file ones 5 40 disk ≡ some (15, dst', small_file, disk))
    × ((j : ℕ) → dst' j ≡ filled disk small_file 5 15 ones j)
readi_lem_example =
    readi_lem no_reads disk small_file 5 40 ones (omega arith) (omega arith) (omega arith)
      (omega arith) (λ i lo hi. ground arith)

-- The write goes on into a new block.
writei_lem_example :
    WriteSpec disk small_file 10 510 ones (writei no_writes small_file ones 10 510 disk)
writei_lem_example =
    writei_lem no_writes disk small_file 10 510 ones (omega arith) (omega arith) (omega arith)
      disk-IsFs small_file-IsFile disk-HasRoom

readi-writei_example :
    (ip' : Inode) × (fs' : Fs) × (dst' : Memory) × (writei no_writes small_file ones 10 510 disk
      ≡ some (510, ip', fs'))
    × (readi no_reads ip' ones 10 510 fs' ≡ some (510, dst', ip', fs'))
    × ((j : ℕ) → j < 510 → dst' j ≡ 1)
readi-writei_example =
    readi-writei no_reads no_writes disk small_file 10 510 ones ones (omega arith) (omega arith)
      (omega arith) (omega arith) disk-IsFs small_file-IsFile disk-HasRoom
