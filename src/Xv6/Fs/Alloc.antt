-- ===== src/Xv6/Fs/Alloc.antt =====
-- Asg02/xv6-2/fs.c: what `balloc` and `bfree` do to the set of blocks in use.
use cs5460spring.Base.{
  ℕ, zero, suc, ◌+◌, ◌*◌, ◌/◌, ◌%◌, ◌^◌, ◌≤◌, ◌<◌, ◌≡◌, ◌≢◌, refl, ◌∙◌, sym, ap, subst, inl, inr,
  arith, Option, none, some, Bool, true, false, if◌then◌else◌, ltb, ◌==◌, ==_iff, ==_refl, ==_of_ne,
  Bool-cases, ℕ_discrete, dec_lt,
}
use cs5460spring.Xv6.Str.{Memory}
use cs5460spring.Xv6.Fs.{
  bpb, Superblock, Fs, readsb, bblock, bzero, bit, bit_of, set_bit, clear_bit, find_bit, find_block,
  balloc, bfree,
}
use cs5460spring.Xv6.Fs.Bits.{bit_of-set, bit_of-clear}

abbrev pub IsUsed : Fs → ℕ → Type 0
IsUsed fs b = (b < fs.sb.size) × (bit_of b fs ≢ 0)

-- A block in use that is not one of the free map.
abbrev pub IsData : Fs → ℕ → Type 0
IsData fs b = IsUsed fs b × ((c : ℕ) → c < fs.sb.size → bblock c fs.sb ≢ b)

-- The boot block, the superblock and the free map are in use, and the superblock is the one on disk.
pub record IsFs (fs : Fs) : Type 0 where
  pub small : fs.sb.size < 2 ^ 31
  pub boot : IsUsed fs 0
  pub super : IsData fs 1
  pub marked : (c : ℕ) → c < fs.sb.size → IsUsed fs (bblock c fs.sb)
  pub mounted : readsb fs ≡ fs.sb

-- The first free block from `lo` on, if there is one below `hi`.
abbrev ScanSpec : ℕ → ℕ → Fs → Option ℕ → Type 0
ScanSpec lo hi fs none = (c : ℕ) → lo ≤ c → c < hi → c < fs.sb.size → bit_of c fs ≢ 0
ScanSpec lo hi fs (some x) =
    (lo ≤ x) × (x < fs.sb.size) × (bit_of x fs ≡ 0) × ((c : ℕ) → lo ≤ c → c < x → bit_of c fs ≢ 0)

-- A block in use before the scan.
before :
    (lo hi : ℕ) (fs : Fs) (r : Option ℕ)
    → bit_of lo fs ≢ 0
    → ScanSpec (lo + 1) hi fs r
    → ScanSpec lo hi fs r
before lo hi fs none used s = λ c le lt small. elim (ℕ_discrete lo c) [
  | yes e ↦ subst (λ (x : ℕ). bit_of x fs ≢ 0) e used
  | no ne ↦ s c (omega arith) lt small
]
before lo hi fs (some x) used (le, small, free, all) = (
  omega arith,
  small,
  free,
  λ c le' lt. elim (ℕ_discrete lo c) [
    | yes e ↦ subst (λ (y : ℕ). bit_of y fs ≢ 0) e used
    | no ne ↦ all c (omega arith) lt
  ],
)

find_bit_lem :
    (n b bi lo hi : ℕ) (fs : Fs)
    → b % bpb ≡ 0
    → bi + n ≤ bpb
    → lo ≡ b + bi
    → hi ≡ b + bi + n
    → ScanSpec lo hi fs (find_bit n b bi fs)
unfolding find_bit
find_bit_lem zero b bi lo hi fs al room elo ehi = λ c le lt small. absurd (omega (arith, le, lt))
find_bit_lem (suc n) b bi lo hi fs al room elo ehi = elim (Bool-cases (ltb (b + bi) fs.sb.size)) [
  | inr past ↦ rw past (λ c le lt small. ground (arith, past))
  | inl more ↦ rw more (elim (ℕ_discrete (bit (bi % 8) (fs.block (bblock b fs.sb) (bi / 8))) 0) [
    | yes e ↦
        rw ((==_iff (bit (bi % 8) (fs.block (bblock b fs.sb) (bi / 8))) 0).1 e)
          (omega arith, ground (arith, more), at ∙ e, λ c le lt. absurd (omega arith))
    | no ne ↦ rw (==_of_ne (bit (bi % 8) (fs.block (bblock b fs.sb) (bi / 8))) 0 ne) (
        before lo hi fs (find_bit n b (bi + 1) fs)
          (λ z. ne (sym at ∙ ap (λ (x : ℕ). bit_of x fs) (sym elo) ∙ z))
          (find_bit_lem n b (bi + 1) (lo + 1) hi fs al (omega arith) (omega arith) (omega arith)))
  ])
]
  where
    at : bit_of (b + bi) fs ≡ bit (bi % 8) (fs.block (bblock b fs.sb) (bi / 8))
    at =
        let e : (b + bi) % bpb ≡ bi = omega (arith, al, room) in
        let f : bblock (b + bi) fs.sb ≡ bblock b fs.sb = omega (arith, al, room) in rw (e, f) refl

-- Two scans in a row.
either :
    (lo mid hi : ℕ) (fs : Fs) (r r' : Option ℕ)
    → lo ≤ mid
    → ScanSpec lo mid fs r
    → ScanSpec mid hi fs r'
    → ScanSpec lo hi fs (elim r [ none ↦ r' | some found ↦ some found ])
either lo mid hi fs (some x) r' le s s' = s
either lo mid hi fs none none le s s' = λ c le' lt small. elim (dec_lt c mid) [
  | yes l ↦ s c le' l small
  | no nl ↦ s' c (omega arith) lt small
]
either lo mid hi fs none (some x) le s (le', small, free, all) = (
  omega arith,
  small,
  free,
  λ c le'' lt. elim (dec_lt c mid) [
    | yes l ↦ s c le'' l (omega arith)
    | no nl ↦ all c (omega arith) lt
  ],
)

find_block_lem :
    (n b hi : ℕ) (fs : Fs) → b % bpb ≡ 0 → hi ≡ b + n * bpb → ScanSpec b hi fs (find_block n b fs)
unfolding find_block
find_block_lem zero b hi fs al ehi = λ c le lt small. absurd (omega (arith, le, lt))
find_block_lem (suc n) b hi fs al ehi =
    go (ltb b fs.sb.size) refl (find_bit bpb b 0 fs) (find_block n (b + bpb) fs)
      (find_bit_lem bpb b 0 b (b + bpb) fs al (omega arith) (omega arith) (omega arith))
      (find_block_lem n (b + bpb) hi fs (omega arith) (omega arith))
  where
    go :
        (more : Bool)
        → ltb b fs.sb.size ≡ more
        → (r r' : Option ℕ) → ScanSpec b (b + bpb) fs r
        → ScanSpec (b + bpb) hi fs r'
        → ScanSpec b hi fs (if more then elim r [ none ↦ r' | some found ↦ some found ] else none)
    go true e r r' s s' = either b (b + bpb) hi fs r r' (omega arith) s s'
    go false e r r' s s' = λ c le lt small. ground (arith, e)

-- What `balloc` does: the lowest free block is taken into use and zeroed, the other blocks that hold
-- data keep their bytes, and it panics only when all blocks are in use.
abbrev pub AllocSpec : Fs → Option (ℕ × Fs) → Type 0
AllocSpec fs none = (c : ℕ) → c < fs.sb.size → IsUsed fs c
AllocSpec fs (some (b, fs')) =
    (b < fs.sb.size)
    × (bit_of b fs ≡ 0)
    × ((c : ℕ) → c < b → IsUsed fs c)
    × ((c : ℕ) → c < fs.sb.size → bit_of c fs' ≡ (if b == c then 1 else bit_of c fs))
    × ((i : ℕ) → fs'.block b i ≡ 0)
    × ((c : ℕ) → IsData fs c → fs'.block c ≡ fs.block c)
    × (fs'.sb ≡ fs.sb)
    × IsFs fs'

taken :
    (b : ℕ) (fs : Fs)
    → IsFs fs
    → b < fs.sb.size
    → bit_of b fs ≡ 0
    → ((c : ℕ) → c < b → IsUsed fs c)
    → AllocSpec fs (some (b, bzero b (set_bit b fs)))
taken b fs f small free low = (small, free, low, bits, λ i. rw (==_refl b) refl, kept, refl, good)
  where
    not_map : (c : ℕ) → c < fs.sb.size → bblock c fs.sb ≢ b
    not_map c lt e = (f.marked c lt).1 (ap (λ (x : ℕ). bit_of x fs) e ∙ free)

    bits :
        (c : ℕ)
        → c < fs.sb.size
        → bit_of c (bzero b (set_bit b fs)) ≡ (if b == c then 1 else bit_of c fs)
    bits c lt =
        ap
          (λ (t : Bool).
            bit (c % bpb % 8)
              ((if t then (λ i. 0) else (set_bit b fs).block (bblock c fs.sb)) (c % bpb / 8)))
          (==_of_ne (bblock c fs.sb) b (not_map c lt))
        ∙ bit_of-set b c fs free

    fs1 : Fs
    fs1 = bzero b (set_bit b fs)

    still : (c : ℕ) → IsUsed fs c → IsUsed fs1 c
    still c u = (u.0, λ e. ground (arith, u.1, e, bits c u.0))

    kept : (c : ℕ) → IsData fs c → (bzero b (set_bit b fs)).block c ≡ fs.block c
    kept c d =
        rw
          (
            ==_of_ne c b (λ e. d.0.1 (ap (λ (x : ℕ). bit_of x fs) e ∙ free)),
            ==_of_ne c (bblock b fs.sb) (λ e. d.1 b small (sym e)),
          )
          refl

    good : IsFs fs1
    good = record {
      small = f.small;
      boot = still 0 f.boot;
      super = (still 1 f.super.0, f.super.1);
      marked = λ c lt. still (bblock c fs.sb) (f.marked c lt);
      mounted =
          ap (λ (m : Memory). readsb (record fs { block = λ c. m })) (kept 1 f.super) ∙ f.mounted;
    }

-- On a file system whose boot block, superblock and free map are in use, and whose superblock in
-- memory is that on disk, `balloc` takes the lowest free block into use and zeroes it. No other bit of
-- the free map changes, no other block in use changes outside of the free map, and the conditions
-- hold again. It panics only if every block is in use.
pub balloc_lem : (fs : Fs) → IsFs fs → AllocSpec fs (balloc fs)
unfolding balloc
balloc_lem fs f = go (find_block (fs.sb.size / bpb + 1) 0 fs) (
    find_block_lem (fs.sb.size / bpb + 1) 0 ((fs.sb.size / bpb + 1) * bpb) fs (omega arith)
      (omega arith))
  where
    go :
        (r : Option ℕ)
        → ScanSpec 0 ((fs.sb.size / bpb + 1) * bpb) fs r
        → AllocSpec fs (elim r [ none ↦ none | some b ↦ some (b, bzero b (set_bit b fs)) ])
    go none s = λ c lt. (lt, s c (omega arith) (omega arith) lt)
    go (some b) (le, small, free, low) =
        taken b fs f small free (λ c lt. (omega arith, low c (omega arith) lt))

-- What `bfree` does: it panics exactly on a free block; else the bit of the block alone changes.
abbrev pub FreeSpec : ℕ → Fs → Option Fs → Type 0
FreeSpec b fs none = bit_of b fs ≡ 0
FreeSpec b fs (some fs') =
    (bit_of b fs ≢ 0)
    × ((c : ℕ) → bit_of c fs' ≡ (if b == c then 0 else bit_of c fs))
    × ((c : ℕ) → c ≢ bblock b fs.sb → fs'.block c ≡ fs.block c)
    × (fs'.sb ≡ fs.sb)

remounted :
    (b : ℕ) (fs : Fs)
    → readsb fs ≡ fs.sb
    → bfree b fs ≡ (if bit_of b fs == 0 then none else some (clear_bit b fs))
unfolding bfree
remounted b fs e =
    ap
      (λ (s : Superblock).
        let fs' = record fs { sb = s } in
        if bit_of b fs' == 0 then none else some (clear_bit b fs'))
      e

pub bfree_lem : (b : ℕ) (fs : Fs) → IsFs fs → FreeSpec b fs (bfree b fs)
bfree_lem b fs f =
    subst (FreeSpec b fs) (sym (remounted b fs f.mounted)) (elim (ℕ_discrete (bit_of b fs) 0) [
      | yes e ↦ rw ((==_iff (bit_of b fs) 0).1 e) e
      | no ne ↦
          rw (==_of_ne (bit_of b fs) 0 ne)
            (ne, λ c. bit_of-clear b c fs ne, λ c z. rw (==_of_ne c (bblock b fs.sb) z) refl, refl)
    ])

-- Freeing the block that `balloc` has just answered succeeds, and the free map is as it was before.
pub bfree-balloc :
    (fs : Fs)
    → IsFs fs
    → (b : ℕ) (fs' : Fs) → balloc fs ≡ some (b, fs')
    → (fs'' : Fs) × (bfree b fs' ≡ some fs'')
      × ((c : ℕ) → c < fs.sb.size → bit_of c fs'' ≡ bit_of c fs)
bfree-balloc fs f b fs' e = go (subst (AllocSpec fs) e (balloc_lem fs f))
  where
    back :
        AllocSpec fs (some (b, fs'))
        → (r : Option Fs) → FreeSpec b fs' r
        → (fs'' : Fs) × (r ≡ some fs'') × ((c : ℕ) → c < fs.sb.size → bit_of c fs'' ≡ bit_of c fs)
    back (small, free, low, bits, zeros, kept, same, good) none s =
        absurd (ground (arith, s, bits b small))
    back (small, free, low, bits, zeros, kept, same, good) (some fs'') (used, s, others, same') = (
      fs'',
      refl,
      λ c lt. elim (ℕ_discrete b c) [
        | yes z ↦ s c ∙ rw ((==_iff b c).1 z) (sym (ap (λ (x : ℕ). bit_of x fs) (sym z) ∙ free))
        | no nz ↦ s c ∙ rw (==_of_ne b c nz) (bits c lt ∙ rw (==_of_ne b c nz) refl)
      ],
    )

    go :
        AllocSpec fs (some (b, fs'))
        → (fs'' : Fs) × (bfree b fs' ≡ some fs'')
          × ((c : ℕ) → c < fs.sb.size → bit_of c fs'' ≡ bit_of c fs)
    go (small, free, low, bits, zeros, kept, same, good) =
        back (small, free, low, bits, zeros, kept, same, good) (bfree b fs') (bfree_lem b fs' good)
