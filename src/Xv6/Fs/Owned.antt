-- ===== src/Xv6/Fs/Owned.antt =====
-- Asg02/xv6-2/fs.c: blocks that a file may own, and a file as a map from indices to its blocks.
use cs5460spring.Base.{
  ℕ, ◌-◌, ◌*◌, ◌^◌, ◌<◌, ◌≡◌, ◌≢◌, refl, ◌∙◌, sym, ap, subst, arith, some, Bool, if◌then◌else◌, ltb,
  ◌==◌, ==_iff, ==_of_ne, ℕ_discrete,
}
use cs5460spring.Xv6.Str.{Memory}
use cs5460spring.Xv6.Syscall.{load_word}
use cs5460spring.Xv6.Fs.{Superblock, Fs, put_block, readsb, bblock, bit_of}
use cs5460spring.Xv6.Fs.Alloc.{IsUsed, IsData, IsFs, AllocSpec}
use cs5460spring.Xv6.Fs.Inode.{Inode, iblock}

-- A block in use that is neither the superblock nor in the free map.
abbrev pub IsOwn : Fs → ℕ → Type 0
IsOwn fs b = IsData fs b × (b ≢ 1)

module _ (fs : Fs) (a : ℕ) (m : Memory) (o : IsOwn fs a) where
  pub put-bit_of : (c : ℕ) → c < fs.sb.size → bit_of c (put_block a m fs) ≡ bit_of c fs
  put-bit_of c lt = rw (==_of_ne (bblock c fs.sb) a (o.0.1 c lt)) refl

  pub put-IsUsed : (c : ℕ) → IsUsed fs c → IsUsed (put_block a m fs) c
  put-IsUsed c u = (u.0, λ e. u.1 (sym (put-bit_of c u.0) ∙ e))

  pub put-IsOwn : (c : ℕ) → IsOwn fs c → IsOwn (put_block a m fs) c
  put-IsOwn c d = ((put-IsUsed c d.0.0, d.0.1), d.1)

  pub put-IsFs : IsFs fs → IsFs (put_block a m fs)
  put-IsFs f = record {
    small = f.small;
    boot = put-IsUsed 0 f.boot;
    super = (put-IsUsed 1 f.super.0, f.super.1);
    marked = λ c lt. put-IsUsed (bblock c fs.sb) (f.marked c lt);
    mounted =
        ap (λ (m : Memory). readsb (record fs { block = λ c. m }))
          (ap (λ (t : Bool). if t then m else fs.block 1) (==_of_ne 1 a (λ e. o.1 (sym e))))
        ∙ f.mounted;
  }

-- What a successful `balloc` means for the blocks that files own.
pub record Fresh (fs fs' : Fs) (b : ℕ) : Type 0 where
  pub unused : ¬ IsUsed fs b
  pub nonzero : b ≢ 0
  pub small : b < 2 ^ 32
  pub own : IsOwn fs' b
  pub zeros : (i : ℕ) → fs'.block b i ≡ 0
  pub uses : (c : ℕ) → IsUsed fs c → IsUsed fs' c
  pub only : (c : ℕ) → c ≢ b → IsUsed fs' c → IsUsed fs c
  pub owns : (c : ℕ) → IsOwn fs c → IsOwn fs' c
  pub blocks : (c : ℕ) → IsOwn fs c → fs'.block c ≡ fs.block c
  pub same_sb : fs'.sb ≡ fs.sb
  pub good : IsFs fs'

pub balloc-Fresh : (fs fs' : Fs) (b : ℕ) → IsFs fs → AllocSpec fs (some (b, fs')) → Fresh fs fs' b
balloc-Fresh fs fs' b f (lt, free, low, bits, zeros, kept, same, good) = record {
  unused = λ u. u.1 free;
  nonzero = λ e. f.boot.1 (ap (λ (x : ℕ). bit_of x fs) (sym e) ∙ free);
  small = omega (arith, lt, f.small);
  own = (
    (
      (subst (λ (s : Superblock). b < s.size) (sym same) lt, λ e. ground (arith, e, bits b lt)),
      subst (λ (s : Superblock). (c : ℕ) → c < s.size → bblock c s ≢ b) (sym same)
          (λ c lt' e. (f.marked c lt').1 (ap (λ (x : ℕ). bit_of x fs) e ∙ free)),
    ),
    λ e. f.super.0.1 (ap (λ (x : ℕ). bit_of x fs) (sym e) ∙ free),
  );
  zeros = zeros;
  uses = still;
  only = λ c ne u.
      let lt' : c < fs.sb.size = subst (λ (s : Superblock). c < s.size) same u.0 in
      (lt', λ e. u.1 (bits c lt' ∙ rw (==_of_ne b c (λ z. ne (sym z))) e));
  owns = λ c d. (
    (
      still c d.0.0,
      subst (λ (s : Superblock). (x : ℕ) → x < s.size → bblock x s ≢ c) (sym same) d.0.1,
    ),
    d.1,
  );
  blocks = λ c d. kept c d.0;
  same_sb = same;
  good = good;
}
  where
    still : (c : ℕ) → IsUsed fs c → IsUsed fs' c
    still c u = (
      subst (λ (s : Superblock). c < s.size) (sym same) u.0,
      λ e. ground (arith, e, bits c u.0, u.1),
    )

-- Entry `j` of the indirect block `a`, if there is one.
abbrev pub named : (ℕ → Memory) → ℕ → ℕ → ℕ
named block a j = if a == 0 then 0 else load_word (block a) (4 * j)

-- Block `n` of a file: those of `addrs`, its last one being the indirect block; then those that the
-- indirect block names; and last the block with the inode itself.
abbrev pub node : Fs → Inode → ℕ → ℕ
node fs ip n =
    if ltb n 13
    then ip.addrs n
    else if ltb n 141
    then named fs.block (ip.addrs 12) (n - 13)
    else iblock ip.inum fs.sb

-- The file's blocks are its own, and no block is in two places.
pub record IsFile (fs : Fs) (ip : Inode) : Type 0 where
  pub own : (n : ℕ) → n < 142 → node fs ip n ≢ 0 → IsOwn fs (node fs ip n)
  pub once : (m n : ℕ) → m < 142 → n < 142 → node fs ip m ≢ 0 → node fs ip m ≡ node fs ip n → m ≡ n
  pub home : node fs ip 141 ≢ 0

-- A file that gets one new block.
pub IsFile-extend :
    (fs fs' : Fs) (ip ip' : Inode) (i b : ℕ)
    → IsFile fs ip
    → i < 141
    → ((c : ℕ) → IsOwn fs c → IsOwn fs' c)
    → IsOwn fs' b
    → ¬ IsUsed fs b
    → ((n : ℕ) → n < 142 → node fs' ip' n ≡ (if i == n then b else node fs ip n))
    → IsFile fs' ip'
IsFile-extend fs fs' ip ip' i b file lt owns own unused nodes = record {
  own = λ n small ne. elim (ℕ_discrete i n) [
    | yes e ↦ subst (IsOwn fs') (sym (here n small e)) own
    | no z ↦
        subst (IsOwn fs') (sym (there n small z))
          (owns (node fs ip n) (file.own n small (λ zero. ne (there n small z ∙ zero))))
  ];
  once = λ m n lm ln ne e. elim (ℕ_discrete i m) [
    | yes em ↦ elim (ℕ_discrete i n) [
      | yes en ↦ sym em ∙ en
      | no zn ↦ absurd (
          unused (
            subst (IsUsed fs) (sym (there n ln zn) ∙ sym e ∙ here m lm em)
              (file.own n ln (λ z. ne (e ∙ there n ln zn ∙ z))).0.0))
    ]
    | no zm ↦ elim (ℕ_discrete i n) [
      | yes en ↦ absurd (
          unused (
            subst (IsUsed fs) (sym (there m lm zm) ∙ e ∙ here n ln en)
              (file.own m lm (λ z. ne (there m lm zm ∙ z))).0.0))
      | no zn ↦
          file.once m n lm ln (λ z. ne (there m lm zm ∙ z))
            (sym (there m lm zm) ∙ e ∙ there n ln zn)
    ]
  ];
  home = λ e. file.home (sym (there 141 (omega arith) (omega arith)) ∙ e);
}
  where
    here : (n : ℕ) → n < 142 → i ≡ n → node fs' ip' n ≡ b
    here n small e =
        nodes n small ∙ ap (λ (t : Bool). if t then b else node fs ip n) ((==_iff i n).1 e)

    there : (n : ℕ) → n < 142 → i ≢ n → node fs' ip' n ≡ node fs ip n
    there n small z =
        nodes n small ∙ ap (λ (t : Bool). if t then b else node fs ip n) (==_of_ne i n z)
