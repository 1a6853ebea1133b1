-- ===== src/Xv6/Fs/Step.antt =====
-- Asg02/xv6-2/fs.c: a step that finds a block of a file or makes one.
use cs5460spring.Base.{
  ℕ, ◌+◌, ◌*◌, ◌^◌, ◌≤◌, ◌<◌, ◌≡◌, ◌≢◌, refl, ◌∙◌, sym, subst, arith, true, false, if◌then◌else◌,
  ◌&&◌, ltb, leb, ◌==◌, ==_refl, ==_of_ne, ℕ_discrete,
}
use cs5460spring.Xv6.Str.{Memory, store_word}
use cs5460spring.Xv6.Syscall.{load_word}
use cs5460spring.Xv6.Fs.{Fs}
use cs5460spring.Xv6.Fs.Alloc.{IsUsed, IsFs}
use cs5460spring.Xv6.Fs.Inode.{ndirect, Inode}
use cs5460spring.Xv6.Fs.Owned.{IsOwn, node, IsFile, IsFile-extend}

pub load_word-ext :
    (m m' : Memory) (a : ℕ) → ((i : ℕ) → m i ≡ m' i) → load_word m a ≡ load_word m' a
load_word-ext m m' a h = omega (arith, h a, h (a + 1), h (a + 2), h (a + 3))

pub load_word-store_word :
    (m : Memory) (j i x : ℕ)
    → x < 2 ^ 32
    → load_word (store_word m (4 * j) x) (4 * i) ≡ (if j == i then x else load_word m (4 * i))
load_word-store_word m j i x small = ground arith

pub is_below : (n k : ℕ) → n < k → ltb n k ≡ true
is_below n k l = ground (arith, l)

pub is_above : (n k : ℕ) → ¬ (n < k) → ltb n k ≡ false
is_above n k l = ground (arith, l)

pub is_within : (lo hi j : ℕ) → lo ≤ j → j < hi → (leb lo j && ltb j hi) ≡ true
is_within lo hi j le lt = ground (arith, le, lt)

pub is_before : (lo hi j : ℕ) → j < lo → (leb lo j && ltb j hi) ≡ false
is_before lo hi j lt = ground (arith, lt)

pub is_behind : (lo hi j : ℕ) → hi ≤ j → (leb lo j && ltb j hi) ≡ false
is_behind lo hi j le = ground (arith, le)

-- What is found or made at index `i` of a file, and what stays.
pub record Step (fs fs' : Fs) (ip ip' : Inode) (i addr : ℕ) : Type 0 where
  pub at : node fs' ip' i ≡ addr
  pub nonzero : addr ≢ 0
  pub others : (n : ℕ) → n < 142 → n ≢ i → n ≢ ndirect → node fs' ip' n ≡ node fs ip n
  pub found : node fs ip i ≢ 0 → addr ≡ node fs ip i
  pub fresh : node fs ip i ≡ 0 → ¬ IsUsed fs addr × ((j : ℕ) → fs'.block addr j ≡ 0)
  pub blocks : (c : ℕ) → IsOwn fs c → c ≢ node fs ip ndirect → fs'.block c ≡ fs.block c
  pub owns : (c : ℕ) → IsOwn fs c → IsOwn fs' c
  pub uses : (c : ℕ) → IsUsed fs c → IsUsed fs' c
  pub same_sb : fs'.sb ≡ fs.sb
  pub good : IsFs fs'
  pub file : IsFile fs' ip'
  pub same_size : ip'.size ≡ ip.size
  pub same_type : ip'.type ≡ ip.type

pub Step-here :
    (fs : Fs) (ip : Inode) (i : ℕ)
    → IsFs fs
    → IsFile fs ip
    → node fs ip i ≢ 0
    → Step fs fs ip ip i (node fs ip i)
Step-here fs ip i f file ne = record {
  at = refl;
  nonzero = ne;
  others = λ n lt z z'. refl;
  found = λ z. refl;
  fresh = λ z. absurd (ne z);
  blocks = λ c o z. refl;
  owns = λ c o. o;
  uses = λ c u. u;
  same_sb = refl;
  good = f;
  file = file;
  same_size = refl;
  same_type = refl;
}

-- A new block at index `i`, put where the file's other blocks stay.
pub Step-new :
    (fs fs' : Fs) (ip ip' : Inode) (i b : ℕ)
    → IsFile fs ip
    → i < 141
    → node fs ip i ≡ 0
    → IsFs fs'
    → ((c : ℕ) → IsOwn fs c → IsOwn fs' c)
    → ((c : ℕ) → IsUsed fs c → IsUsed fs' c)
    → fs'.sb ≡ fs.sb
    → ((c : ℕ) → IsOwn fs c → c ≢ node fs ip ndirect → fs'.block c ≡ fs.block c)
    → ((j : ℕ) → fs'.block b j ≡ 0)
    → IsOwn fs' b
    → ¬ IsUsed fs b
    → b ≢ 0
    → ip'.size ≡ ip.size
    → ip'.type ≡ ip.type
    → ((n : ℕ) → n < 142 → node fs' ip' n ≡ (if i == n then b else node fs ip n))
    → Step fs fs' ip ip' i b
Step-new fs fs' ip ip' i b file lt unset f owns uses same blocks zeros own unused nonzero size type
      nodes =
    record {
      at = nodes i (omega arith) ∙ rw (==_refl i) refl;
      nonzero = nonzero;
      others = λ n small z z'. nodes n small ∙ rw (==_of_ne i n (λ e. z (sym e))) refl;
      found = λ z. absurd (z unset);
      fresh = λ z. (unused, zeros);
      blocks = blocks;
      owns = owns;
      uses = uses;
      same_sb = same;
      good = f;
      file = IsFile-extend fs fs' ip ip' i b file lt owns own unused nodes;
      same_size = size;
      same_type = type;
    }

-- Two steps, the first at the indirect block.
pub then-Step :
    (fs fs1 fs2 : Fs) (ip ip1 ip2 : Inode) (i a b : ℕ)
    → i < 142
    → i ≢ ndirect
    → Step fs fs1 ip ip1 ndirect a
    → Step fs1 fs2 ip1 ip2 i b
    → Step fs fs2 ip ip2 i b
then-Step fs fs1 fs2 ip ip1 ip2 i a b lt ne s t = record {
  at = t.at;
  nonzero = t.nonzero;
  others = λ n small z z'. t.others n small z z' ∙ s.others n small z' z';
  found = λ z. t.found (λ e. z (sym same ∙ e)) ∙ same;
  fresh = λ z. let new = t.fresh (same ∙ z) in ((λ u. new.0 (s.uses b u)), new.1);
  blocks = λ c o z. t.blocks c (s.owns c o) (λ e. apart c o z (e ∙ s.at)) ∙ s.blocks c o z;
  owns = λ c o. t.owns c (s.owns c o);
  uses = λ c u. t.uses c (s.uses c u);
  same_sb = t.same_sb ∙ s.same_sb;
  good = t.good;
  file = t.file;
  same_size = t.same_size ∙ s.same_size;
  same_type = t.same_type ∙ s.same_type;
}
  where
    same : node fs1 ip1 i ≡ node fs ip i
    same = s.others i lt ne ne

    apart : (c : ℕ) → IsOwn fs c → c ≢ node fs ip ndirect → c ≢ a
    apart c o z e = elim (ℕ_discrete (node fs ip ndirect) 0) [
      | yes none_yet ↦ (s.fresh none_yet).0 (subst (IsUsed fs) e o.0.0)
      | no there ↦ z (e ∙ s.found there)
    ]
