-- ===== src/Xv6/Fs/Write.antt =====
-- Asg02/xv6-2/fs.c: what one round of `writei` does.
use cs5460spring.Base.{
  ℕ, ◌+◌, ◌-◌, ◌*◌, ◌/◌, ◌%◌, ◌≤◌, ◌<◌, ◌≡◌, ◌≢◌, ◌⊎◌, refl, ◌∙◌, sym, ap, subst, inl, inr, arith,
  Bool, if◌then◌else◌, ==_iff, ==_refl, ==_of_ne, ℕ_discrete, dec_lt,
}
use cs5460spring.Xv6.Str.{Memory}
use cs5460spring.Xv6.Fs.{bsize, Fs, put_block}
use cs5460spring.Xv6.Fs.Alloc.{IsFs}
use cs5460spring.Xv6.Fs.Inode.{ndirect, Inode}
use cs5460spring.Xv6.Fs.Content.{moved, maxfile}
use cs5460spring.Xv6.Fs.Owned.{IsOwn, put-IsOwn, put-IsFs, node, IsFile}
use cs5460spring.Xv6.Fs.Step.{is_below, is_above, is_within, is_before, is_behind, Step}
use cs5460spring.Xv6.Fs.Bmap.{slot}
use cs5460spring.Xv6.Fs.Read.{block_at, content}

slot_lem : (m n : ℕ) → m ≢ n → slot m ≢ slot n
slot_lem m n ne = ground (arith, ne)

slot_small : (n : ℕ) → n < maxfile → slot n < 141
slot_small n lt = ground (arith, lt)

slot_direct : (n : ℕ) → slot n ≢ ndirect
slot_direct n = ground arith

-- New bytes in a block of the file other than the indirect one.
module _ (fs : Fs) (ip : Inode) (s : ℕ) (m : Memory) (file : IsFile fs ip) (lt : s < 142)
    (ne : s ≢ ndirect) (there : node fs ip s ≢ 0) where
  abbrev pub rewritten : Fs
  rewritten = put_block (node fs ip s) m fs

  pub put-node : (n : ℕ) → node rewritten ip n ≡ node fs ip n
  put-node n = elim (dec_lt n 13) [
    | yes direct ↦ rw (is_below n 13 direct) refl
    | no nd ↦ rw (is_above n 13 nd) (elim (dec_lt n 141) [
      | no home ↦ rw (is_above n 141 home) refl
      | yes indirect ↦ rw (is_below n 141 indirect) (elim (ℕ_discrete (ip.addrs 12) 0) [
        | yes e ↦ rw ((==_iff (ip.addrs 12) 0).1 e) refl
        | no z ↦
            rw
              (==_of_ne (ip.addrs 12) (node fs ip s)
                (λ e. ne (sym (file.once 12 s (omega arith) lt z e))))
              refl
      ])
    ])
  ]

  pub put-IsFile : IsFile rewritten ip
  put-IsFile = record {
    own = λ n small z. subst (IsOwn rewritten) (sym (put-node n)) (
        put-IsOwn fs (node fs ip s) m (file.own s lt there) (node fs ip n)
          (file.own n small (λ e. z (put-node n ∙ e))));
    once = λ a b la lb z e.
        file.once a b la lb (λ e'. z (put-node a ∙ e')) (sym (put-node a) ∙ e ∙ put-node b);
    home = λ e. file.home (sym (put-node 141) ∙ e);
  }

-- What a write of the bytes from `lo` up to `hi` leaves.
pub record Written (fs fs' : Fs) (ip ip' : Inode) (lo hi : ℕ) (src : Memory) : Type 0 where
  pub present : (i : ℕ) → lo ≤ i → i < hi → block_at fs' ip' i ≢ 0
  pub new : (i : ℕ) → lo ≤ i → i < hi → content fs' ip' i ≡ src (i - lo)
  pub old :
      (i : ℕ)
      → i < maxfile * bsize
      → (i < lo) ⊎ (hi ≤ i)
      → block_at fs ip i ≢ 0
      → (block_at fs' ip' i ≡ block_at fs ip i) × (content fs' ip' i ≡ content fs ip i)
  pub good : IsFs fs'
  pub file : IsFile fs' ip'
  pub same_type : ip'.type ≡ ip.type
  pub same_sb : fs'.sb ≡ fs.sb

module _ (fs fs1 : Fs) (ip ip1 : Inode) (off m b : ℕ) (src : Memory) (file : IsFile fs ip)
    (lt : off < maxfile * bsize) (fits : off % bsize + m ≤ bsize)
    (s : Step fs fs1 ip ip1 (slot (off / bsize)) b) where
  -- The disk after the round.
  abbrev pub stored : Fs
  stored = put_block b (moved (fs1.block b) (off % bsize) m src) fs1

  small : slot (off / bsize) < 142
  small = omega (arith, slot_small (off / bsize) (omega arith))

  there : node fs1 ip1 (slot (off / bsize)) ≢ 0
  there e = s.nonzero (sym s.at ∙ e)

  pub own_block_of : IsOwn fs1 b
  own_block_of = subst (IsOwn fs1) s.at (s.file.own (slot (off / bsize)) small there)

  same_node : (n : ℕ) → node stored ip1 n ≡ node fs1 ip1 n
  same_node n =
      subst
        (λ (x : ℕ).
          node (put_block x (moved (fs1.block b) (off % bsize) m src) fs1) ip1 n ≡ node fs1 ip1 n)
        s.at
        (put-node fs1 ip1 (slot (off / bsize)) (moved (fs1.block b) (off % bsize) m src) s.file
          small (slot_direct (off / bsize)) there n)

  stored-IsFile : IsFile stored ip1
  stored-IsFile =
      subst (λ (x : ℕ). IsFile (put_block x (moved (fs1.block b) (off % bsize) m src) fs1) ip1) s.at
        (put-IsFile fs1 ip1 (slot (off / bsize)) (moved (fs1.block b) (off % bsize) m src) s.file
          small (slot_direct (off / bsize)) there)

  -- The block of the round, and the other ones.
  block_here : (i : ℕ) → i / bsize ≡ off / bsize → block_at stored ip1 i ≡ b
  block_here i e = same_node (slot (i / bsize)) ∙ ap (λ (q : ℕ). node fs1 ip1 (slot q)) e ∙ s.at

  content_here :
      (i : ℕ)
      → i / bsize ≡ off / bsize
      → content stored ip1 i ≡ moved (fs1.block b) (off % bsize) m src (i % bsize)
  content_here i e =
      ap (λ (x : ℕ). stored.block x (i % bsize)) (block_here i e) ∙ rw (==_refl b) refl

  untouched :
      (i : ℕ)
      → i < maxfile * bsize
      → block_at fs ip i ≢ 0
      → fs1.block (block_at fs ip i) ≡ fs.block (block_at fs ip i)
  untouched i lt' z =
      let in_file : slot (i / bsize) < 142 = omega (arith, slot_small (i / bsize) (omega arith)) in
      s.blocks (block_at fs ip i) (file.own (slot (i / bsize)) in_file z) (λ e.
        slot_direct (i / bsize) (file.once (slot (i / bsize)) ndirect in_file (omega arith) z e))

  kept_block :
      (i : ℕ)
      → i < maxfile * bsize
      → i / bsize ≢ off / bsize
      → block_at fs ip i ≢ 0
      → (block_at stored ip1 i ≡ block_at fs ip i) × (content stored ip1 i ≡ content fs ip i)
  kept_block i lt' ne z =
      let before : node fs1 ip1 (slot (i / bsize)) ≡ block_at fs ip i =
        s.others (slot (i / bsize)) (omega (arith, slot_small (i / bsize) (omega arith)))
          (slot_lem (i / bsize) (off / bsize) ne) (slot_direct (i / bsize)) in
      let same : block_at stored ip1 i ≡ block_at fs ip i = same_node (slot (i / bsize)) ∙ before in
      (
        same,
        ap (λ (x : ℕ). stored.block x (i % bsize)) same
            ∙ ap (λ (m' : Memory). m' (i % bsize)) (same_bytes (apart before)),
      )
    where
      same_bytes :
          block_at fs ip i ≢ b → stored.block (block_at fs ip i) ≡ fs.block (block_at fs ip i)
      same_bytes w = rw (==_of_ne (block_at fs ip i) b w) (untouched i lt' z)

      apart : node fs1 ip1 (slot (i / bsize)) ≡ block_at fs ip i → block_at fs ip i ≢ b
      apart before e = slot_lem (i / bsize) (off / bsize) ne (
          s.file.once (slot (i / bsize)) (slot (off / bsize))
            (omega (arith, slot_small (i / bsize) (omega arith))) small (λ w. z (sym before ∙ w))
            (before ∙ e ∙ sym s.at))

  kept_rest :
      (i : ℕ)
      → i < maxfile * bsize
      → (i < off) ⊎ (off + m ≤ i)
      → block_at fs ip i ≢ 0
      → i / bsize ≡ off / bsize
      → (block_at stored ip1 i ≡ block_at fs ip i) × (content stored ip1 i ≡ content fs ip i)
  kept_rest i lt' out z e =
      let same_slot : block_at fs ip i ≡ node fs ip (slot (off / bsize)) =
        ap (λ (q : ℕ). node fs ip (slot q)) e in
      let found : b ≡ block_at fs ip i = s.found (λ w. z (same_slot ∙ w)) ∙ sym same_slot in
      (
        block_here i e ∙ found,
        content_here i e
            ∙ outside i e out
            ∙ ap (λ (x : ℕ). fs1.block x (i % bsize)) found
            ∙ ap (λ (m' : Memory). m' (i % bsize)) (untouched i lt' z),
      )
    where
      outside :
          (i : ℕ)
          → i / bsize ≡ off / bsize
          → (i < off) ⊎ (off + m ≤ i)
          → moved (fs1.block b) (off % bsize) m src (i % bsize) ≡ fs1.block b (i % bsize)
      outside i e (inl l) =
          rw (is_before (off % bsize) (off % bsize + m) (i % bsize) (omega (arith, e, l))) refl
      outside i e (inr g) =
          rw (is_behind (off % bsize) (off % bsize + m) (i % bsize) (omega (arith, e, g))) refl

  pub round-Written : Written fs stored ip ip1 off (off + m) src
  round-Written = record {
    present = λ i lo hi e. s.nonzero (sym (block_here i (omega arith)) ∙ e);
    new = λ i lo hi.
        content_here i (omega arith)
        ∙ rw (is_within (off % bsize) (off % bsize + m) (i % bsize) (omega arith) (omega arith))
            (ap src (omega arith));
    old = λ i lt' out z. elim (ℕ_discrete (i / bsize) (off / bsize)) [
      | no ne ↦ kept_block i lt' ne z
      | yes e ↦ kept_rest i lt' out z e
    ];
    good = put-IsFs fs1 b (moved (fs1.block b) (off % bsize) m src) own_block_of s.good;
    file = stored-IsFile;
    same_type = s.same_type;
    same_sb = s.same_sb;
  }

-- New bytes in the block of the inode, and another size.
module _ (fs fs' : Fs) (ip ip' : Inode) (lo hi : ℕ) (src m : Memory) (size : ℕ)
    (top : hi ≤ maxfile * bsize) (w : Written fs fs' ip ip' lo hi src) where
  abbrev pub grown_fs : Fs
  grown_fs = put_block (node fs' ip' 141) m fs'

  abbrev pub grown_ip : Inode
  grown_ip = record ip' { size = size }

  same_at : (n : ℕ) → node grown_fs grown_ip n ≡ node fs' ip' n
  same_at n = put-node fs' ip' 141 m w.file (omega arith) (omega arith) w.file.home n

  same_content :
      (i : ℕ)
      → i < maxfile * bsize
      → block_at fs' ip' i ≢ 0
      → content grown_fs grown_ip i ≡ content fs' ip' i
  same_content i lt z =
      ap (λ (x : ℕ). grown_fs.block x (i % bsize)) (same_at (slot (i / bsize)))
      ∙ ap (λ (t : Bool). (if t then m else fs'.block (block_at fs' ip' i)) (i % bsize))
          (==_of_ne (block_at fs' ip' i) (node fs' ip' 141) (λ e. omega (
            arith,
            slot_small (i / bsize) (omega arith),
            w.file.once (slot (i / bsize)) 141 (omega (arith, slot_small (i / bsize) (omega arith)))
                (omega arith) z e,
          )))

  pub grown-Written : Written fs grown_fs ip grown_ip lo hi src
  grown-Written = record {
    present = λ i l h e. w.present i l h (sym (same_at (slot (i / bsize))) ∙ e);
    new = λ i l h. same_content i (omega arith) (w.present i l h) ∙ w.new i l h;
    old = λ i lt out z.
        let before = w.old i lt out z in
        (
          same_at (slot (i / bsize)) ∙ before.0,
          same_content i lt (λ e. z (sym before.0 ∙ e)) ∙ before.1,
        );
    good = put-IsFs fs' (node fs' ip' 141) m (w.file.own 141 (omega arith) w.file.home) w.good;
    file = record { own = after.own; once = after.once; home = after.home };
    same_type = w.same_type;
    same_sb = w.same_sb;
  }
    where
      after : IsFile grown_fs ip'
      after = put-IsFile fs' ip' 141 m w.file (omega arith) (omega arith) w.file.home
