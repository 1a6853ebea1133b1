-- ===== src/Xv6/Fs/Bmap.antt =====
-- Asg02/xv6-2/fs.c: what `bmap` does to a file.
use cs5460spring.Base.{
  ℕ, ◌+◌, ◌-◌, ◌*◌, ◌<◌, ◌≡◌, ◌≢◌, refl, ◌∙◌, sym, ap, ap₂, subst, arith, Option, none, some, Bool,
  if◌then◌else◌, ltb, ◌==◌, ==_iff, ==_refl, ==_of_ne, ℕ_discrete, dec_lt,
}
use cs5460spring.Xv6.Str.{Memory, store_word}
use cs5460spring.Xv6.Syscall.{load_word}
use cs5460spring.Xv6.Fs.{Superblock, Fs, put_block, balloc}
use cs5460spring.Xv6.Fs.Alloc.{IsUsed, IsFs, AllocSpec, balloc_lem}
use cs5460spring.Xv6.Fs.Inode.{ndirect, nindirect, Inode, iblock}
use cs5460spring.Xv6.Fs.Content.{set_addr, own_block, indirect_block, bmap, maxfile}
use cs5460spring.Xv6.Fs.Step.{
  load_word-ext, load_word-store_word, is_below, is_above, Step, Step-here, Step-new, then-Step,
}
use cs5460spring.Xv6.Fs.Owned.{
  IsOwn, put-bit_of, put-IsUsed, put-IsOwn, put-IsFs, Fresh, balloc-Fresh, named, node, IsFile,
}

-- The entries of a file after entry `i` of `addrs` got a fresh block.
own_block-nodes :
    (fs fs' : Fs) (ip : Inode) (i b : ℕ)
    → IsFile fs ip
    → Fresh fs fs' b
    → i < 13
    → ip.addrs i ≡ 0
    → (n : ℕ) → n < 142
    → node fs' (set_addr i b ip) n ≡ (if i == n then b else node fs ip n)
own_block-nodes fs fs' ip i b file r lt empty n small = elim (dec_lt n 13) [
  | yes direct ↦ rw (is_below n 13 direct) refl
  | no nd ↦
      rw (is_above n 13 nd, ==_of_ne i n (omega arith))
        (elim (dec_lt n 141) [
          | yes indirect ↦ rw (is_below n 141 indirect) (elim (ℕ_discrete i 12) [
            | yes e ↦ rw ((==_iff i 12).1 e) (
                rw (==_of_ne b 0 r.nonzero)
                  (load_word-ext (fs'.block b) (λ j. 0) (4 * (n - 13)) r.zeros)
                ∙ sym (ap (λ (a : ℕ). named fs.block a (n - 13)) (ap ip.addrs (sym e) ∙ empty)))
            | no ne ↦ rw (==_of_ne i 12 ne) (
                named-same (ip.addrs 12) (n - 13)
                  (λ z. r.blocks (ip.addrs 12) (file.own 12 (omega arith) z)))
          ])
          | no home ↦ rw (is_above n 141 home) (ap (iblock ip.inum) r.same_sb)
        ])
]
  where
    named-same :
        (a j : ℕ) → (a ≢ 0 → fs'.block a ≡ fs.block a) → named fs'.block a j ≡ named fs.block a j
    named-same a j same = elim (ℕ_discrete a 0) [
      | yes e ↦ rw ((==_iff a 0).1 e) refl
      | no ne ↦ rw (==_of_ne a 0 ne) (ap (λ (m : Memory). load_word m (4 * j)) (same ne))
    ]

-- What a call that finds or makes index `i` leaves; it panics if no block is free.
abbrev OwnSpec : Fs → Inode → ℕ → Option (ℕ × Inode × Fs) → Type 0
OwnSpec fs ip i none = (c : ℕ) → c < fs.sb.size → IsUsed fs c
OwnSpec fs ip i (some (addr, ip', fs')) =
    Step fs fs' ip ip' i addr × ((c : ℕ) → c ≢ addr → IsUsed fs' c → IsUsed fs c)

own_block_lem :
    (fs : Fs) (ip : Inode) (i : ℕ)
    → IsFs fs
    → IsFile fs ip
    → i < 13
    → OwnSpec fs ip i (own_block ip i fs)
unfolding own_block
own_block_lem fs ip i f file lt = elim (ℕ_discrete (ip.addrs i) 0) [
  | no ne ↦ rw (==_of_ne (ip.addrs i) 0 ne) (
    subst (Step fs fs ip ip i) direct (Step-here fs ip i f file (λ z. ne (sym direct ∙ z))),
    λ c z u. u,
  )
  | yes e ↦ rw ((==_iff (ip.addrs i) 0).1 e) (fresh e (balloc fs) (balloc_lem fs f))
]
  where
    direct : node fs ip i ≡ ip.addrs i
    direct = rw (is_below i 13 lt) refl

    fresh :
        ip.addrs i ≡ 0
        → (r : Option (ℕ × Fs)) → AllocSpec fs r
        → OwnSpec fs ip i (elim r [ none ↦ none | some (b, fs') ↦ some (b, set_addr i b ip, fs') ])
    fresh e none s = s
    fresh e (some (b, fs')) s =
        let r : Fresh fs fs' b = balloc-Fresh fs fs' b f s in
        (
          Step-new fs fs' ip (set_addr i b ip) i b file (omega arith) (direct ∙ e) r.good r.owns
              r.uses r.same_sb (λ c o z. r.blocks c o) r.zeros r.own r.unused r.nonzero refl refl
              (own_block-nodes fs fs' ip i b file r lt e),
          r.only,
        )

-- The entries of a file after entry `j` of its indirect block got a fresh block.
indirect-nodes :
    (fs fs' : Fs) (ip : Inode) (j b : ℕ)
    → IsFile fs ip
    → Fresh fs fs' b
    → j < nindirect
    → ip.addrs 12 ≢ 0
    → (n : ℕ) → n < 142
    → node (put_block (ip.addrs 12) (store_word (fs'.block (ip.addrs 12)) (4 * j) b) fs') ip n
      ≡ (if 13 + j == n then b else node fs ip n)
indirect-nodes fs fs' ip j b file r lt ne n small = elim (dec_lt n 13) [
  | yes direct ↦ rw (is_below n 13 direct, ==_of_ne (13 + j) n (omega arith)) refl
  | no nd ↦ rw (is_above n 13 nd) (elim (dec_lt n 141) [
    | yes indirect ↦
        rw (is_below n 141 indirect, ==_of_ne (ip.addrs 12) 0 ne, ==_refl (ip.addrs 12))
          (load_word-store_word (fs'.block (ip.addrs 12)) j (n - 13) b r.small
            ∙ ap₂ (λ (t : Bool) (x : ℕ). if t then b else x) (shifted nd)
                (ap (λ (m : Memory). load_word m (4 * (n - 13)))
                  (r.blocks (ip.addrs 12) (file.own 12 (omega arith) ne))))
    | no home ↦
        rw (is_above n 141 home, ==_of_ne (13 + j) n (omega arith)) (ap (iblock ip.inum) r.same_sb)
  ])
]
  where
    shifted : ¬ (n < 13) → (j == n - 13) ≡ (13 + j == n)
    shifted nd = ground (arith, nd)

-- The same of entry `j` of the indirect block.
abbrev IndirectSpec : Fs → Inode → ℕ → Option (ℕ × Fs) → Type 0
IndirectSpec fs ip j none = (c : ℕ) → c < fs.sb.size → IsUsed fs c
IndirectSpec fs ip j (some (addr, fs')) =
    Step fs fs' ip ip (13 + j) addr × ((c : ℕ) → c ≢ addr → IsUsed fs' c → IsUsed fs c)

indirect_block_lem :
    (fs : Fs) (ip : Inode) (j : ℕ)
    → IsFs fs
    → IsFile fs ip
    → j < nindirect
    → ip.addrs 12 ≢ 0
    → IndirectSpec fs ip j (indirect_block (ip.addrs 12) j fs)
unfolding indirect_block
indirect_block_lem fs ip j f file lt ne =
    elim (ℕ_discrete (load_word (fs.block (ip.addrs 12)) (4 * j)) 0) [
      | no there ↦ rw (==_of_ne (load_word (fs.block (ip.addrs 12)) (4 * j)) 0 there) (
        subst (Step fs fs ip ip (13 + j)) at
            (Step-here fs ip (13 + j) f file (λ z. there (sym at ∙ z))),
        λ c z u. u,
      )
      | yes e ↦
          rw ((==_iff (load_word (fs.block (ip.addrs 12)) (4 * j)) 0).1 e)
            (fresh e (balloc fs) (balloc_lem fs f))
    ]
  where
    at : node fs ip (13 + j) ≡ load_word (fs.block (ip.addrs 12)) (4 * j)
    at =
        let e : 13 + j - 13 ≡ j = omega arith in
        rw
          (
            is_above (13 + j) 13 (omega arith),
            is_below (13 + j) 141 (omega arith),
            ==_of_ne (ip.addrs 12) 0 ne,
            e,
          )
          refl

    fresh :
        load_word (fs.block (ip.addrs 12)) (4 * j) ≡ 0
        → (r : Option (ℕ × Fs)) → AllocSpec fs r
        → IndirectSpec fs ip j (elim r [
          | none ↦ none
          | some (b, fs') ↦
              some (b, put_block (ip.addrs 12) (store_word (fs'.block (ip.addrs 12)) (4 * j) b) fs')
        ])
    fresh e none s = s
    fresh e (some (b, fs')) s =
        let r : Fresh fs fs' b = balloc-Fresh fs fs' b f s in
        let a = ip.addrs 12 in
        let o : IsOwn fs a = file.own 12 (omega arith) ne in
        let m = store_word (fs'.block a) (4 * j) b in
        let apart : b ≢ a = λ z. r.unused (subst (IsUsed fs) (sym z) o.0.0) in
        (
          Step-new fs (put_block a m fs') ip ip (13 + j) b file (omega arith) (at ∙ e)
              (put-IsFs fs' a m (r.owns a o) r.good)
              (λ c d. put-IsOwn fs' a m (r.owns a o) c (r.owns c d))
              (λ c u. put-IsUsed fs' a m (r.owns a o) c (r.uses c u)) r.same_sb
              (λ c d z. rw (==_of_ne c a z) (r.blocks c d))
              (λ i. rw (==_of_ne b a apart) (r.zeros i)) (put-IsOwn fs' a m (r.owns a o) b r.own)
              r.unused r.nonzero refl refl (indirect-nodes fs fs' ip j b file r lt ne),
          λ c z u. r.only c z (u.0, λ e. u.1 (put-bit_of fs' a m (r.owns a o) c u.0 ∙ e)),
        )

-- The index of block `bn` of the content.
abbrev pub slot : ℕ → ℕ
slot bn = if ltb bn ndirect then bn else bn + 1

-- What `bmap` does: it takes two blocks into use at most, and panics only if at most one is free.
abbrev pub BmapSpec : Fs → Inode → ℕ → Option (ℕ × Inode × Fs) → Type 0
BmapSpec fs ip bn none = (b : ℕ) × ((c : ℕ) → c < fs.sb.size → c ≢ b → IsUsed fs c)
BmapSpec fs ip bn (some (addr, ip', fs')) =
    Step fs fs' ip ip' (slot bn) addr
    × (a : ℕ) × ((c : ℕ) → c ≢ addr → c ≢ a → IsUsed fs' c → IsUsed fs c)

-- On a file system in order, for a block of the content below MAXFILE: `bmap` answers the block at its
-- index. If there was one it is that; else it is a block that was free, zeroed and linked, with a new
-- indirect block if needed. The other indices of the file, but for that of the indirect block, keep
-- their blocks; all blocks that files own, but for the indirect one, keep their bytes; no block of the
-- file is in two places; and the file system stays in order. It panics only if at most one block is
-- free.
pub bmap_lem :
    (fs : Fs) (ip : Inode) (bn : ℕ)
    → IsFs fs
    → IsFile fs ip
    → bn < maxfile
    → BmapSpec fs ip bn (bmap ip bn fs)
unfolding bmap
bmap_lem fs ip bn f file lt = elim (dec_lt bn ndirect) [
  | yes direct ↦
      rw (is_below bn ndirect direct)
        (in_addrs direct (own_block ip bn fs) (own_block_lem fs ip bn f file (omega arith)))
  | no nd ↦
      rw (is_above bn ndirect nd, is_below (bn - ndirect) nindirect (omega arith))
        (by_indirect nd (own_block ip ndirect fs)
          (own_block_lem fs ip ndirect f file (omega arith)))
]
  where
    in_addrs :
        bn < ndirect → (r : Option (ℕ × Inode × Fs)) → OwnSpec fs ip bn r → BmapSpec fs ip bn r
    in_addrs direct none s = (0, λ c small z. s c small)
    in_addrs direct (some (addr, ip', fs')) (s, only) =
        rw (is_below bn ndirect direct) (s, 0, λ c z z' u. only c z u)

    second :
        ¬ (bn < ndirect)
        → (addr : ℕ) (ip' : Inode) (fs' : Fs) → Step fs fs' ip ip' ndirect addr
        → ((c : ℕ) → c ≢ addr → IsUsed fs' c → IsUsed fs c)
        → (r : Option (ℕ × Fs)) → IndirectSpec fs' ip' (bn - ndirect) r
        → BmapSpec fs ip bn (elim r [ none ↦ none | some (b, fs'') ↦ some (b, ip', fs'') ])
    second nd addr ip' fs' s only none t = (
      addr,
      λ c small z. only c z (t c (subst (λ (b : Superblock). c < b.size) (sym s.same_sb) small)),
    )
    second nd addr ip' fs' s only (some (b, fs'')) (t, only') =
        let e : 13 + (bn - ndirect) ≡ slot bn = rw (is_above bn ndirect nd) (omega arith) in
        (
          then-Step fs fs' fs'' ip ip' ip' (slot bn) addr b (omega (arith, e)) (omega (arith, e)) s
              (subst (λ (i : ℕ). Step fs' fs'' ip' ip' i b) e t),
          addr,
          λ c z z' u. only c z' (only' c z u),
        )

    by_indirect :
        ¬ (bn < ndirect)
        → (r : Option (ℕ × Inode × Fs)) → OwnSpec fs ip ndirect r
        → BmapSpec fs ip bn (elim r [
          | none ↦ none
          | some (addr, ip', fs') ↦ elim (indirect_block addr (bn - ndirect) fs') [
            | none ↦ none
            | some (b, fs'') ↦ some (b, ip', fs'')
          ]
        ])
    by_indirect nd none s = (0, λ c small z. s c small)
    by_indirect nd (some (addr, ip', fs')) (s, only) =
        second nd addr ip' fs' s only (indirect_block addr (bn - ndirect) fs') (
          subst
            (λ (a : ℕ). IndirectSpec fs' ip' (bn - ndirect) (indirect_block a (bn - ndirect) fs'))
            s.at
            (indirect_block_lem fs' ip' (bn - ndirect) s.good s.file (omega arith)
              (λ e. s.nonzero (sym s.at ∙ e))))
