-- ===== src/Xv6/Fs/WriteLoop.antt =====
-- Asg02/xv6-2/fs.c: what the loop of `writei` writes.
use cs5460spring.Base.{
  ℕ, zero, suc, ◌+◌, ◌-◌, ◌*◌, ◌/◌, ◌%◌, ◌≤◌, ◌<◌, ◌≡◌, refl, ◌∙◌, sym, ap, subst, inl, arith,
  Option, none, some, dec_lt,
}
use cs5460spring.Xv6.Str.{Memory}
use cs5460spring.Xv6.Fs.{bsize, Fs, put_block}
use cs5460spring.Xv6.Fs.Alloc.{IsFs}
use cs5460spring.Xv6.Fs.Inode.{Inode}
use cs5460spring.Xv6.Fs.Content.{bmap, moved, chunk, maxfile, write_from}
use cs5460spring.Xv6.Fs.Owned.{IsOwn, IsFile}
use cs5460spring.Xv6.Fs.Step.{is_below, is_above, Step}
use cs5460spring.Xv6.Fs.Bmap.{slot}
use cs5460spring.Xv6.Fs.Room.{HasRoom, room_put, bmap_answers}
use cs5460spring.Xv6.Fs.Write.{Written, own_block_of, round-Written}

-- Two writes in a row.
then-Written :
    (fs fs1 fs2 : Fs) (ip ip1 ip2 : Inode) (lo m hi : ℕ) (src later : Memory)
    → ((i : ℕ) → later i ≡ src (m + i))
    → hi ≤ maxfile * bsize
    → lo + m ≤ hi
    → Written fs fs1 ip ip1 lo (lo + m) src
    → Written fs1 fs2 ip1 ip2 (lo + m) hi later
    → Written fs fs2 ip ip2 lo hi src
then-Written fs fs1 fs2 ip ip1 ip2 lo m hi src later shift top le s t = record {
  present = λ i l h. elim (dec_lt i (lo + m)) [
    | yes early ↦ λ e.
        s.present i l early (sym (t.old i (omega arith) (inl early) (s.present i l early)).0 ∙ e)
    | no late ↦ t.present i (omega arith) h
  ];
  new = λ i l h. elim (dec_lt i (lo + m)) [
    | yes early ↦ (t.old i (omega arith) (inl early) (s.present i l early)).1 ∙ s.new i l early
    | no late ↦ t.new i (omega arith) h ∙ shift (i - (lo + m)) ∙ ap src (omega arith)
  ];
  old = λ i small out z.
      let first = s.old i small (omega (arith, out)) z in
      let second = t.old i small (omega (arith, out)) (λ e. z (sym first.0 ∙ e)) in
      (second.0 ∙ first.0, second.1 ∙ first.1);
  good = t.good;
  file = t.file;
  same_type = t.same_type ∙ s.same_type;
  same_sb = t.same_sb ∙ s.same_sb;
}

-- How the loop ends: the rest of the buffer is written.
abbrev pub Saves : Fs → Inode → ℕ → ℕ → ℕ → Memory → Option (ℕ × Inode × Fs) → Type 0
Saves fs ip tot off n src r =
    (ip' : Inode) × (fs' : Fs) × (r ≡ some (off + (n - tot), ip', fs'))
    × (ip'.size ≡ ip.size)
    × Written fs fs' ip ip' off (off + (n - tot)) (λ i. src (tot + i))

pub write_from_lem :
    (k : ℕ) (fs : Fs) (ip : Inode) (tot off n : ℕ) (src : Memory)
    → tot ≤ n
    → 0 < k
    → (tot < n → n - tot + off % bsize ≤ bsize * (k - 1))
    → off + (n - tot) ≤ maxfile * bsize
    → IsFs fs
    → IsFile fs ip
    → HasRoom fs (2 * k)
    → Saves fs ip tot off n src (write_from k ip tot off n src fs)
unfolding write_from
write_from_lem zero fs ip tot off n src le pos enough fits f file room = absurd (omega (arith, pos))
write_from_lem (suc k) fs ip tot off n src le pos enough fits f file room = elim (dec_lt tot n) [
  | no done ↦
      rw (is_above tot n done)
        (ip, fs, ap (λ (x : ℕ). some (x, ip, fs)) (omega arith), refl, nothing done)
  | yes more ↦ rw (is_below tot n more) (
      go more
        (bmap_answers fs ip (off / bsize) (2 * k) f file (omega arith)
          (subst (HasRoom fs) (omega arith) room))
        (λ fs' ip' f' file' room'.
          write_from_lem k fs' ip' (tot + chunk off (n - tot)) (off + chunk off (n - tot)) n src
            (omega arith) (omega (arith, enough more)) (λ z. omega (arith, enough more, z))
            (omega arith) f' file' room'))
]
  where
    m : ℕ
    m = chunk off (n - tot)

    nothing : ¬ (tot < n) → Written fs fs ip ip off (off + (n - tot)) (λ i. src (tot + i))
    nothing done = record {
      present = λ i lo hi. absurd (omega arith);
      new = λ i lo hi. absurd (omega arith);
      old = λ i small out z. (refl, refl);
      good = f;
      file = file;
      same_type = refl;
      same_sb = refl;
    }

    go :
        tot < n
        → (b : ℕ) × (ip1 : Inode) × (fs1 : Fs) × (bmap ip (off / bsize) fs ≡ some (b, ip1, fs1))
          × Step fs fs1 ip ip1 (slot (off / bsize)) b
          × HasRoom fs1 (2 * k)
        → ((fs' : Fs) (ip' : Inode)
            → IsFs fs'
            → IsFile fs' ip'
            → HasRoom fs' (2 * k)
            → Saves fs' ip'
                (tot + m)
                (off + m)
                n
                src
                (write_from k ip' (tot + m) (off + m) n src fs'))
        → Saves fs ip tot off n src (elim (bmap ip (off / bsize) fs) [
          | none ↦ none
          | some (b, ip1, fs1) ↦
              write_from k ip1
                (tot + m)
                (off + m)
                n
                src
                (put_block b (moved (fs1.block b) (off % bsize) m (λ i. src (tot + i))) fs1)
        ])
    go more (b, ip1, fs1, e, s, room1) ih = rw e (
        last
          (ih (put_block b bytes fs1) ip1 w.good w.file (room_put fs1 b (2 * k) bytes own room1)))
      where
        bytes : Memory
        bytes = moved (fs1.block b) (off % bsize) m (λ i. src (tot + i))

        w : Written fs (put_block b bytes fs1) ip ip1 off (off + m) (λ i. src (tot + i))
        w =
            round-Written fs fs1 ip ip1 off m b (λ i. src (tot + i)) file (omega arith)
              (omega arith) s

        own : IsOwn fs1 b
        own =
            own_block_of fs fs1 ip ip1 off m b (λ i. src (tot + i)) file (omega arith) (omega arith)
              s

        last :
            Saves
              (put_block b bytes fs1)
              ip1
              (tot + m)
              (off + m)
              n
              src
              (write_from k ip1 (tot + m) (off + m) n src (put_block b bytes fs1))
            → Saves fs ip tot off n src
                (write_from k ip1 (tot + m) (off + m) n src (put_block b bytes fs1))
        last (ip', fs', e', size, t) =
            let sum : off + m + (n - (tot + m)) ≡ off + (n - tot) = omega arith in
            (
              ip',
              fs',
              e' ∙ ap (λ (x : ℕ). some (x, ip', fs')) sum,
              size ∙ s.same_size,
              subst (λ (h : ℕ). Written fs fs' ip ip' off h (λ i. src (tot + i))) sum
                  (then-Written fs (put_block b bytes fs1) fs' ip ip1 ip' off m
                    (off + m + (n - (tot + m))) (λ i. src (tot + i)) (λ i. src (tot + m + i))
                    (λ i. ap src (omega arith)) (omega arith) (omega arith) w t),
            )
