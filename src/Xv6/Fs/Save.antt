-- ===== src/Xv6/Fs/Save.antt =====
-- Asg02/xv6-2/fs.c: what `writei` writes, and that `readi` reads it back.
use cs5460spring.Base.{
  ℕ, ◌+◌, ◌-◌, ◌*◌, ◌/◌, ◌%◌, ◌^◌, ◌≤◌, ◌<◌, min, max, ◌≡◌, ◌≢◌, refl, ◌∙◌, sym, ap, subst, inl,
  inr, arith, Option, none, some, Bool, ◌&&◌, if◌then◌else◌, ltb, ==_of_ne, Bool-cases,
}
use cs5460spring.Xv6.Str.{Memory}
use cs5460spring.Xv6.Fs.{bsize, Fs, put_block}
use cs5460spring.Xv6.Fs.Alloc.{IsFs}
use cs5460spring.Xv6.Fs.Inode.{Inode, iupdate, iblock}
use cs5460spring.Xv6.Fs.Content.{maxfile, t_dev, write_from, grow_to, writei, readi}
use cs5460spring.Xv6.Fs.Owned.{IsFile}
use cs5460spring.Xv6.Fs.Step.{is_below, is_above}
use cs5460spring.Xv6.Fs.Room.{HasRoom}
use cs5460spring.Xv6.Fs.WriteLoop.{Saves, write_from_lem}
use cs5460spring.Xv6.Fs.Read.{content, filled, readi_lem}
use cs5460spring.Xv6.Fs.Write.{Written, grown-Written}

-- What a successful `writei` leaves: the bytes of the range are those of the buffer, those elsewhere
-- that had a block are as before, and the size covers the range.
abbrev pub WriteSpec : Fs → Inode → ℕ → ℕ → Memory → Option (ℕ × Inode × Fs) → Type 0
WriteSpec fs ip off n src r =
    (ip' : Inode) × (fs' : Fs) × (r ≡ some (n, ip', fs'))
    × (ip'.size ≡ max ip.size (off + n))
    × Written fs fs' ip ip' off (off + n) src

iupdate_puts :
    (ip : Inode) (fs : Fs) → (m : Memory) × (iupdate ip fs ≡ put_block (iblock ip.inum fs.sb) m fs)
unfolding iupdate
iupdate_puts ip fs = (_, refl)

tidy :
    (fs fs' : Fs) (ip ip' : Inode) (lo hi hi' : ℕ) (src src' : Memory)
    → hi ≡ hi'
    → ((i : ℕ) → src i ≡ src' i)
    → Written fs fs' ip ip' lo hi src
    → Written fs fs' ip ip' lo hi' src'
tidy fs fs' ip ip' lo hi hi' src src' e same w =
    subst (λ (h : ℕ). Written fs fs' ip ip' lo h src') e
      (record {
        present = w.present;
        new = λ i l h. w.new i l h ∙ same (i - lo);
        old = w.old;
        good = w.good;
        file = w.file;
        same_type = w.same_type;
        same_sb = w.same_sb;
      })

-- The end of `writei`.
grow_to_lem :
    (fs fs' : Fs) (ip ip' : Inode) (off n : ℕ) (src : Memory)
    → off ≤ ip.size
    → off + n ≤ maxfile * bsize
    → ip'.size ≡ ip.size
    → Written fs fs' ip ip' off (off + n) src
    → (off' : ℕ) → off' ≡ off + n
    → WriteSpec fs ip off n src (some (n, (grow_to n off' ip' fs').0, (grow_to n off' ip' fs').1))
grow_to_lem fs fs' ip ip' off n src start fits size w off' e =
    elim (Bool-cases (ltb 0 n && ltb ip'.size off')) [
      | inr keeps ↦ rw keeps (ip', fs', refl, size ∙ ground (arith, keeps), w)
      | inl grows ↦
          rw grows (saved (iupdate_puts (record ip' { size = off' }) fs') (ground (arith, grows)))
    ]
  where
    saved :
        (m : Memory) × (iupdate (record ip' { size = off' }) fs'
            ≡ put_block (iblock ip'.inum fs'.sb) m fs')
        → off' ≡ max ip.size (off + n)
        → WriteSpec fs ip off n src
            (some (n, record ip' { size = off' }, iupdate (record ip' { size = off' }) fs'))
    saved (m, put) larger = rw put (
      record ip' { size = off' },
      put_block (iblock ip'.inum fs'.sb) m fs',
      refl,
      larger,
      grown-Written fs fs' ip ip' off (off + n) src m off' fits w,
    )

-- A write to a file, not a device, that starts within the file and ends within MAXFILE blocks. The
-- file system is in order, the file shares no block, and more than 2 * (n / BSIZE + 3) blocks are
-- free: then `writei` returns `n`. The bytes of the range are those of the buffer, the other bytes
-- that had a block are as before in the same block, the size covers the range, and file system and
-- file are still in order.
pub writei_lem :
    (devsw : ℕ → Option (ℕ → Memory → ℕ)) (fs : Fs) (ip : Inode) (off n : ℕ) (src : Memory)
    → ip.type ≢ t_dev
    → off ≤ ip.size
    → off + n ≤ maxfile * bsize
    → IsFs fs
    → IsFile fs ip
    → HasRoom fs (2 * (n / bsize + 3))
    → WriteSpec fs ip off n src (writei devsw ip src off n fs)
unfolding writei
writei_lem devsw fs ip off n src regular start fits f file room =
    rw
      (
        ==_of_ne ip.type t_dev regular,
        is_above ip.size off (omega arith),
        wrap,
        is_above (off + n) off (omega arith),
        is_above (maxfile * bsize) (off + n) (omega arith),
      )
      (go (write_from (n / bsize + 3) ip 0 off n src fs) (
        write_from_lem (n / bsize + 3) fs ip 0 off n src (omega arith) (omega arith)
          (λ z. omega arith) (omega arith) f file room))
  where
    wrap : (off + n) % 2 ^ 32 ≡ off + n
    wrap = omega (arith, fits)

    result : Option (ℕ × Inode × Fs) → Option (ℕ × Inode × Fs)
    result none = none
    result (some (off', ip', fs')) =
        let (ip'', fs'') = grow_to n off' ip' fs' in some (n, ip'', fs'')

    go :
        (r : Option (ℕ × Inode × Fs))
        → Saves fs ip 0 off n src r
        → WriteSpec fs ip off n src (result r)
    go r (ip', fs', e, size, w) =
        subst (λ (r' : Option (ℕ × Inode × Fs)). WriteSpec fs ip off n src (result r')) (sym e)
          (grow_to_lem fs fs' ip ip' off n src start fits size
            (tidy fs fs' ip ip' off (off + (n - 0)) (off + n) (λ i. src (0 + i)) src (omega arith)
              (λ i. ap src (omega arith)) w)
            (off + (n - 0)) (omega arith))

-- In a file, not a device, of at most MAXFILE blocks, on a file system in order, the file sharing no
-- block and more than 2 * (n / BSIZE + 3) blocks being free, let `writei` write `n` bytes from a
-- place within the file on, up to MAXFILE blocks. It returns `n`, and then `readi` of the same range
-- returns `n` with just these bytes, and changes neither the inode nor the disk.
pub readi-writei :
    (reads : ℕ → Option (ℕ → Memory → ℕ × Memory)) (writes : ℕ → Option (ℕ → Memory → ℕ)) (fs : Fs)
    (ip : Inode) (off n : ℕ) (src dst : Memory)
    → ip.type ≢ t_dev
    → off ≤ ip.size
    → ip.size ≤ maxfile * bsize
    → off + n ≤ maxfile * bsize
    → IsFs fs
    → IsFile fs ip
    → HasRoom fs (2 * (n / bsize + 3))
    → (ip' : Inode) × (fs' : Fs) × (dst' : Memory) × (writei writes ip src off n fs
        ≡ some (n, ip', fs'))
      × (readi reads ip' dst off n fs' ≡ some (n, dst', ip', fs'))
      × ((j : ℕ) → j < n → dst' j ≡ src j)
readi-writei reads writes fs ip off n src dst regular start top fits f file room =
    go (writei_lem writes fs ip off n src regular start fits f file room)
  where
    read :
        (ip' : Inode) (fs' : Fs)
        → (ip'.size ≡ max ip.size (off + n))
        → (w : Written fs fs' ip ip' off (off + n) src)
        → (dst' : Memory) × (readi reads ip' dst off n fs' ≡ some (n, dst', ip', fs'))
          × ((j : ℕ) → j < n → dst' j ≡ src j)
    read ip' fs' size w =
        let whole : min n (ip'.size - off) ≡ n = omega (arith, size) in
        found whole (
          readi_lem reads fs' ip' off n dst (λ e. regular (sym w.same_type ∙ e))
            (omega (arith, size)) (omega arith) (omega (arith, size))
            (λ i lo hi. w.present i lo (omega arith)))
      where
        found :
            min n (ip'.size - off) ≡ n
            → (dst' : Memory) × (readi reads ip' dst off n fs'
                ≡ some (min n (ip'.size - off), dst', ip', fs'))
              × ((j : ℕ) → dst' j ≡ filled fs' ip' off (min n (ip'.size - off)) dst j)
            → (dst' : Memory) × (readi reads ip' dst off n fs' ≡ some (n, dst', ip', fs'))
              × ((j : ℕ) → j < n → dst' j ≡ src j)
        found whole (dst', e, bytes) = (
          dst',
          e ∙ ap (λ (c : ℕ). some (c, dst', ip', fs')) whole,
          λ j lt.
              bytes j
              ∙ ap (λ (c : ℕ). filled fs' ip' off c dst j) whole
              ∙ ap (λ (t : Bool). if t then content fs' ip' (off + j) else dst j) (is_below j n lt)
              ∙ w.new (off + j) (omega arith) (omega arith)
              ∙ ap src (omega arith),
        )

    go :
        WriteSpec fs ip off n src (writei writes ip src off n fs)
        → (ip' : Inode) × (fs' : Fs) × (dst' : Memory) × (writei writes ip src off n fs
            ≡ some (n, ip', fs'))
          × (readi reads ip' dst off n fs' ≡ some (n, dst', ip', fs'))
          × ((j : ℕ) → j < n → dst' j ≡ src j)
    go (ip', fs', e, size, w) = both (read ip' fs' size w)
      where
        both :
            (dst' : Memory) × (readi reads ip' dst off n fs' ≡ some (n, dst', ip', fs'))
              × ((j : ℕ) → j < n → dst' j ≡ src j)
            → (ip' : Inode) × (fs' : Fs) × (dst' : Memory) × (writei writes ip src off n fs
                ≡ some (n, ip', fs'))
              × (readi reads ip' dst off n fs' ≡ some (n, dst', ip', fs'))
              × ((j : ℕ) → j < n → dst' j ≡ src j)
        both (dst', r, bytes) = (ip', fs', dst', e, r, bytes)
