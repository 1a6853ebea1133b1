-- ===== src/Xv6/Fs/Room.antt =====
-- Asg02/xv6-2/fs.c: room for the blocks that `bmap` takes.
use cs5460spring.Base.{
  ℕ, zero, suc, ◌+◌, ◌≤◌, ◌<◌, ◌≡◌, ◌≢◌, ◌⊎◌, refl, ◌∙◌, sym, subst, inl, inr, arith, List, [], ◌∷◌,
  Option, none, some, ℕ_discrete, length, All,
}
use cs5460spring.Xv6.Str.{Memory}
use cs5460spring.Xv6.Fs.{Superblock, Fs, put_block, bit_of}
use cs5460spring.Xv6.Fs.Alloc.{IsUsed, IsFs}
use cs5460spring.Xv6.Fs.Inode.{Inode}
use cs5460spring.Xv6.Fs.Content.{bmap, maxfile}
use cs5460spring.Xv6.Fs.Owned.{IsOwn, put-bit_of, IsFile}
use cs5460spring.Xv6.Fs.Step.{Step}
use cs5460spring.Xv6.Fs.Bmap.{slot, BmapSpec, bmap_lem}

-- More than `k` blocks are free: there is one apart from any `k` blocks.
abbrev pub HasRoom : Fs → ℕ → Type 0
HasRoom fs k =
    (l : List ℕ)
    → length l ≤ k
    → (c : ℕ) × (c < fs.sb.size) × (bit_of c fs ≡ 0) × All (λ x. c ≢ x) l

-- Taking two blocks into use.
room_left :
    (fs fs' : Fs) (a b k : ℕ)
    → fs'.sb ≡ fs.sb
    → ((c : ℕ) → c ≢ a → c ≢ b → IsUsed fs' c → IsUsed fs c)
    → HasRoom fs (k + 2)
    → HasRoom fs' k
room_left fs fs' a b k same only room l short = go (room (a ∷ b ∷ l) (omega arith))
  where
    go :
        (c : ℕ) × (c < fs.sb.size) × (bit_of c fs ≡ 0) × All (λ x. c ≢ x) (a ∷ b ∷ l)
        → (c : ℕ) × (c < fs'.sb.size) × (bit_of c fs' ≡ 0) × All (λ x. c ≢ x) l
    go (c, lt, free, others) =
        let lt' = subst (λ (s : Superblock). c < s.size) (sym same) lt in
        (
          c,
          lt',
          elim (ℕ_discrete (bit_of c fs') 0) [
            | yes e ↦ e
            | no ne ↦ absurd ((only c others.0 others.1.0 (lt', ne)).1 free)
          ],
          others.1.1,
        )

pub room_put :
    (fs : Fs) (b k : ℕ) (bytes : Memory)
    → IsOwn fs b
    → HasRoom fs k
    → HasRoom (put_block b bytes fs) k
room_put fs b k bytes o room l short = go (room l short)
  where
    go :
        (c : ℕ) × (c < fs.sb.size) × (bit_of c fs ≡ 0) × All (λ x. c ≢ x) l
        → (c : ℕ) × (c < fs.sb.size) × (bit_of c (put_block b bytes fs) ≡ 0) × All (λ x. c ≢ x) l
    go (c, lt, free, others) = (c, lt, put-bit_of fs b bytes o c lt ∙ free, others)

-- An element with one occurrence dropped, if it is there.
without :
    (x : ℕ) (l : List ℕ)
    → All (λ y. x ≢ y) l
      ⊎ ((l' : List ℕ) × (length l' < length l)
          × ((c : ℕ) → c ≢ x → All (λ y. c ≢ y) l' → All (λ y. c ≢ y) l))
without x [] = inl tt
without x (y ∷ ys) = elim (ℕ_discrete x y) [
  | yes e ↦ inr (ys, omega arith, λ c ne all. ((λ e'. ne (e' ∙ sym e)), all))
  | no ne ↦ elim (without x ys) [
    | inl all ↦ inl (ne, all)
    | inr (l', shorter, back) ↦
        inr (y ∷ l', omega (arith, shorter), λ c ne' all. (all.0, back c ne' all.1))
  ]
]

-- One of `k + 1` numbers in a row is apart from `k` given ones.
apart_from :
    (k lo : ℕ) (l : List ℕ) → length l ≤ k → (c : ℕ) × (lo ≤ c) × (c ≤ lo + k) × All (λ y. c ≢ y) l
apart_from k lo [] short = (lo, omega arith, omega arith, tt)
apart_from zero lo (y ∷ ys) short = absurd (omega (arith, short))
apart_from (suc k) lo (y ∷ ys) short = go (without lo (y ∷ ys)) (λ l' h. apart_from k (lo + 1) l' h)
  where
    go :
        All (λ z. lo ≢ z) (y ∷ ys)
          ⊎ ((l' : List ℕ) × (length l' < length (y ∷ ys))
              × ((c : ℕ) → c ≢ lo → All (λ z. c ≢ z) l' → All (λ z. c ≢ z) (y ∷ ys)))
        → ((l' : List ℕ)
            → length l' ≤ k
            → (c : ℕ) × (lo + 1 ≤ c) × (c ≤ lo + 1 + k) × All (λ z. c ≢ z) l')
        → (c : ℕ) × (lo ≤ c) × (c ≤ lo + suc k) × All (λ z. c ≢ z) (y ∷ ys)
    go (inl all) ih = (lo, omega arith, omega arith, all)
    go (inr (l', shorter, back)) ih = found (ih l' (omega (arith, short, shorter)))
      where
        found :
            (c : ℕ) × (lo + 1 ≤ c) × (c ≤ lo + 1 + k) × All (λ z. c ≢ z) l'
            → (c : ℕ) × (lo ≤ c) × (c ≤ lo + suc k) × All (λ z. c ≢ z) (y ∷ ys)
        found (c, le, ge, all) =
            (c, omega (arith, le), omega (arith, ge), back c (omega (arith, le)) all)

-- A row of free blocks is room.
pub row-HasRoom :
    (fs : Fs) (lo k : ℕ)
    → lo + k < fs.sb.size
    → ((c : ℕ) → lo ≤ c → c ≤ lo + k → bit_of c fs ≡ 0)
    → HasRoom fs k
row-HasRoom fs lo k small free l short = go (apart_from k lo l short)
  where
    go :
        (c : ℕ) × (lo ≤ c) × (c ≤ lo + k) × All (λ x. c ≢ x) l
        → (c : ℕ) × (c < fs.sb.size) × (bit_of c fs ≡ 0) × All (λ x. c ≢ x) l
    go (c, le, ge, all) = (c, omega (arith, ge, small), free c le ge, all)

-- With room for two blocks, `bmap` answers.
pub bmap_answers :
    (fs : Fs) (ip : Inode) (bn k : ℕ)
    → IsFs fs
    → IsFile fs ip
    → bn < maxfile
    → HasRoom fs (k + 2)
    → (b : ℕ) × (ip' : Inode) × (fs' : Fs) × (bmap ip bn fs ≡ some (b, ip', fs'))
      × Step fs fs' ip ip' (slot bn) b
      × HasRoom fs' k
bmap_answers fs ip bn k f file lt room = go (bmap ip bn fs) refl (bmap_lem fs ip bn f file lt)
  where
    go :
        (r : Option (ℕ × Inode × Fs))
        → bmap ip bn fs ≡ r
        → BmapSpec fs ip bn r
        → (b : ℕ) × (ip' : Inode) × (fs' : Fs) × (bmap ip bn fs ≡ some (b, ip', fs'))
          × Step fs fs' ip ip' (slot bn) b
          × HasRoom fs' k
    go none e (b, used) = absurd (full (room (b ∷ []) (omega arith)))
      where
        full : ¬ ((c : ℕ) × (c < fs.sb.size) × (bit_of c fs ≡ 0) × All (λ x. c ≢ x) (b ∷ []))
        full (c, small, free, ne) = (used c small ne.0).1 free
    go (some (b, ip', fs')) e (s, a, only) =
        (b, ip', fs', e, s, room_left fs fs' b a k s.same_sb only room)
