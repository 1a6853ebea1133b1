-- ===== src/Xv6/Log/Disk.antt =====
-- The disk under the buffer cache: `bread`, `bwrite` and the copying loops of
-- Asg02/xv6-2/log.c, with what a power cut leaves of them.
use cs5460spring.Base.{
  ℕ, zero, suc, ◌+◌, ◌-◌, ◌≤◌, ◌<◌, ◌≡◌, ◌≢◌, refl, List, Bool, false, if◌then◌else◌, ◌==◌, arith,
  ap, sym, ◌∙◌, ℕ_discrete,
}

abbrev pub Block : Type 0
Block = List ℕ

abbrev pub update {ℓ} : {A : Type ℓ} → (ℕ → A) → ℕ → A → ℕ → A
update f i a j = if i == j then a else f j

pub record Store : Type 0 where
  pub disk : ℕ → Block
  pub cache : ℕ → Block
  pub dirty : ℕ → Bool
  pub power : ℕ

-- `bwrite` by way of `iderw`, which clears B_DIRTY.
unfoldable pub bwrite : ℕ → Store → Store
bwrite b s = if s.power == 0 then record s { dirty = update s.dirty b false } else record s {
  disk = update s.disk b (s.cache b);
  dirty = update s.dirty b false;
  power = s.power - 1;
}

-- `memmove(to->data, from->data, BSIZE); bwrite(to);` on the buffers of two blocks.
pub copy_block : ℕ → ℕ → Store → Store
unfolding bwrite
copy_block from to s = bwrite to (record s { cache = update s.cache to (s.cache from) })

-- `for (tail = ...; ...; tail++)` over such copies, with the number of rounds left.
unfoldable pub copy_all : (ℕ → ℕ) → (ℕ → ℕ) → ℕ → ℕ → Store → Store
unfolding copy_block
copy_all from to zero tail s = s
copy_all from to (suc n) tail s = copy_all from to n (tail + 1) (copy_block (from tail) (to tail) s)

pub copy_block-power : (x y : ℕ) (s : Store) → (copy_block x y s).power ≡ s.power - 1
unfolding copy_block
copy_block-power x y s = ground arith

pub copy_all-power :
    (from to : ℕ → ℕ) (n tail : ℕ) (s : Store) → (copy_all from to n tail s).power ≡ s.power - n
unfolding copy_all
copy_all-power from to zero tail s = omega arith
copy_all-power from to (suc n) tail s = omega (
  arith,
  copy_all-power from to n (tail + 1) (copy_block (from tail) (to tail) s),
  copy_block-power (from tail) (to tail) s,
)

-- Without power the disk stays.
pub copy_all-off :
    (from to : ℕ → ℕ) (n tail : ℕ) (s : Store)
    → s.power ≡ 0
    → (copy_all from to n tail s).disk ≡ s.disk
unfolding copy_all
copy_all-off from to zero tail s off = refl
copy_all-off from to (suc n) tail s off =
    copy_all-off from to n (tail + 1) (copy_block (from tail) (to tail) s) (ground arith)
    ∙ ground arith

-- A block that no round writes stays, in the cache and on the disk.
pub copy_all-miss :
    (from to : ℕ → ℕ) (n tail : ℕ) (s : Store) (x : ℕ)
    → ((i : ℕ) → tail ≤ i → i < tail + n → to i ≢ x)
    → ((copy_all from to n tail s).cache x ≡ s.cache x)
      × ((copy_all from to n tail s).disk x ≡ s.disk x)
unfolding copy_all
copy_all-miss from to zero tail s x h = (refl, refl)
copy_all-miss from to (suc n) tail s x h = ground (
  arith,
  h tail (omega arith) (omega arith),
  copy_all-miss from to n (tail + 1) (copy_block (from tail) (to tail) s) x
      (λ i le lt. h i (omega arith) (omega arith)),
)

-- The targets of the first `k` rounds differ, and no round writes what a round reads.
pub record IsApart (from to : ℕ → ℕ) (k : ℕ) : Type 0 where
  pub once : (i j : ℕ) → i < k → j < k → to i ≡ to j → i ≡ j
  pub sources : (i j : ℕ) → i < k → j < k → to i ≢ from j

copy_block_self :
    (x y : ℕ) (s : Store)
    → ((copy_block x y s).cache y ≡ s.cache x)
      × (0 < s.power → (copy_block x y s).disk y ≡ s.cache x)
unfolding copy_block
copy_block_self x y s = (ground arith, λ on. ground arith)

copy_block-other :
    (x y z : ℕ) (s : Store)
    → y ≢ z
    → ((copy_block x y s).cache z ≡ s.cache z) × ((copy_block x y s).disk z ≡ s.disk z)
unfolding copy_block
copy_block-other x y z s ne = ground arith

module _ (from to : ℕ → ℕ) (k : ℕ) (apart : IsApart from to k) where
  -- Once its round is done a target stays.
  copy_all-next :
      (n tail : ℕ) (s : Store)
      → tail + suc n ≤ k
      → let s' = copy_block (from tail) (to tail) s in
        let t = copy_all from to n (tail + 1) s' in
        (t.cache (to tail) ≡ s'.cache (to tail)) × (t.disk (to tail) ≡ s'.disk (to tail))
  copy_all-next n tail s fits =
      copy_all-miss from to n (tail + 1) _ (to tail)
        λ i le lt e. omega (arith, apart.once i tail (omega arith) (omega arith) e)

  pub copy_all-cache :
      (n tail : ℕ) (s : Store) (j : ℕ)
      → tail + n ≤ k
      → tail ≤ j
      → j < tail + n
      → (copy_all from to n tail s).cache (to j) ≡ s.cache (from j)
  unfolding copy_all
  copy_all-cache zero tail s j fits lo hi = absurd (omega arith)
  copy_all-cache (suc n) tail s j fits lo hi = elim (ℕ_discrete j tail) [
    | yes e ↦ rw e ((copy_all-next n tail s fits).0 ∙ (copy_block_self _ _ s).0)
    | no ne ↦
        copy_all-cache n (tail + 1) (copy_block (from tail) (to tail) s) j (omega arith)
          (omega arith) (omega arith)
        ∙ (copy_block-other (from tail) (to tail) (from j) s
            (apart.sources tail j (omega arith) (omega arith))).0
  ]

  -- A round that comes before the cut reaches the disk.
  pub copy_all-disk :
      (n tail : ℕ) (s : Store) (j : ℕ)
      → tail + n ≤ k
      → tail ≤ j
      → j < tail + n
      → j < tail + s.power
      → (copy_all from to n tail s).disk (to j) ≡ s.cache (from j)
  unfolding copy_all
  copy_all-disk zero tail s j fits lo hi on = absurd (omega arith)
  copy_all-disk (suc n) tail s j fits lo hi on = elim (ℕ_discrete j tail) [
    | yes e ↦ rw e ((copy_all-next n tail s fits).1 ∙ (copy_block_self _ _ s).1 (omega arith))
    | no ne ↦
        copy_all-disk n (tail + 1) (copy_block (from tail) (to tail) s) j (omega arith)
          (omega arith) (omega arith) (omega (arith, copy_block-power (from tail) (to tail) s))
        ∙ (copy_block-other (from tail) (to tail) (from j) s
            (apart.sources tail j (omega arith) (omega arith))).0
  ]

  -- One that comes after it does not.
  pub copy_all-late :
      (n tail : ℕ) (s : Store) (j : ℕ)
      → tail + n ≤ k
      → tail ≤ j
      → j < tail + n
      → tail + s.power ≤ j
      → (copy_all from to n tail s).disk (to j) ≡ s.disk (to j)
  unfolding copy_all
  copy_all-late zero tail s j fits lo hi on = absurd (omega arith)
  copy_all-late (suc n) tail s j fits lo hi on = elim (ℕ_discrete j tail) [
    | yes e ↦ ap (λ f. f (to j)) (copy_all-off from to (suc n) tail s (omega arith))
    | no ne ↦
        copy_all-late n (tail + 1) (copy_block (from tail) (to tail) s) j (omega arith)
          (omega arith) (omega arith) (omega (arith, copy_block-power (from tail) (to tail) s))
        ∙ (copy_block-other (from tail) (to tail) (to j) s
            (λ e. ne (sym (apart.once tail j (omega arith) (omega arith) e)))).1
  ]
