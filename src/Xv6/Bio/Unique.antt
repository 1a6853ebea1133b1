-- ===== src/Xv6/Bio/Unique.antt =====
-- Asg02/xv6-2/bio.c: a disk block has at most one buffer.
use cs5460spring.Base.{
  ℕ, ◌≡◌, ◌≢◌, ◌⊎◌, inl, inr, ◌∙◌, sym, ap, refl, arith, List, [], ◌∷◌, Option, none, some, Bool,
  true, false, Bool-cases, if◌then◌else◌, modify, get_elem?, get_elem?-modify_inv, Once,
}
use cs5460spring.Xv6.Bio.{Buf, Bcache, search, search_back, recycled}

abbrev pub Listed : ℕ → List ℕ → Type 0
Listed i [] = ⊥
Listed i (j ∷ js) = (i ≡ j) ⊎ Listed i js

-- The list passes through every buffer, and nowhere twice, and no two buffers hold the same block. Device 0 is the
-- mark of a buffer that was never used.
pub record IsCache (c : Bcache) : Type 0 where
  pub listed : (i : ℕ) (b : Buf) → get_elem? c.bufs i ≡ some b → Listed i c.order
  pub once : Once c.order
  pub unique :
      (i j : ℕ) (a b : Buf)
      → get_elem? c.bufs i ≡ some a
      → get_elem? c.bufs j ≡ some b
      → a.dev ≢ 0
      → a.dev ≡ b.dev
      → a.blockno ≡ b.blockno
      → i ≡ j

-- The outcome of a search: nothing on the list passes, or what is found does.
abbrev pub Outcome : (Option Buf → Bool) → List Buf → List ℕ → Option ℕ → Type 0
Outcome test bufs order none = (i : ℕ) → Listed i order → test (get_elem? bufs i) ≡ false
Outcome test bufs order (some i) = test (get_elem? bufs i) ≡ true

pub search_lem :
    (test : Option Buf → Bool) (bufs : List Buf) (order : List ℕ)
    → Outcome test bufs order (search test bufs order)
unfolding search
search_lem test bufs [] = λ i no. absurd no
search_lem test bufs (i ∷ order) = elim (Bool-cases (test (get_elem? bufs i))) [
  | inl passes ↦ rw passes passes
  | inr fails ↦ rw fails (later (search test bufs order) (search_lem test bufs order) fails)
]
  where
    later :
        (o : Option ℕ)
        → Outcome test bufs order o
        → test (get_elem? bufs i) ≡ false
        → Outcome test bufs (i ∷ order) o
    later (some j) passes fails = passes
    later none all fails = λ j at. elim at [
      | inl e ↦ ap (λ (k : ℕ). test (get_elem? bufs k)) e ∙ fails
      | inr at' ↦ all j at'
    ]

pub search_back_lem :
    (test : Option Buf → Bool) (bufs : List Buf) (order : List ℕ)
    → Outcome test bufs order (search_back test bufs order)
unfolding search_back
search_back_lem test bufs [] = λ i no. absurd no
search_back_lem test bufs (i ∷ order) =
    first (search_back test bufs order) (search_back_lem test bufs order)
  where
    first :
        (o : Option ℕ)
        → Outcome test bufs order o
        → Outcome test bufs
            (i ∷ order)
            (elim o [ some j ↦ some j | none ↦ if test (get_elem? bufs i) then some i else none ])
    first (some j) passes = passes
    first none all = elim (Bool-cases (test (get_elem? bufs i))) [
      | inl passes ↦ rw passes passes
      | inr fails ↦ rw fails (λ j at. elim at [
        | inl e ↦ ap (λ (k : ℕ). test (get_elem? bufs k)) e ∙ fails
        | inr at' ↦ all j at'
      ])
    ]

-- A change of one buffer that keeps its block.
pub keep-IsCache :
    (c : Bcache) (i : ℕ) (f : Buf → Buf) (order : List ℕ)
    → ((b : Buf) → ((f b).dev ≡ b.dev) × ((f b).blockno ≡ b.blockno))
    → ((j : ℕ) → Listed j c.order → Listed j order)
    → Once order
    → IsCache c
    → IsCache (record { bufs = modify c.bufs i f; order = order })
keep-IsCache c i f order same more o x = record {
  once = o;
  listed = λ j b at.
      let (p, was, how) = get_elem?-modify_inv c.bufs i j f b at in more j (x.listed j p was);
  unique = λ j k a b at at' used e e'.
      let (p, was, (d, n)) = before j a at in
      let (p', was', (d', n')) = before k b at' in
      x.unique j k p p' was was' (λ z. used (d ∙ z)) (omega arith) (omega arith);
}
  where
    before :
        (j : ℕ) (b : Buf)
        → get_elem? (modify c.bufs i f) j ≡ some b
        → (p : Buf) × (get_elem? c.bufs j ≡ some p) × ((b.dev ≡ p.dev) × (b.blockno ≡ p.blockno))
    before j b at =
        let (p, was, how) = get_elem?-modify_inv c.bufs i j f b at in
        (p, was, elim how [ inl (here, e) ↦ rw e (same p) | inr (there, e) ↦ rw e (refl, refl) ])

-- No buffer holds the block.
abbrev pub Uncached : ℕ → ℕ → Bcache → Type 0
Uncached dev blockno c =
    (j : ℕ) (b : Buf) → get_elem? c.bufs j ≡ some b → b.dev ≡ dev → b.blockno ≢ blockno

pub recycle-IsCache :
    (c : Bcache) (i dev blockno : ℕ)
    → Uncached dev blockno c
    → IsCache c
    → IsCache (record c { bufs = modify c.bufs i (λ b. recycled dev blockno) })
recycle-IsCache c i dev blockno fresh x = record {
  once = x.once;
  listed = λ j b at.
      let (p, was, how) = get_elem?-modify_inv c.bufs i j (λ b. recycled dev blockno) b at in
      x.listed j p was;
  unique = λ j k a b at at' used e e'.
      apart j k a b (get_elem?-modify_inv c.bufs i j (λ b. recycled dev blockno) a at)
        (get_elem?-modify_inv c.bufs i k (λ b. recycled dev blockno) b at') used e e';
}
  where
    Traced : ℕ → Buf → Type 0
    Traced j b =
        (p : Buf) × (get_elem? c.bufs j ≡ some p)
        × (((i ≡ j) × (b ≡ recycled dev blockno)) ⊎ ((i ≢ j) × (b ≡ p)))

    apart :
        (j k : ℕ) (a b : Buf)
        → Traced j a
        → Traced k b
        → a.dev ≢ 0
        → a.dev ≡ b.dev
        → a.blockno ≡ b.blockno
        → j ≡ k
    apart j k a b (p, was, inl (h, e)) (p', was', inl (h', e')) used d n = omega arith
    apart j k a b (p, was, inl (h, e)) (p', was', inr (h', e')) used d n = absurd (
        fresh k p' was' (ap (λ (y : Buf). y.dev) (sym e') ∙ sym d ∙ ap (λ (y : Buf). y.dev) e)
          (ap (λ (y : Buf). y.blockno) (sym e') ∙ sym n ∙ ap (λ (y : Buf). y.blockno) e))
    apart j k a b (p, was, inr (h, e)) (p', was', inl (h', e')) used d n = absurd (
        fresh j p was (ap (λ (y : Buf). y.dev) (sym e) ∙ d ∙ ap (λ (y : Buf). y.dev) e')
          (ap (λ (y : Buf). y.blockno) (sym e) ∙ n ∙ ap (λ (y : Buf). y.blockno) e'))
    apart j k a b (p, was, inr (h, e)) (p', was', inr (h', e')) used d n =
        x.unique j k p p' was was' (λ z. used (ap (λ (y : Buf). y.dev) e ∙ z))
          (ap (λ (y : Buf). y.dev) (sym e) ∙ d ∙ ap (λ (y : Buf). y.dev) e')
          (ap (λ (y : Buf). y.blockno) (sym e) ∙ n ∙ ap (λ (y : Buf). y.blockno) e')
