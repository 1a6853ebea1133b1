-- ===== src/Xv6/Bio/Release.antt =====
-- Asg02/xv6-2/bio.c: `binit`, and the list after `brelse`.
use cs5460spring.Base.{
  ℕ, zero, suc, ◌-◌, ◌<◌, ◌≡◌, ◌≢◌, inl, inr, ◌∙◌, sym, ap, refl, arith, List, [], ◌∷◌, Option,
  none, some, true, false, ◌==◌, ==_of_ne, ==_refl, Bool-cases, ℕ_discrete, if◌then◌else◌, modify,
  get_elem?, replicate, get_elem?-modify_self, get_elem?-modify_ne, All, Once, ◌++◌,
}
use cs5460spring.Xv6.Bio.{last_first, binit, Buf, Bcache, unlink, brelse}
use cs5460spring.Xv6.Bio.Unique.{Listed, IsCache, keep-IsCache}

Listed-last_first : (n i : ℕ) → i < n → Listed i (last_first n)
Listed-last_first zero i less = absurd (omega (arith, less))
Listed-last_first (suc n) i less = elim (ℕ_discrete i n) [
  | yes e ↦ inl e
  | no ne ↦ inr (Listed-last_first n i (omega arith))
]

get_elem?-replicate :
    (n i : ℕ) (a b : Buf) → get_elem? (replicate n a) i ≡ some b → (i < n) × (b ≡ a)
get_elem?-replicate zero i a b at = absurd (ground (arith, at))
get_elem?-replicate (suc n) zero a b at =
    (omega arith, sym (ap (λ (o : Option Buf). elim o [ none ↦ a | some y ↦ y ]) at))
get_elem?-replicate (suc n) (suc i) a b at =
    let (less, e) = get_elem?-replicate n i a b at in (omega arith, e)

Listed-unlink : (i j : ℕ) (order : List ℕ) → i ≢ j → Listed j order → Listed j (unlink i order)
unfolding unlink
Listed-unlink i j [] ne at = at
Listed-unlink i j (k ∷ order) ne at = elim (ℕ_discrete i k) [
  | yes e ↦ rw (e, ==_refl) (elim at [ inl here ↦ absurd (ne (e ∙ sym here)) | inr there ↦ there ])
  | no apart ↦
      rw (==_of_ne i k apart)
        (elim at [ inl here ↦ inl here | inr there ↦ inr (Listed-unlink i j order ne there) ])
]

relinked : (i j : ℕ) (order : List ℕ) → Listed j order → Listed j (i ∷ unlink i order)
relinked i j order at = elim (ℕ_discrete j i) [
  | yes e ↦ inl e
  | no ne ↦ inr (Listed-unlink i j order (λ e. ne (sym e)) at)
]

-- The list around the buffer that is taken out.
unlink_lem :
    (i : ℕ) (order : List ℕ)
    → Listed i order
    → (front : List ℕ) × (back : List ℕ) × (order ≡ front ++ (i ∷ back))
      × (unlink i order ≡ front ++ back)
unfolding unlink
unlink_lem i [] at = absurd at
unlink_lem i (k ∷ order) at = elim (ℕ_discrete i k) [
  | yes e ↦ rw (e, ==_refl) ([], order, refl, refl)
  | no apart ↦
      let later : Listed i order = elim at [ inl here ↦ absurd (apart here) | inr there ↦ there ] in
      let (front, back, was, is_now) = unlink_lem i order later in
      rw (==_of_ne i k apart) (k ∷ front, back, ap (λ js. k ∷ js) was, ap (λ js. k ∷ js) is_now)
]

unlink-absent : (i : ℕ) (order : List ℕ) → Once order → All (λ j. i ≢ j) (unlink i order)
unfolding unlink
unlink-absent i [] o = tt
unlink-absent i (k ∷ order) o = elim (ℕ_discrete i k) [
  | yes e ↦ rw (e, ==_refl) o.0
  | no apart ↦ rw (==_of_ne i k apart) (apart, unlink-absent i order o.1)
]

unlink-All : (P : ℕ → Type 0) (i : ℕ) (order : List ℕ) → All P order → All P (unlink i order)
unfolding unlink
unlink-All P i [] h = tt
unlink-All P i (k ∷ order) h = elim (Bool-cases (i == k)) [
  | inl hit ↦ rw hit h.1
  | inr miss ↦ rw miss (h.0, unlink-All P i order h.1)
]

unlink-Once : (i : ℕ) (order : List ℕ) → Once order → Once (unlink i order)
unfolding unlink
unlink-Once i [] o = tt
unlink-Once i (k ∷ order) o = elim (Bool-cases (i == k)) [
  | inl hit ↦ rw hit o.1
  | inr miss ↦ rw miss (unlink-All (λ u. k ≢ u) i order o.0, unlink-Once i order o.1)
]

last_first-absent : (n m : ℕ) → n < suc m → All (λ u. m ≢ u) (last_first n)
last_first-absent zero m less = tt
last_first-absent (suc n) m less = (omega (arith, less), last_first-absent n m (omega arith))

last_first-Once : (n : ℕ) → Once (last_first n)
last_first-Once zero = tt
last_first-Once (suc n) = (last_first-absent n n (omega arith), last_first-Once n)

-- `binit` makes a cache whose list passes once through every buffer and that holds each block once.
pub binit-IsCache : (nbuf : ℕ) → IsCache (binit nbuf)
unfolding binit
binit-IsCache nbuf = record {
  once = last_first-Once nbuf;
  listed = λ i b at. Listed-last_first nbuf i (get_elem?-replicate nbuf i _ b at).0;
  unique = λ i j a b at at' used e e'.
      absurd (used (ap (λ (y : Buf). y.dev) (get_elem?-replicate nbuf i _ a at).1));
}

-- Released by a holder of its lock, a buffer with a reference has one less, no other buffer changes,
-- and the cache still has every buffer once on its list and each block once. With its last reference
-- gone the buffer moves from its place on the list to the front, and the others keep their order;
-- otherwise the list stays. Who does not hold the lock makes it panic.
pub brelse_lem :
    (i : ℕ) (c : Bcache) (b : Buf)
    → IsCache c
    → get_elem? c.bufs i ≡ some b
    → 0 < b.refcnt
    → (brelse false i c ≡ none)
      × ((c' : Bcache) × (brelse true i c ≡ some c')
          × IsCache c'
          × (get_elem? c'.bufs i ≡ some (record b { refcnt = b.refcnt - 1 }))
          × ((j : ℕ) → i ≢ j → get_elem? c'.bufs j ≡ get_elem? c.bufs j)
          × (b.refcnt ≡ 1
              → (front : List ℕ) × (back : List ℕ) × (c.order ≡ front ++ (i ∷ back))
                × (c'.order ≡ i ∷ (front ++ back)))
          × (1 < b.refcnt → c'.order ≡ c.order))
unfolding brelse
brelse_lem i c b x at pos =
    rw (at, brelse)
      (
        refl,
        (
          record {
            bufs = modify c.bufs i (λ y. record y { refcnt = b.refcnt - 1 });
            order = if b.refcnt - 1 == 0 then i ∷ unlink i c.order else c.order;
          },
          refl,
          keep-IsCache c i (λ y. record y { refcnt = b.refcnt - 1 })
              (if b.refcnt - 1 == 0 then i ∷ unlink i c.order else c.order) (λ y. (refl, refl))
              still still_once x,
          get_elem?-modify_self c.bufs i (λ y. record y { refcnt = b.refcnt - 1 }) at,
          λ j ne. get_elem?-modify_ne c.bufs i j _ ne,
          (λ one.
              let (front, back, was, is_now) = unlink_lem i c.order (x.listed i b at) in
              (front, back, was, rw one (ap (λ js. i ∷ js) is_now))),
          λ more. rw (==_of_ne (b.refcnt - 1) 0 (omega arith)) refl,
        ),
      )
  where
    still :
        (j : ℕ)
        → Listed j c.order
        → Listed j (if b.refcnt - 1 == 0 then i ∷ unlink i c.order else c.order)
    still j l = elim (Bool-cases (b.refcnt - 1 == 0)) [
      | inl last ↦ rw last (relinked i j c.order l)
      | inr more ↦ rw more l
    ]

    still_once : Once (if b.refcnt - 1 == 0 then i ∷ unlink i c.order else c.order)
    still_once = elim (Bool-cases (b.refcnt - 1 == 0)) [
      | inl last ↦ rw last (unlink-absent i c.order x.once, unlink-Once i c.order x.once)
      | inr more ↦ rw more x.once
    ]
