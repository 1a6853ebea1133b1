-- ===== src/Xv6/Umalloc.antt =====
-- Asg02/xv6-2/umalloc.c: the allocator of the user programs. Addresses count headers, and null is 0.
-- `none` means that the rounds of a loop run out.
use cs5460spring.Base.{
  ℕ, zero, suc, List, [], ◌∷◌, ◌+◌, ◌-◌, ◌/◌, ◌%◌, ◌^◌, Option, none, some, ◌&&◌, ◌||◌,
  if◌then◌else◌, ltb, leb, ◌==◌,
}

-- `s.ptr` and `s.size` of the header at an address, and `freep`.
pub record Headers : Type 0 where
  pub ptr : ℕ → ℕ
  pub size : ℕ → ℕ
  pub freep : ℕ

abbrev pub set_ptr : ℕ → ℕ → Headers → Headers
set_ptr p q h = record h { ptr = λ a. if p == a then q else h.ptr a }

abbrev pub set_units : ℕ → ℕ → Headers → Headers
set_units p n h = record h { size = λ a. if p == a then n else h.size a }

-- The loop of `free`: the header after which `bp` belongs.
pub find_place : ℕ → ℕ → ℕ → Headers → Option ℕ
find_place zero bp p h = none
find_place (suc k) bp p h =
    let rest = find_place k bp (h.ptr p) h in
    if ltb p bp && ltb bp (h.ptr p)
    then some p
    else if leb (h.ptr p) p && (ltb p bp || ltb bp (h.ptr p))
    then some p
    else rest

-- The two joins of `free`, upwards and downwards.
pub join_up : ℕ → ℕ → Headers → Headers
join_up bp p h =
    if bp + h.size bp == h.ptr p
    then (let h' = set_units bp (h.size bp + h.size (h.ptr p)) h in
        set_ptr bp (h'.ptr (h'.ptr p)) h')
    else set_ptr bp (h.ptr p) h

pub join_down : ℕ → ℕ → Headers → Headers
join_down bp p h =
    if p + h.size p == bp
    then set_ptr p (h.ptr bp) (set_units p (h.size p + h.size bp) h)
    else set_ptr p bp h

-- `free` of the block behind the header `bp`, with rounds.
pub free_block : ℕ → ℕ → Headers → Option Headers
unfolding find_place join_up join_down
free_block rounds bp h = elim (find_place rounds bp (h.freep) h) [
  | none ↦ none
  | some p ↦ let h' = join_down bp p (join_up bp p h) in some (record h' { freep = p })
]

-- The size that `morecore` asks for.
abbrev pub core_units : ℕ → ℕ
core_units nu = if ltb nu 4096 then 4096 else nu

-- `morecore`, with the answer of `sbrk`: `freep`, or null.
pub morecore : ℕ → ℕ → Option ℕ → Headers → Option (ℕ × Headers)
unfolding free_block
morecore rounds nu none h = some (0, h)
morecore rounds nu (some hp) h = elim (free_block rounds hp (set_units hp (core_units nu) h)) [
  | none ↦ none
  | some h' ↦ some (h'.freep, h')
]

-- The block of a header that is large enough: the header of what is handed out.
pub take_block : ℕ → ℕ → ℕ → Headers → ℕ × Headers
take_block nunits prevp p h =
    if h.size p == nunits
    then (let h' = set_ptr prevp (h.ptr p) h in (p, record h' { freep = prevp }))
    else (let h1 = set_units p (h.size p - nunits) h in
        let q = p + h1.size p in let h2 = set_units q nunits h1 in (q, record h2 { freep = prevp }))

abbrev pub next_answer : List (Option ℕ) → Option ℕ × List (Option ℕ)
next_answer [] = (none, [])
next_answer (a ∷ later) = (a, later)

-- The loop of `malloc`, with rounds left and the answers of `sbrk` to come; at the end of the answers
-- `sbrk` fails.
pub search_block : ℕ → ℕ → ℕ → ℕ → List (Option ℕ) → Headers → Option (ℕ × Headers)
unfolding morecore take_block
search_block zero nunits prevp p answers h = none
search_block (suc k) nunits prevp p answers h =
    let here : Option (ℕ × Headers) =
      let (q, h') = take_block nunits prevp p h in some (q + 1, h') in
    let (answer, answers') = next_answer answers in
    let grown : Option (ℕ × Headers) = elim (morecore (k + 1) nunits answer h) [
      | none ↦ none
      | some (p', h') ↦
          if p' == 0 then some (0, h') else search_block k nunits p' (h'.ptr p') answers' h'
    ] in
    let further = search_block k nunits p (h.ptr p) answers h in
    if leb nunits (h.size p) then here else if p == h.freep then grown else further

-- `malloc`: null, or the address behind the header. `base_at` is the address of `base`.
unfoldable pub malloc : ℕ → ℕ → List (Option ℕ) → ℕ → Headers → Option (ℕ × Headers)
unfolding search_block
malloc base_at rounds answers nbytes h =
    let nunits = (nbytes + 8 - 1) % 2 ^ 32 / 8 + 1 in
    let started : Headers =
      let h' = set_units base_at 0 (set_ptr base_at base_at h) in record h' { freep = base_at } in
    let h0 = if h.freep == 0 then started else h in
    search_block rounds nunits (h0.freep) (h0.ptr (h0.freep)) answers h0
