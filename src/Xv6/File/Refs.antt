-- ===== src/Xv6/File/Refs.antt =====
-- Asg02/xv6-2/file.c: what an open file stands for is given up once, by the last `fileclose`.
use mathlib.Core.List
use cs5460spring.Base.{
  ℕ, zero, suc, ◌+◌, ◌-◌, ◌<◌, ◌≡◌, ◌≢◌, ◌∙◌, ap, refl, arith, List, [], ◌∷◌, ◌++◌, Option, none,
  some, ltb, true, false, modify, get_elem?, get_elem?-modify_self, get_elem?-modify_ne,
}
use cs5460spring.Xv6.File.{
  File, fd_none, fd_pipe, fd_inode, Release, pipeclose, begin_op, iput, end_op, release_of, filedup,
  fileclose,
}

-- `n` calls of `filedup`, and of `fileclose` with all that they give up.
pub dups : ℕ → ℕ → List File → Option (List File)
dups zero i files = some files
dups (suc n) i files = elim (filedup i files) [ none ↦ none | some files1 ↦ dups n i files1 ]

pub closes : ℕ → ℕ → List File → Option (List File × List Release)
closes zero i files = some (files, [])
closes (suc n) i files = elim (fileclose i files) [
  | none ↦ none
  | some (files1, given) ↦ elim (closes n i files1) [
    | none ↦ none
    | some (files2, later) ↦ some (files2, given ++ later)
  ]
]

-- Entry `i` is `f`, and the other entries are those of `files`.
abbrev pub IsEntry : ℕ → List File → File → List File → Type 0
IsEntry i files f files' =
    (get_elem? files' i ≡ some f) × ((j : ℕ) → i ≢ j → get_elem? files' j ≡ get_elem? files j)

modify-IsEntry :
    (i : ℕ) (files : List File) (f : File) (g : File → File)
    → get_elem? files i ≡ some f
    → IsEntry i files (g f) (modify files i g)
modify-IsEntry i files f g at =
    (get_elem?-modify_self files i g at, λ j ne. get_elem?-modify_ne files i j g ne)

filedup_lem :
    (i : ℕ) (files : List File) (f : File)
    → get_elem? files i ≡ some f
    → 0 < f.ref
    → filedup i files ≡ some (modify files i (λ g. record g { ref = f.ref + 1 }))
unfolding filedup
filedup_lem i files f at pos =
    let e : ltb f.ref 1 ≡ false = ground arith in rw (at, filedup, e) refl

fileclose_early :
    (i : ℕ) (files : List File) (f : File)
    → get_elem? files i ≡ some f
    → 1 < f.ref
    → fileclose i files ≡ some (modify files i (λ g. record g { ref = f.ref - 1 }), [])
unfolding fileclose
fileclose_early i files f at more =
    let e : ltb f.ref 1 ≡ false = ground arith in
    let e' : ltb 0 (f.ref - 1) ≡ true = ground arith in rw (at, fileclose, e, e') refl

fileclose_one :
    (i : ℕ) (files : List File) (f : File)
    → get_elem? files i ≡ some f
    → f.ref ≡ 1
    → fileclose i files
      ≡ some (modify files i (λ g. record g { ref = 0; type = fd_none }), release_of f)
unfolding fileclose
fileclose_one i files f at one =
    let e : ltb f.ref 1 ≡ false = ground arith in
    let e' : ltb 0 (f.ref - 1) ≡ false = ground arith in rw (at, fileclose, e, e') refl

fileclose_free :
    (i : ℕ) (files : List File) (f : File)
    → get_elem? files i ≡ some f
    → f.ref ≡ 0
    → fileclose i files ≡ none
unfolding fileclose
fileclose_free i files f at free =
    let e : ltb f.ref 1 ≡ true = ground arith in rw (at, fileclose, e) refl

dups_lem :
    (n i : ℕ) (files : List File) (f : File)
    → get_elem? files i ≡ some f
    → 0 < f.ref
    → (files' : List File) × (dups n i files ≡ some files')
      × IsEntry i files (record f { ref = f.ref + n }) files'
unfolding dups
dups_lem zero i files f at pos =
    (files, refl, (at ∙ ap (λ (k : ℕ). some (record f { ref = k })) (omega arith), λ j ne. refl))
dups_lem (suc n) i files f at pos =
    let m = modify-IsEntry i files f (λ g. record g { ref = f.ref + 1 }) at in
    let (files', ran, (here, others)) =
      dups_lem n i (modify files i (λ g. record g { ref = f.ref + 1 }))
        (record f { ref = f.ref + 1 }) m.0 (omega arith) in
    rw (dups, filedup_lem i files f at pos)
      (
        files',
        ran,
        (
          here ∙ ap (λ (k : ℕ). some (record f { ref = k })) (omega arith),
          λ j ne. others j ne ∙ m.1 j ne,
        ),
      )

closes_early :
    (k i : ℕ) (files : List File) (f : File)
    → get_elem? files i ≡ some f
    → k < f.ref
    → (files' : List File) × (closes k i files ≡ some (files', []))
      × IsEntry i files (record f { ref = f.ref - k }) files'
unfolding closes
closes_early zero i files f at less =
    (files, refl, (at ∙ ap (λ (k : ℕ). some (record f { ref = k })) (omega arith), λ j ne. refl))
closes_early (suc k) i files f at less =
    let m = modify-IsEntry i files f (λ g. record g { ref = f.ref - 1 }) at in
    let (files', ran, (here, others)) =
      closes_early k i (modify files i (λ g. record g { ref = f.ref - 1 }))
        (record f { ref = f.ref - 1 }) m.0 (omega arith) in
    rw (closes, fileclose_early i files f at (omega arith), ran)
      (
        files',
        refl,
        (
          here ∙ ap (λ (k : ℕ). some (record f { ref = k })) (omega arith),
          λ j ne. others j ne ∙ m.1 j ne,
        ),
      )

closes_all :
    (n i : ℕ) (files : List File) (f : File)
    → get_elem? files i ≡ some f
    → f.ref ≡ suc n
    → (files' : List File) × (closes (suc n) i files ≡ some (files', release_of f))
      × IsEntry i files (record f { ref = 0; type = fd_none }) files'
unfolding closes
closes_all zero i files f at one =
    let m = modify-IsEntry i files f (λ g. record g { ref = 0; type = fd_none }) at in
    rw (closes, fileclose_one i files f at one)
      (
        _,
        ap
            (λ (given : List Release).
              some (modify files i (λ g. record g { ref = 0; type = fd_none }), given))
            (List.append-nil (release_of f)),
        m,
      )
closes_all (suc n) i files f at e =
    let m = modify-IsEntry i files f (λ g. record g { ref = f.ref - 1 }) at in
    let (files', ran, (here, others)) =
      closes_all n i (modify files i (λ g. record g { ref = f.ref - 1 }))
        (record f { ref = f.ref - 1 }) m.0 (omega arith) in
    rw (closes, fileclose_early i files f at (omega arith), ran)
      (files', refl, (here, λ j ne. others j ne ∙ m.1 j ne))

-- What the last close of a file of each type gives up.
abbrev pub IsGivenUp : File → List Release → Type 0
IsGivenUp f given =
    (f.type ≡ fd_pipe → given ≡ pipeclose f.pipe f.writable ∷ [])
    × (f.type ≡ fd_inode → given ≡ begin_op ∷ iput f.ip ∷ end_op ∷ [])
    × (f.type ≡ fd_none → given ≡ [])

release_of-IsGivenUp : (f : File) → IsGivenUp f (release_of f)
release_of-IsGivenUp f = ((λ e. rw e refl), (λ e. rw e refl), (λ e. rw e refl))

-- Let an open file be duplicated `n` times. Each `fileclose` but the last only lowers its count and
-- gives up nothing; the last, the one that makes it as many as there were references, closes the
-- end of the pipe, or puts the inode in a transaction, and frees the entry; one more panics. The other entries stay as they are.
pub fileclose_once :
    (i n : ℕ) (files : List File) (f : File)
    → get_elem? files i ≡ some f
    → 0 < f.ref
    → (opened : List File) × (dups n i files ≡ some opened)
      × ((k : ℕ)
          → k < f.ref + n
          → (t : List File) × (closes k i opened ≡ some (t, []))
            × IsEntry i files (record f { ref = f.ref + n - k }) t)
      × ((t : List File) × (given : List Release) × (closes (f.ref + n) i opened ≡ some (t, given))
          × IsGivenUp f given
          × IsEntry i files (record f { ref = 0; type = fd_none }) t
          × (fileclose i t ≡ none))
fileclose_once i n files f at pos =
    let (opened, ran, (here, others)) = dups_lem n i files f at pos in
    let g : File = record f { ref = f.ref + n } in
    let (t, closed, (there, rest)) = closes_all (f.ref + n - 1) i opened g here (omega arith) in
    (
      opened,
      ran,
      λ k less.
          let (u, some_closed, (at_u, rest_u)) = closes_early k i opened g here less in
          (u, some_closed, (at_u, λ j ne. rest_u j ne ∙ others j ne)),
      (
        t,
        release_of f,
        ap (λ (c : ℕ). closes c i opened) (omega arith) ∙ closed,
        release_of-IsGivenUp f,
        (there, λ j ne. rest j ne ∙ others j ne),
        fileclose_free i t (record f { ref = 0; type = fd_none }) there refl,
      ),
    )
