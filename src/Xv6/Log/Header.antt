-- ===== src/Xv6/Log/Header.antt =====
-- The log's header block: what `write_head` encodes, `read_head` decodes.
use cs5460spring.Base.{
  ℕ, zero, suc, ◌+◌, ◌≤◌, ◌<◌, ◌≡◌, ◌∙◌, refl, List, arith, get_or, length, length-set,
  get_or-set_self, get_or-set_ne, ℕ_discrete,
}
use cs5460spring.Xv6.Log.{write_words, read_words}

pub length-write_words :
    (m i : ℕ) (block words : List ℕ) → length (write_words m i block words) ≡ length words
unfolding write_words
length-write_words zero i block words = refl
length-write_words (suc m) i block words =
    length-write_words m (i + 1) block _ ∙ length-set words (i + 1) (get_or block i 0)

pub write_words-miss :
    (m i : ℕ) (block words : List ℕ) (j : ℕ)
    → j ≤ i
    → get_or (write_words m i block words) j 0 ≡ get_or words j 0
unfolding write_words
write_words-miss zero i block words j h = refl
write_words-miss (suc m) i block words j h =
    write_words-miss m (i + 1) block _ j (omega arith)
    ∙ get_or-set_ne words (i + 1) j (get_or block i 0) 0 (omega arith)

pub write_words-hit :
    (m i : ℕ) (block words : List ℕ) (j : ℕ)
    → i ≤ j
    → j < i + m
    → i + m < length words
    → get_or (write_words m i block words) (j + 1) 0 ≡ get_or block j 0
unfolding write_words
write_words-hit zero i block words j lo hi room = absurd (omega arith)
write_words-hit (suc m) i block words j lo hi room = elim (ℕ_discrete j i) [
  | yes e ↦ rw e (
      write_words-miss m (i + 1) block _ (i + 1) (omega arith)
      ∙ get_or-set_self words (i + 1) (get_or block i 0) 0 (omega arith))
  | no ne ↦
      write_words-hit m (i + 1) block _ j (omega arith) (omega arith)
        (omega (arith, length-set words (i + 1) (get_or block i 0)))
]

pub read_words-miss :
    (m i : ℕ) (words block : List ℕ) (j : ℕ)
    → j < i
    → get_or (read_words m i words block) j 0 ≡ get_or block j 0
unfolding read_words
read_words-miss zero i words block j h = refl
read_words-miss (suc m) i words block j h =
    read_words-miss m (i + 1) words _ j (omega arith)
    ∙ get_or-set_ne block i j (get_or words (i + 1) 0) 0 (omega arith)

pub read_words-hit :
    (m i : ℕ) (words block : List ℕ) (j : ℕ)
    → i ≤ j
    → j < i + m
    → i + m ≤ length block
    → get_or (read_words m i words block) j 0 ≡ get_or words (j + 1) 0
unfolding read_words
read_words-hit zero i words block j lo hi room = absurd (omega arith)
read_words-hit (suc m) i words block j lo hi room = elim (ℕ_discrete j i) [
  | yes e ↦ rw e (
      read_words-miss m (i + 1) words _ i (omega arith)
      ∙ get_or-set_self block i (get_or words (i + 1) 0) 0 (omega arith))
  | no ne ↦
      read_words-hit m (i + 1) words _ j (omega arith) (omega arith)
        (omega (arith, length-set block i (get_or words (i + 1) 0)))
]
