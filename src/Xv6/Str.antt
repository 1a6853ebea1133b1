-- ===== src/Xv6/Str.antt =====
-- Asg02/xv6-2/string.c. Memory is a function from addresses to bytes; a call's blocks do not wrap
-- round the end of the address space. The strings of `safestrcpy` are arrays of their own.
pub mod Move
mod Tests
pub mod Fill
pub mod Compare
use cs5460spring.Base.{
  ℕ, zero, suc, ◌+◌, ◌-◌, ◌*◌, ◌/◌, ◌%◌, ◌^◌, Option, none, some, List, not, ◌&&◌, if◌then◌else◌,
  ltb, ◌==◌, get_or, set, bit_or,
}

abbrev pub Memory : Type 0
Memory = ℕ → ℕ

abbrev pub store : Memory → ℕ → ℕ → Memory
store m d b a = if d == a then b else m a

-- `stosb` (x86.h): the low byte of `c`, `n` times.
pub stosb : ℕ → ℕ → ℕ → Memory → Memory
stosb zero dst c m = m
stosb (suc n) dst c m = stosb n (dst + 1) c (store m dst (c % 2 ^ 8))

-- A word, its low byte first.
abbrev pub store_word : Memory → ℕ → ℕ → Memory
store_word m dst w =
    store
      (store (store (store m dst (w % 2 ^ 8)) (dst + 1) (w / 2 ^ 8 % 2 ^ 8)) (dst + 2)
        (w / 2 ^ 16 % 2 ^ 8))
      (dst + 3) (w / 2 ^ 24 % 2 ^ 8)

-- `stosl` (x86.h): a word, `n` times.
pub stosl : ℕ → ℕ → ℕ → Memory → Memory
stosl zero dst w m = m
stosl (suc n) dst w m = stosl n (dst + 4) w (store_word m dst w)

-- `(c<<24)|(c<<16)|(c<<8)|c`
abbrev pub spread : ℕ → ℕ
spread c = bit_or (bit_or (bit_or (c * 2 ^ 24) (c * 2 ^ 16)) (c * 2 ^ 8)) c

-- `c` is the `int`'s 32-bit pattern, and `c & 0xFF` its low byte.
pub memset : ℕ → ℕ → ℕ → Memory → Memory
unfolding stosb stosl
memset dst c n m =
    if dst % 4 == 0 && n % 4 == 0 then stosl (n / 4) dst (spread (c % 2 ^ 8)) m else stosb n dst c m

-- `*s1 - *s2` as a 32-bit pattern.
abbrev pub sub32 : ℕ → ℕ → ℕ
sub32 a b = (a + 2 ^ 32 - b) % 2 ^ 32

pub memcmp : ℕ → ℕ → ℕ → Memory → ℕ
memcmp v1 v2 zero m = 0
memcmp v1 v2 (suc n) m =
    let rest = memcmp (v1 + 1) (v2 + 1) n m in if m v1 == m v2 then rest else sub32 (m v1) (m v2)

-- The two loops of `memmove`: from the end down, with `n` bytes left, and from the start up.
pub move_down : ℕ → ℕ → ℕ → Memory → Memory
move_down zero d s m = m
move_down (suc n) d s m = move_down n d s (store m (d + n) (m (s + n)))

pub move_up : ℕ → ℕ → ℕ → Memory → Memory
move_up zero d s m = m
move_up (suc n) d s m = move_up n (d + 1) (s + 1) (store m d (m s))

pub memmove : ℕ → ℕ → ℕ → Memory → Memory
memmove dst src n m =
    if ltb src dst && ltb dst (src + n) then move_down n dst src m else move_up n dst src m

pub memcpy : ℕ → ℕ → ℕ → Memory → Memory
unfolding memmove
memcpy dst src n m = memmove dst src n m

-- `strncmp`; the result is a 32-bit pattern.
pub strncmp : ℕ → ℕ → ℕ → Memory → ℕ
strncmp p q zero m = 0
strncmp p q (suc n) m =
    let rest = strncmp (p + 1) (q + 1) n m in
    if not (m p == 0) && (m p == m q) then rest else sub32 (m p) (m q)

-- `strncpy`: the padding loop, and the copying loop.
pub pad : ℕ → ℕ → Memory → Memory
pad zero s m = m
pad (suc n) s m = pad n (s + 1) (store m s 0)

pub strncpy : ℕ → ℕ → ℕ → Memory → Memory
unfolding pad
strncpy s t zero m = m
strncpy s t (suc n) m =
    let rest = strncpy (s + 1) (t + 1) n (store m s (m t)) in
    if m t == 0 then pad n (s + 1) (store m s (m t)) else rest

-- The loop of `safestrcpy` over arrays, with the value of `n - 1` left and the index reached. After
-- a NUL is copied one more is written behind it.
pub safestrcpy_from : ℕ → ℕ → List ℕ → List ℕ → List ℕ
safestrcpy_from zero i s t = set s i 0
safestrcpy_from (suc n) i s t =
    let c = get_or t i 0 in
    let rest = safestrcpy_from n (i + 1) (set s i c) t in
    if c == 0 then set (set s i c) (i + 1) 0 else rest

unfoldable pub safestrcpy : List ℕ → List ℕ → ℕ → List ℕ
unfolding safestrcpy_from
safestrcpy s t zero = s
safestrcpy s t (suc n) = safestrcpy_from n 0 s t

-- `strlen`, with rounds left from index `n` on; `none` means that they ran out.
pub strlen : ℕ → ℕ → ℕ → Memory → Option ℕ
strlen zero s n m = none
strlen (suc k) s n m = let rest = strlen k s (n + 1) m in if m (s + n) == 0 then some n else rest
