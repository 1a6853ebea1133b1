-- ===== src/Xv6/Pipe.antt =====
-- Asg02/xv6-2/pipe.c: pipes. `p->lock` is held but for sleeps, so between two sleeps a call is one
-- step; what other processes do to the pipe during a sleep is an argument.
pub mod Queue
mod Tests
pub mod Transfer
use cs5460spring.Base.{
  ℕ, zero, suc, ◌+◌, ◌%◌, ◌^◌, List, [], ◌∷◌, Bool, false, not, ◌&&◌, ◌||◌, if◌then◌else◌, ◌==◌,
  length, get_or, set,
}

abbrev pub pipe_size : ℕ
pipe_size = 512

-- `struct pipe`. The counters are `uint`.
pub record Pipe : Type 0 where
  pub buf : List ℕ
  pub nread : ℕ
  pub nwrite : ℕ
  pub readopen : Bool
  pub writeopen : Bool

-- The two channels of a pipe on which processes sleep.
pub data Channel : Type 0 where
  readers writers : Channel

-- How a call ends: with a count, with -1, or still asleep.
pub data Ended : Type 0 where
  returns : ℕ → Ended
  fails : Ended
  asleep : Ended

abbrev pub is_full : Pipe → Bool
is_full p = p.nwrite == (p.nread + pipe_size) % 2 ^ 32

abbrev pub is_empty : Pipe → Bool
is_empty p = p.nread == p.nwrite

-- `p->data[p->nwrite++ % PIPESIZE] = c`
unfoldable pub put : Pipe → ℕ → Pipe
put p c = record p { buf = set p.buf (p.nwrite % pipe_size) c; nwrite = (p.nwrite + 1) % 2 ^ 32 }

-- `p->data[p->nread++ % PIPESIZE]`
abbrev pub front : Pipe → ℕ
front p = get_or p.buf (p.nread % pipe_size) 0

unfoldable pub pop : Pipe → Pipe
pop p = record p { nread = (p.nread + 1) % 2 ^ 32 }

-- What happens during a sleep: the pipe afterwards, and whether the sleeper was killed.
abbrev pub Others : Type 0
Others = Pipe → Pipe × Bool

-- The loops of `pipewrite`, with the bytes left, whether the caller is killed, and the sleeps to
-- come. `n` is what a full run returns. The last result is
-- the calls of `wakeup`, in order.
pub write_loop : ℕ → List Others → Bool → Pipe → List ℕ → Ended × Pipe × List Channel
write_loop n sleeps killed p [] = (returns n, p, readers ∷ [])
write_loop n [] killed p (c ∷ cs) =
    let next = write_loop n [] killed (put p c) cs in
    if is_full p
    then (if not p.readopen || killed then (fails, p, []) else (asleep, p, readers ∷ []))
    else next
write_loop n (others ∷ sleeps) killed p (c ∷ cs) =
    let next = write_loop n (others ∷ sleeps) killed (put p c) cs in
    let (end, p', woken) = write_loop n sleeps (others p).1 (others p).0 (c ∷ cs) in
    if is_full p
    then (if not p.readopen || killed then (fails, p, []) else (end, p', readers ∷ woken))
    else next

pub pipewrite : List Others → Bool → Pipe → List ℕ → Ended × Pipe × List Channel
unfolding write_loop
pipewrite sleeps killed p bytes = write_loop (length bytes) sleeps killed p bytes

-- The copying loop of `piperead`, with the rounds left: what is read, and the pipe.
pub read_loop : ℕ → Pipe → List ℕ × Pipe
read_loop zero p = ([], p)
read_loop (suc n) p =
    let (cs, p') = read_loop n (pop p) in if is_empty p then ([], p) else (front p ∷ cs, p')

-- `piperead` of `n` bytes, for an `n` that is not negative: `sys_read` gets it through `argptr`, which
-- refuses a negative size. The answer says how it ends, the bytes copied to `addr`, the pipe, and the
-- calls of `wakeup`.
pub piperead : List Others → Bool → Pipe → ℕ → Ended × List ℕ × Pipe × List Channel
unfolding read_loop
piperead [] killed p n =
    let (cs, p') = read_loop n p in
    if is_empty p && p.writeopen
    then (if killed then (fails, [], p, []) else (asleep, [], p, []))
    else (returns (length cs), cs, p', writers ∷ [])
piperead (others ∷ sleeps) killed p n =
    let again = piperead sleeps (others p).1 (others p).0 n in
    let (cs, p') = read_loop n p in
    if is_empty p && p.writeopen
    then (if killed then (fails, [], p, []) else again)
    else (returns (length cs), cs, p', writers ∷ [])

-- `pipeclose`: the pipe, whom it wakes, and whether its page is freed.
pub pipeclose : Pipe → Bool → Pipe × Channel × Bool
pipeclose p writable =
    if writable
    then (record p { writeopen = false }, readers, not p.readopen)
    else (record p { readopen = false }, writers, not p.writeopen)
