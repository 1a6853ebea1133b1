-- ===== src/Xv6/Pipe/Tests.antt =====
-- Asg02/xv6-2/pipe.c: a pipe whose counters are about to wrap.
use cs5460spring.Base.{
  ℕ, ◌+◌, ◌-◌, ◌^◌, ◌<◌, ◌≤◌, ◌≡◌, refl, [], ◌∷◌, ◌++◌, true, false, arith, replicate,
  length-replicate, min, take, drop, if◌then◌else◌, not, ◌||◌,
}
use cs5460spring.Xv6.Pipe.{Pipe, writers, pipe_size, returns, fails, asleep, pipewrite, piperead}
use cs5460spring.Xv6.Pipe.Queue.{held, IsValid, contents}
use cs5460spring.Xv6.Pipe.Transfer.{wakes_at, piperead_lem, pipewrite_lem}

-- Three bytes are held.
abbrev wrapping : Pipe
wrapping = record {
  buf = replicate 512 7;
  nread = 2 ^ 32 - 2;
  nwrite = 1;
  readopen = true;
  writeopen = true;
}

wrapping-IsValid : IsValid wrapping
wrapping-IsValid = record {
  storage = length-replicate {A = ℕ} 512 7;
  read_fits = omega arith;
  write_fits = omega arith;
  bounded = omega arith;
}

piperead_lem_example :
    let (end, cs, p', woken) = piperead [] false wrapping 2 in
    (end ≡ returns (min 2 (held wrapping)))
    × (cs ≡ take 2 (contents wrapping))
    × (contents p' ≡ drop 2 (contents wrapping))
    × IsValid p'
    × (woken ≡ writers ∷ [])
piperead_lem_example = piperead_lem [] false wrapping 2 wrapping-IsValid refl

pipewrite_lem_example :
    let (end, p', woken) = pipewrite [] false wrapping (1 ∷ 2 ∷ []) in
    IsValid p'
    × (contents p' ≡ contents wrapping ++ take (pipe_size - held wrapping) (1 ∷ 2 ∷ []))
    × (2 + held wrapping ≤ pipe_size → end ≡ returns 2)
    × (pipe_size < 2 + held wrapping → end ≡ (if not true || false then fails else asleep))
    × (woken ≡ wakes_at end)
pipewrite_lem_example = pipewrite_lem false wrapping (1 ∷ 2 ∷ []) wrapping-IsValid
