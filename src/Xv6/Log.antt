-- ===== src/Xv6/Log.antt =====
-- Asg02/xv6-2/log.c: the redo log.
--
-- A disk is a function from block numbers to blocks, a block a list of 128 words. `cache` is what
-- `bread` yields for a block: the buffer cache keeps a changed buffer until it is written. Disk
-- writes are synchronous and one at a time, so a crash is a number, `power`: so many more writes
-- reach the disk, and none after them.
pub mod Disk
mod Tests
pub mod Header
pub mod Commit
pub mod Crash
pub mod Reserve
use cs5460spring.Base.{
  ℕ, zero, suc, ◌+◌, ◌-◌, ◌*◌, List, Bool, true, false, if◌then◌else◌, ltb, leb, ◌==◌, get_or, set,
  ◌||◌,
}
use Disk.{Block, Store, copy_all, bwrite, update}

abbrev pub log_size : ℕ
log_size = 30

abbrev pub max_op_blocks : ℕ
max_op_blocks = 10

-- `struct log` with its `struct logheader`. The spin lock makes each critical section one step.
pub record Log : Type 0 where
  pub start : ℕ
  pub size : ℕ
  pub outstanding : ℕ
  pub committing : Bool
  pub lh_n : ℕ
  pub lh_block : List ℕ

-- What a call did: it may go on, it sleeps on `&log`, or the kernel panics.
pub data Outcome {ℓ} (A : Type ℓ) : Type ℓ where
  done : A → Outcome A
  sleeps : Outcome A
  panics : Outcome A

-- The copying loop of `write_head`, with the rounds left.
pub write_words : ℕ → ℕ → List ℕ → List ℕ → List ℕ
write_words zero i block words = words
write_words (suc n) i block words =
    write_words n (i + 1) block (set words (i + 1) (get_or block i 0))

-- The copying loop of `read_head`.
pub read_words : ℕ → ℕ → List ℕ → List ℕ → List ℕ
read_words zero i words block = block
read_words (suc n) i words block = read_words n (i + 1) words (set block i (get_or words (i + 1) 0))

-- The header block holds `n` in its first word and the block numbers behind it.
pub write_head : Log → Store → Store
write_head log s = bwrite log.start (record s {
  cache =
      update s.cache log.start
        (write_words log.lh_n 0 log.lh_block (set (s.cache log.start) 0 log.lh_n));
})

pub read_head : Log → Store → Log
read_head log s =
    let words = s.cache log.start in
    let n = get_or words 0 0 in
    record log { lh_n = n; lh_block = read_words n 0 words log.lh_block }

abbrev pub home : Log → ℕ → ℕ
home log tail = get_or log.lh_block tail 0

abbrev pub slot : Log → ℕ → ℕ
slot log tail = log.start + tail + 1

pub install_trans : Log → Store → Store
install_trans log s = copy_all (slot log) (home log) log.lh_n 0 s

pub write_log : Log → Store → Store
write_log log s = copy_all (home log) (slot log) log.lh_n 0 s

pub recover_from_log : Log → Store → Log × Store
unfolding read_head write_head install_trans
recover_from_log log s =
    let log1 = read_head log s in
    let s1 = install_trans log1 s in
    let log2 = record log1 { lh_n = 0 } in (log2, write_head log2 s1)

pub commit : Log → Store → Log × Store
unfolding write_log write_head install_trans
commit log s =
    if ltb 0 log.lh_n
    then (let s1 = write_log log s in
        let s2 = write_head log s1 in
        let s3 = install_trans log s2 in
        let log' = record log { lh_n = 0 } in (log', write_head log' s3))
    else (log, s)

-- `initlog`, given the two fields of the superblock. Its size check compares two constants,
-- 124 bytes of header with the 512 of a block, and passes.
pub initlog : ℕ → ℕ → Log → Store → Log × Store
unfolding recover_from_log
initlog logstart nlog log s = recover_from_log (record log { start = logstart; size = nlog }) s

-- One turn of the loop of `begin_op`.
pub begin_op : Log → Outcome Log
begin_op log =
    if log.committing
    then sleeps
    else if ltb log_size (log.lh_n + (log.outstanding + 1) * max_op_blocks)
    then sleeps
    else done (record log { outstanding = log.outstanding + 1 })

-- The first critical section of `end_op`; the flag is `do_commit`. `outstanding` is above 0 here.
pub end_op_count : Log → Outcome (Log × Bool)
end_op_count log =
    if log.committing
    then panics
    else if log.outstanding - 1 == 0
    then done (record log { outstanding = 0; committing = true }, true)
    else done (record log { outstanding = log.outstanding - 1 }, false)

-- The whole of `end_op`. While it commits, `committing` keeps every other call out.
pub end_op : Log → Store → Outcome (Log × Store)
unfolding end_op_count commit
end_op log s = elim (end_op_count log) [
  | panics ↦ panics
  | sleeps ↦ sleeps
  | done (log1, do_commit) ↦
      if do_commit
      then (let (log2, s2) = commit log1 s in done (record log2 { committing = false }, s2))
      else done (log1, s)
]

-- The search loop of `log_write`: the first index that holds `blockno`, or `lh.n`.
pub log_index : ℕ → ℕ → List ℕ → ℕ → ℕ
log_index zero i block blockno = i
log_index (suc n) i block blockno =
    let rest = log_index n (i + 1) block blockno in if get_or block i 0 == blockno then i else rest

-- The updates of `log_write`, once its two checks have passed.
pub log_record : Log → ℕ → Log
unfolding log_index
log_record log blockno =
    let i = log_index log.lh_n 0 log.lh_block blockno in
    record log {
      lh_n = if i == log.lh_n then log.lh_n + 1 else log.lh_n;
      lh_block = set log.lh_block i blockno;
    }

-- `log.size - 1` is a C `int`: at size 0 the test `lh.n >= -1` passes.
pub log_write : ℕ → Log → Store → Outcome (Log × Store)
unfolding log_record
log_write blockno log s =
    if leb log_size log.lh_n || leb log.size (log.lh_n + 1)
    then panics
    else if ltb log.outstanding 1
    then panics
    else done (log_record log blockno, record s { dirty = update s.dirty blockno true })

-- The kernel starts again: the caches are empty, and `n` disk writes are granted.
pub reboot : ℕ → Store → Store
reboot n s = record { disk = s.disk; cache = s.disk; dirty = λ b. false; power = n }
