-- ===== src/Xv6/File/Tests.antt =====
-- Asg02/xv6-2/file.c: a pipe's end with two references.
use cs5460spring.Base.{ℕ, ◌-◌, ◌<◌, ◌≡◌, refl, List, [], ◌∷◌, some, none, true, false, arith}
use cs5460spring.Xv6.File.{File, fd_none, fd_pipe, Release, fileclose}
use cs5460spring.Xv6.File.Refs.{dups, closes, IsEntry, IsGivenUp, fileclose_once}

abbrev pipe_end : File
pipe_end = record {
  type = fd_pipe;
  ref = 2;
  readable = false;
  writable = true;
  pipe = 5;
  ip = 0;
  off = 0;
}

abbrev open_files : List File
open_files = record pipe_end { ref = 0; type = fd_none } ∷ pipe_end ∷ []

fileclose_once_example :
    (opened : List File) × (dups 1 1 open_files ≡ some opened)
    × ((k : ℕ)
        → k < 3
        → (t : List File) × (closes k 1 opened ≡ some (t, []))
          × IsEntry 1 open_files (record pipe_end { ref = 3 - k }) t)
    × ((t : List File) × (given : List Release) × (closes 3 1 opened ≡ some (t, given))
        × IsGivenUp pipe_end given
        × IsEntry 1 open_files (record pipe_end { ref = 0; type = fd_none }) t
        × (fileclose 1 t ≡ none))
fileclose_once_example = fileclose_once 1 1 open_files pipe_end refl (omega arith)
