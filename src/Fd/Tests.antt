-- ===== src/Fd/Tests.antt =====
-- Witnesses and runs of src/fs/lxp_fd.c: two tables of two descriptors over a pool of two descriptions.
use lxp.Common.{
  ℕ, zero, suc, ◌+◌, ◌-◌, ◌<◌, ◌≡◌, ◌⊎◌, refl, arith, Bool, true, some, List, [], ◌∷◌, length,
}
use lxp.Common.Int.{pos}
use lxp.Fd.{
  Files, World, free_fd, zero_ofd, files_at, entry, ofd_at, fd_lookup, free_ofd_from, free_fd_from,
  fd_open, drop_ref, close, close_range, fd_retain, put_on, dup_to,
}
use lxp.Fd.Share.{
  some_full, retain_range, table_retain, free_table, files_new, inherit_into, fork_inherit,
  files_put,
}
use lxp.Fd.Count.{names_in, total, cells}
use lxp.Fd.Sound.{no_extra, Sound}
use lxp.Fd.Copy.{Shared}
use lxp.Fd.Fork.{Inherited, fork_inherit-Shared}
use lxp.Fd.Run.{Call, opens, forks, puts, dups_to, call, run, InUse, run-Shared, close_last}

abbrev blank_table : ℕ → Files
blank_table refs = record { refs = refs; fd = free_fd ∷ free_fd ∷ [] }

abbrev pub blank : World
blank = record {
  tables = blank_table 1 ∷ blank_table 0 ∷ [];
  ofds = zero_ofd ∷ zero_ofd ∷ [];
  closed = [];
}

blank-entry : (t fd : ℕ) → (entry blank t fd).ofd ≡ 0
blank-entry zero zero = refl
blank-entry zero (suc zero) = refl
blank-entry zero (suc (suc fd)) = refl
blank-entry (suc zero) zero = refl
blank-entry (suc zero) (suc zero) = refl
blank-entry (suc zero) (suc (suc fd)) = refl
blank-entry (suc (suc t)) zero = refl
blank-entry (suc (suc t)) (suc fd) = refl

blank_counted : (k : ℕ) → k < 2 → (ofd_at blank k).refs ≡ total (suc k) blank.tables + no_extra k
unfolding total names_in
blank_counted zero lt = ground arith
blank_counted (suc zero) lt = ground arith
blank_counted (suc (suc k)) lt = absurd (omega arith)

blank_sized : (t : ℕ) → t < 2 → length (files_at blank t).fd ≡ 2
blank_sized zero lt = refl
blank_sized (suc zero) lt = refl
blank_sized (suc (suc t)) lt = absurd (omega arith)

blank-Sound : Sound no_extra blank
unfolding cells
blank-Sound = record {
  counted = blank_counted;
  named = λ t fd. omega (arith, blank-entry t fd);
  room = omega arith;
}

pub blank-Shared : Shared 2 blank
blank-Shared = record {
  sound = blank-Sound;
  clean = λ t fd z. blank-entry t fd;
  sized = blank_sized;
}

abbrev all_kinds : ℕ → Bool
all_kinds kind = true

-- open a pipe end (kind 3, backing 5), duplicate it, and fork
abbrev calls : List (ℕ × Call)
calls = (0, opens 3 (pos 5) 0 0) ∷ (0, dups_to (pos 0) (pos 1) true) ∷ (0, forks) ∷ []

calls-InUse : InUse all_kinds blank calls
unfolding InUse call fd_open free_ofd_from free_fd_from dup_to fd_lookup fd_retain put_on
calls-InUse = (omega arith, (omega arith, (omega arith, tt)))

run-Shared_example : Shared 2 (run all_kinds blank calls)
run-Shared_example = run-Shared all_kinds 2 blank calls blank-Shared calls-InUse

-- four descriptors name the pipe end
four_names : (ofd_at (run all_kinds blank calls) 0).refs ≡ 4
unfolding run call fd_open free_ofd_from free_fd_from dup_to fd_lookup fd_retain put_on fork_inherit
    files_new free_table inherit_into table_retain some_full retain_range
four_names = refl

fork_inherit-Shared_example :
    Shared 2 (fork_inherit blank 0).0
    × Inherited 0 blank (fork_inherit blank 0).0 (fork_inherit blank 0).1
fork_inherit-Shared_example = fork_inherit-Shared 2 blank 0 blank-Shared (omega arith) (omega arith)

abbrev one_open : World
one_open = (fd_open all_kinds blank 0 3 (pos 5) 0 0).0

one_open-Sound : Sound no_extra one_open
unfolding run call
one_open-Sound =
    (run-Shared all_kinds 2 blank ((0, opens 3 (pos 5) 0 0) ∷ []) blank-Shared one_open-InUse).sound
  where
    one_open-InUse : InUse all_kinds blank ((0, opens 3 (pos 5) 0 0) ∷ [])
    one_open-InUse = unfold InUse in (omega arith, tt)

one_open_lookup : fd_lookup one_open 0 (pos 0) ≡ some 0
unfolding fd_open free_ofd_from free_fd_from fd_lookup
one_open_lookup = refl

close_last_example :
    ((total 1 one_open.tables ≡ 1)
      × ((close one_open 0 (pos 0)).0.closed
          ≡ record (ofd_at one_open 0) { refs = 0 } ∷ one_open.closed))
    ⊎ ((1 < total 1 one_open.tables)
        × ((close one_open 0 (pos 0)).0.closed ≡ one_open.closed)
        × (ofd_at (close one_open 0 (pos 0)).0 0
            ≡ record (ofd_at one_open 0) { refs = total 1 one_open.tables - 1 }))
close_last_example = close_last one_open 0 0 0 one_open-Sound one_open_lookup

-- after both tasks gave up their tables the pipe end is closed once
closed_once :
    length (run all_kinds (run all_kinds blank calls) ((0, puts) ∷ (1, puts) ∷ [])).closed ≡ 1
unfolding run call fd_open free_ofd_from free_fd_from dup_to fd_lookup fd_retain put_on fork_inherit
    files_new free_table inherit_into table_retain some_full retain_range files_put close_range
    close drop_ref
closed_once = refl
