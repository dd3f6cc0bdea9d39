-- ===== src/Fd/Share.antt =====
-- The table calls of src/fs/lxp_fd.c and src/proc/lxp_process.c: a task's table is copied, shared and
-- given up. A table of the pool is free when its count is 0. `memset` keeps a table's length.
use lxp.Common.{
  ℕ, zero, suc, ◌+◌, ◌-◌, Bool, true, false, Option, none, some, List, [], ◌∷◌, map, ◌==◌,
  if◌then◌else◌, length, set, Result, ok, err,
}
use lxp.Common.Int.{pos}
use lxp.Errno.{enomem, eagain}
use lxp.Fd.{Fd, Files, World, u16_max, free_fd, files_at, ofd_at, retained, fd_lookup, close_range}

abbrev pub set_files : World → ℕ → Files → World
set_files w t f = record w { tables = set w.tables t f }

abbrev pub cleared : List Fd → List Fd
cleared = map (λ e. free_fd)

-- whether a descriptor in `n` from `fd` on names a description whose count is full
unfoldable pub some_full : ℕ → ℕ → World → ℕ → Bool
some_full zero fd w t = false
some_full (suc n) fd w t =
    let rest = some_full n (fd + 1) w t in
    elim (fd_lookup w t (pos fd)) [
      | none ↦ rest
      | some k ↦ if (ofd_at w k).refs == u16_max then true else rest
    ]

-- the second loop of `lxp_fd_table_retain`
unfoldable pub retain_range : ℕ → ℕ → World → ℕ → World
retain_range zero fd w t = w
retain_range (suc n) fd w t =
    retain_range n (fd + 1) (elim (fd_lookup w t (pos fd)) [ none ↦ w | some k ↦ retained w k ]) t

-- lxp_fd_table_retain; `none` is -1
unfoldable pub table_retain : World → ℕ → Option World
unfolding some_full retain_range
table_retain w t =
    let n = length (files_at w t).fd in
    if some_full n 0 w t then none else some (retain_range n 0 w t)

-- the index, from `i` on, of the first free table, as `resource_new` finds it
unfoldable pub free_table : ℕ → List Files → Option ℕ
free_table i [] = none
free_table i (f ∷ fs) = let rest = free_table (i + 1) fs in if f.refs == 0 then some i else rest

-- files_new: the table's index, and the world
unfoldable pub files_new : World → Option (ℕ × World)
unfolding free_table
files_new w = elim (free_table 0 w.tables) [
  | none ↦ none
  | some t ↦ some (t, set_files w t (record { refs = 1; fd = cleared (files_at w t).fd }))
]

-- what `lxp_fd_fork_inherit` does once the descriptors `es` are copied to the table `t'`
unfoldable pub inherit_into : World → ℕ → List Fd → World × Result ℕ
unfolding table_retain
inherit_into w t' es = elim (table_retain w t') [
  | none ↦ (set_files w t' (record { refs = 0; fd = cleared es }), err eagain)
  | some w' ↦ (w', ok t')
]

-- the copy of the table `t` into what `files_new` answered
abbrev pub inherit_from : World → ℕ → Option (ℕ × World) → World × Result ℕ
inherit_from w t none = (w, err enomem)
inherit_from w t (some (t', w1)) =
    inherit_into (set_files w1 t' (record { refs = 1; fd = (files_at w1 t).fd })) t'
      (files_at w1 t).fd

-- lxp_fd_fork_inherit of the table `t`: the child's table, or the error, with which it keeps `t`
unfoldable pub fork_inherit : World → ℕ → World × Result ℕ
fork_inherit w t = inherit_from w t (files_new w)

-- files_put of the table `t`, which the task then no longer has
unfoldable pub files_put : World → ℕ → World
files_put w t =
    let f = files_at w t in
    let w1 = set_files w t (record f { refs = f.refs - 1 }) in
    let w2 = close_range (length f.fd) 0 w1 t in
    if f.refs == 0
    then w
    else if f.refs - 1 == 0
    then set_files w2 t (record { refs = 0; fd = cleared (files_at w2 t).fd })
    else w1

-- lxp_proc_files_unshare: the task's table afterwards, or the error, with which it keeps `t`
unfoldable pub files_unshare : World → ℕ → World × Result ℕ
unfolding fork_inherit
files_unshare w t =
    let (w1, r) = fork_inherit w t in
    if (files_at w t).refs == 1 then (w, ok t) else elim r [
      | err e ↦ (w1, err e)
      | ok t' ↦ (set_files w1 t (record (files_at w1 t) { refs = (files_at w1 t).refs - 1 }), ok t')
    ]
