-- ===== src/Fd.antt =====
-- src/fs/lxp_fd.c and src/fs/lxp_fd_private.h: descriptor tables over a pool of open-file
-- descriptions. The world holds the tables (`g_files` of src/proc/lxp_process.c) and the descriptions
-- (`g_ofd`), and keeps the calls of `ops->close`, newest first, which touch neither. A task is the
-- index `t` of its table; a null task or table, which each function answers with its error, is not
-- modelled. LXP_MAX_FDS is the length of a table, LXP_MAX_OFD that of the pool.
pub mod Share
mod Count
mod Sound
mod Close
pub mod Calls
mod Open
mod Dup
pub mod Copy
mod Inherit
pub mod Fork
pub mod Put
pub mod Run
pub mod Tests
use lxp.Common.{
  ℕ, zero, suc, ◌+◌, ◌-◌, ◌/◌, ◌%◌, ◌^◌, Bool, true, false, Option, none, some, List, [], ◌∷◌, ltb,
  leb, ◌==◌, ◌&&◌, ◌||◌, not, if◌then◌else◌, length, get_or, set, Result, ok, err,
}
use lxp.Common.Int.{ℤ, pos, negsuc}
use lxp.Errno.{ebadf, emfile}

abbrev pub u16_max : ℕ
u16_max = 65535

-- lxp_fd_t
pub record Fd : Type 0 where
  pub ofd : ℕ
  pub cloexec : Bool

-- lxp_ofd_t
pub record Ofd : Type 0 where
  pub refs : ℕ
  pub kind : ℕ
  pub rw : Bool
  pub nonblock : Bool
  pub accmode : ℕ
  pub file_idx : ℤ
  pub offset : ℕ

-- lxp_files_t
pub record Files : Type 0 where
  pub refs : ℕ
  pub fd : List Fd

pub record World : Type 0 where
  pub tables : List Files
  pub ofds : List Ofd
  pub closed : List Ofd

abbrev pub free_fd : Fd
free_fd = record { ofd = 0; cloexec = false }

abbrev pub zero_ofd : Ofd
zero_ofd = record {
  refs = 0;
  kind = 0;
  rw = false;
  nonblock = false;
  accmode = 0;
  file_idx = pos 0;
  offset = 0;
}

abbrev pub no_files : Files
no_files = record { refs = 0; fd = [] }

abbrev pub files_at : World → ℕ → Files
files_at w t = get_or w.tables t no_files

-- `proc->files->fd[fd]` and `g_ofd[k]`
abbrev pub entry : World → ℕ → ℕ → Fd
entry w t fd = get_or (files_at w t).fd fd free_fd

abbrev pub ofd_at : World → ℕ → Ofd
ofd_at w k = get_or w.ofds k zero_ofd

abbrev pub set_entry : World → ℕ → ℕ → Fd → World
set_entry w t fd e = record w {
  tables = set w.tables t (record (files_at w t) { fd = set (files_at w t).fd fd e });
}

abbrev pub set_ofd : World → ℕ → Ofd → World
set_ofd w k o = record w { ofds = set w.ofds k o }

-- `refs++` on a 16-bit word
abbrev pub inc16 : ℕ → ℕ
inc16 n = (n + 1) % 2 ^ 16

-- fd_lookup: the index of the description
unfoldable pub fd_lookup : World → ℕ → ℤ → Option ℕ
fd_lookup w t (negsuc n) = none
fd_lookup w t (pos fd) =
    let o = (entry w t fd).ofd in
    if leb (length (files_at w t).fd) fd || o == 0 || ltb (length w.ofds) o
    then none
    else if (ofd_at w (o - 1)).refs == 0
    then none
    else some (o - 1)

-- lxp_fd_kind and lxp_fd_backing
unfoldable pub fd_kind : World → ℕ → ℤ → ℕ
fd_kind w t fd = elim (fd_lookup w t fd) [ none ↦ 0 | some k ↦ (ofd_at w k).kind ]

unfoldable pub fd_backing : World → ℕ → ℤ → ℤ
fd_backing w t fd = elim (fd_lookup w t fd) [ none ↦ negsuc 0 | some k ↦ (ofd_at w k).file_idx ]

-- the index, from `i` on, of the first description without references
unfoldable pub free_ofd_from : ℕ → List Ofd → Option ℕ
free_ofd_from i [] = none
free_ofd_from i (o ∷ os) =
    let rest = free_ofd_from (i + 1) os in if o.refs == 0 then some i else rest

-- the first free descriptor that is `least` or more, of those from `i` on
unfoldable pub free_fd_from : ℕ → ℕ → List Fd → Option ℕ
free_fd_from least i [] = none
free_fd_from least i (e ∷ es) =
    let rest = free_fd_from least (i + 1) es in if leb least i && e.ofd == 0 then some i else rest

-- `flags & LXP_O_NONBLOCK`, `flags & LXP_O_CLOEXEC` and `flags & LXP_O_ACCMODE`
abbrev pub wants_nonblock : ℕ → Bool
wants_nonblock flags = flags / 2048 % 2 == 1

abbrev pub wants_cloexec : ℕ → Bool
wants_cloexec flags = flags / 524288 % 2 == 1

abbrev pub accmode_of : ℕ → ℕ
accmode_of flags = flags % 4

-- the description that `lxp_fd_open` fills in
abbrev pub opened : ℕ → ℤ → ℕ → ℕ → Ofd
opened kind backing offset flags = record {
  refs = 1;
  kind = kind;
  rw = false;
  nonblock = wants_nonblock flags;
  accmode = accmode_of flags;
  file_idx = backing;
  offset = offset;
}

-- lxp_fd_open; `has_ops` tells the kinds that are built in
unfoldable pub fd_open : (ℕ → Bool) → World → ℕ → ℕ → ℤ → ℕ → ℕ → World × Result ℕ
unfolding free_ofd_from free_fd_from
fd_open has_ops w t kind backing offset flags =
    if leb 12 kind || not (has_ops kind) then (w, err emfile) else elim (free_ofd_from 0 w.ofds) [
      | none ↦ (w, err emfile)
      | some oi ↦ elim (free_fd_from 0 0 (files_at w t).fd) [
        | none ↦ (w, err emfile)
        | some fd ↦ (
          set_entry (set_ofd w oi (opened kind backing offset flags)) t fd
              (record { ofd = suc oi; cloexec = wants_cloexec flags }),
          ok fd,
        )
      ]
    ]

unfoldable pub set_end : World → ℕ → ℤ → Bool → World × Result ℕ
set_end w t fd end = elim (fd_lookup w t fd) [
  | none ↦ (w, err ebadf)
  | some k ↦ (set_ofd w k (record (ofd_at w k) { rw = end }), ok 0)
]

unfoldable pub set_cloexec : World → ℕ → ℤ → Bool → World × Result ℕ
set_cloexec w t (negsuc n) enabled = (w, err ebadf)
set_cloexec w t (pos fd) enabled = elim (fd_lookup w t (pos fd)) [
  | none ↦ (w, err ebadf)
  | some k ↦ (set_entry w t fd (record (entry w t fd) { cloexec = enabled }), ok 0)
]

unfoldable pub get_cloexec : World → ℕ → ℤ → Result ℕ
get_cloexec w t (negsuc n) = err ebadf
get_cloexec w t (pos fd) = elim (fd_lookup w t (pos fd)) [
  | none ↦ err ebadf
  | some k ↦ ok (if (entry w t fd).cloexec then 1 else 0)
]

unfoldable pub free_count : List Fd → ℕ
free_count [] = 0
free_count (e ∷ es) = (if e.ofd == 0 then 1 else 0) + free_count es

-- what `lxp_fd_close` does with the description once its descriptor is cleared: `closed` has those that
-- were handed to the close operation of their kind, which does nothing for a kind that has none
unfoldable pub drop_ref : World → ℕ → World
drop_ref w k =
    let o = record (ofd_at w k) { refs = (ofd_at w k).refs - 1 } in
    if o.refs == 0 then record (set_ofd w k zero_ofd) { closed = o ∷ w.closed } else set_ofd w k o

-- lxp_fd_close
unfoldable pub close : World → ℕ → ℤ → World × Result ℕ
unfolding drop_ref
close w t (negsuc n) = (w, err ebadf)
close w t (pos fd) = elim (fd_lookup w t (pos fd)) [
  | none ↦ (w, err ebadf)
  | some k ↦ (drop_ref (set_entry w t fd free_fd) k, ok 0)
]

-- the loop of `lxp_fd_close_all`, with `n` descriptors left
unfoldable pub close_range : ℕ → ℕ → World → ℕ → World
close_range zero fd w t = w
close_range (suc n) fd w t = close_range n (fd + 1) (close w t (pos fd)).0 t

unfoldable pub close_all : World → ℕ → World
unfolding close_range
close_all w t = close_range (length (files_at w t).fd) 0 w t

abbrev pub is_cloexec : World → ℕ → ℕ → Bool
is_cloexec w t fd = elim (get_cloexec w t (pos fd)) [ ok v ↦ ltb 0 v | err e ↦ false ]

-- the loop of `lxp_fd_close_on_exec`
unfoldable pub exec_range : ℕ → ℕ → World → ℕ → World
exec_range zero fd w t = w
exec_range (suc n) fd w t =
    exec_range n (fd + 1) (if is_cloexec w t fd then (close w t (pos fd)).0 else w) t

unfoldable pub close_on_exec : World → ℕ → World
unfolding exec_range
close_on_exec w t = exec_range (length (files_at w t).fd) 0 w t

abbrev pub retained : World → ℕ → World
retained w k = set_ofd w k (record (ofd_at w k) { refs = inc16 (ofd_at w k).refs })

-- fd_retain of `k`; `none` is -1
unfoldable pub fd_retain : World → ℕ → Option World
fd_retain w k = if (ofd_at w k).refs == u16_max then none else some (retained w k)

abbrev pub pointing : World → ℕ → ℕ → ℕ → Bool → World
pointing w t fd o cloexec = set_entry w t fd (record { ofd = o; cloexec = cloexec })

-- what `lxp_fd_dup_to` does with the descriptor once the description is retained
unfoldable pub put_on : World → ℕ → ℕ → ℕ → Bool → World
put_on w t fd o cloexec =
    pointing (if (entry w t fd).ofd == 0 then w else (close w t (pos fd)).0) t fd o cloexec

-- lxp_fd_dup_to
unfoldable pub dup_to : World → ℕ → ℤ → ℤ → Bool → World × Result ℕ
unfolding fd_retain put_on
dup_to w t (negsuc n) newfd cloexec = (w, err ebadf)
dup_to w t (pos oldfd) (negsuc n) cloexec = (w, err ebadf)
dup_to w t (pos oldfd) (pos newfd) cloexec = elim (fd_lookup w t (pos oldfd)) [
  | none ↦ (w, err ebadf)
  | some k ↦
      let o = (entry w t oldfd).ofd in
      if leb (length (files_at w t).fd) newfd
      then (w, err ebadf)
      else if oldfd == newfd
      then (w, ok newfd)
      else elim (fd_retain w k) [
        | none ↦ (w, err emfile)
        | some w1 ↦ (put_on w1 t newfd o cloexec, ok newfd)
      ]
]

-- lxp_fd_dup_min
unfoldable pub dup_min : World → ℕ → ℤ → ℤ → Bool → World × Result ℕ
unfolding fd_retain free_fd_from
dup_min w t (negsuc n) minfd cloexec = (w, err ebadf)
dup_min w t (pos oldfd) minfd cloexec = elim (fd_lookup w t (pos oldfd)) [
  | none ↦ (w, err ebadf)
  | some k ↦ elim minfd [
    | negsuc n ↦ (w, err emfile)
    | pos least ↦ elim (free_fd_from least 0 (files_at w t).fd) [
      | none ↦ (w, err emfile)
      | some fd ↦ elim (fd_retain w k) [
        | none ↦ (w, err emfile)
        | some w1 ↦ (pointing w1 t fd (entry w t oldfd).ofd cloexec, ok fd)
      ]
    ]
  ]
]
