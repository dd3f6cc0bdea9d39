-- ===== src/Tmpfs.antt =====
-- src/fs/lxp_tmpfs.c: the nodes of the writable file system, whose bytes stand in the memory of an
-- arena (Arena). A path is the list of its characters. `base` is the address of the pool of `pool`
-- bytes, LXP_WFS_POOL. A node's index is not negative here; the callers check for -1 first.
pub mod Files
pub mod Rename
mod Names
mod Moved
mod Unique
mod Calls
mod Contents
mod Growth
mod Room
mod Written
mod Tests
use lxp.Common.{
  ℕ, zero, suc, ◌+◌, ◌-◌, ◌*◌, ◌/◌, ◌%◌, Bool, true, false, Option, none, some, List, [], ◌∷◌, ◌++◌,
  ltb, leb, ◌==◌, ◌&&◌, ◌||◌, not, if◌then◌else◌, length, get_or, set, drop, Result, ok, err,
}
use lxp.Errno.{enametoolong, einval, enotempty}
use lxp.Arena.{Arena, word_max, init}
use lxp.Arena.Mappings.{realloc, free}
use lxp.Path.{path_under}
use lxp.Path.Normal.{path_max}

-- lxp_wnode_t
pub record Wnode : Type 0 where
  pub path : List ℕ
  pub mode : ℕ
  pub data_at : ℕ
  pub size : ℕ
  pub cap : ℕ
  pub used : Bool
  pub open_refs : ℕ
  pub linked : Bool

-- g_wnodes, g_wfs_arena and g_wfs_ready
pub record Tmpfs : Type 0 where
  pub nodes : List Wnode
  pub arena : Arena
  pub ready : Bool

abbrev pub zero_node : Wnode
zero_node = record {
  path = [];
  mode = 0;
  data_at = 0;
  size = 0;
  cap = 0;
  used = false;
  open_refs = 0;
  linked = false;
}

-- lxp_wnode_at
abbrev pub node_at : List Wnode → ℕ → Wnode
node_at ns i = get_or ns i zero_node

-- `strcmp(a, b) == 0`
unfoldable pub same : List ℕ → List ℕ → Bool
same [] [] = true
same [] (d ∷ ds) = false
same (c ∷ cs) [] = false
same (c ∷ cs) (d ∷ ds) = c == d && same cs ds

-- `used && linked`
abbrev pub is_linked : Wnode → Bool
is_linked w = w.used && w.linked

-- `(mode & LXP_S_IFMT) == LXP_S_IFDIR`
abbrev pub is_dir : ℕ → Bool
is_dir mode = mode / 4096 % 16 == 4

-- lxp_wfs_find, from the index `i` on; `none` is -1
unfoldable pub find_from : ℕ → List Wnode → List ℕ → Option ℕ
unfolding same
find_from i [] path = none
find_from i (w ∷ ws) path =
    let rest = find_from (suc i) ws path in if is_linked w && same w.path path then some i else rest

unfoldable pub find : List Wnode → List ℕ → Option ℕ
unfolding find_from
find ns path = find_from 0 ns path

abbrev pub new_node : List ℕ → ℕ → Wnode
new_node path mode = record {
  path = path;
  mode = mode;
  data_at = 0;
  size = 0;
  cap = 0;
  used = true;
  open_refs = 0;
  linked = true;
}

-- lxp_wfs_create: the first node from the index `i` on that is not in use
unfoldable pub create_from : ℕ → List Wnode → List ℕ → ℕ → List Wnode × Option ℕ
create_from i [] path mode = ([], none)
create_from i (w ∷ ws) path mode =
    let (ws', r) = create_from (suc i) ws path mode in
    if w.used then (w ∷ ws', r) else (new_node path mode ∷ ws, some i)

unfoldable pub create : List Wnode → List ℕ → ℕ → List Wnode × Option ℕ
unfolding create_from
create ns path mode = if leb path_max (length path) then (ns, none) else create_from 0 ns path mode

-- the capacity that a node is to have, at least and at best
abbrev pub max_payload : ℕ → ℕ
max_payload pool = pool - 16

abbrev pub min_capacity : ℕ → ℕ
min_capacity need = need + 255 - (need + 255) % 256

unfoldable pub new_capacity : ℕ → ℕ → ℕ → ℕ
new_capacity pool cap mincap =
    let ncap =
      if ltb (max_payload pool / 2) cap
      then max_payload pool
      else if ltb mincap (cap * 2)
      then cap * 2
      else mincap in
    if ltb (max_payload pool) ncap then max_payload pool else ncap

-- `lxp_arena_init` where it was not called yet
unfoldable pub ready_arena : ℕ → ℕ → Tmpfs → Arena
ready_arena base pool t = if t.ready then t.arena else (init t.arena base pool).0

-- the answer of `lxp_arena_realloc` recorded for the node `i`, and whether there was room
unfoldable pub reserved : Tmpfs → ℕ → ℕ → Arena × Option ℕ → Tmpfs × Bool
reserved t i cap (a, none) = (record t { arena = a; ready = true }, false)
reserved t i cap (a, some nd) =
    let nodes = set t.nodes i (record (node_at t.nodes i) { data_at = nd; cap = cap }) in
    (record { nodes = nodes; arena = a; ready = true }, true)

-- the second try, with no more than what is needed
unfoldable pub or_smaller : Tmpfs → ℕ → ℕ → ℕ → Arena × Option ℕ → Tmpfs × Bool
unfolding reserved
or_smaller t i mincap ncap (a, none) =
    if ncap == mincap
    then reserved t i ncap (a, none)
    else reserved t i mincap (realloc a (node_at t.nodes i).data_at mincap)
or_smaller t i mincap ncap (a, some nd) = reserved t i ncap (a, some nd)

-- lxp_wfs_reserve
unfoldable pub reserve : ℕ → ℕ → Tmpfs → ℕ → ℕ → Tmpfs × Bool
unfolding or_smaller ready_arena new_capacity
reserve base pool t i need =
    let w = node_at t.nodes i in
    let ncap = new_capacity pool w.cap (min_capacity need) in
    if leb need w.cap
    then (t, true)
    else if ltb (max_payload pool) need || ltb (word_max - 255) need
    then (t, false)
    else or_smaller t i (min_capacity need) ncap (realloc (ready_arena base pool t) w.data_at ncap)

-- wfs_reclaim
unfoldable pub reclaim : Tmpfs → ℕ → Tmpfs
reclaim t i =
    let w = node_at t.nodes i in
    record t {
      nodes = set t.nodes i zero_node;
      arena = if w.data_at == 0 then t.arena else free t.arena w.data_at;
    }

-- lxp_wfs_open; `false` is -1
unfoldable pub open_node : List Wnode → ℕ → List Wnode × Bool
open_node ns i =
    let w = node_at ns i in
    if not (ltb i (length ns)) || not w.used || w.open_refs == 65535
    then (ns, false)
    else (set ns i (record w { open_refs = w.open_refs + 1 }), true)

-- lxp_wfs_close
unfoldable pub close_node : Tmpfs → ℕ → Tmpfs
unfolding reclaim
close_node t i =
    let w = node_at t.nodes i in
    let t' = record t { nodes = set t.nodes i (record w { open_refs = w.open_refs - 1 }) } in
    if not (ltb i (length t.nodes)) || not w.used || w.open_refs == 0
    then t
    else if w.open_refs == 1 && not w.linked
    then reclaim t' i
    else t'

-- lxp_wfs_free
unfoldable pub free_node : Tmpfs → ℕ → Tmpfs
unfolding reclaim
free_node t i =
    let w = node_at t.nodes i in
    let t' = record t { nodes = set t.nodes i (record w { linked = false; path = [] }) } in
    if not (ltb i (length t.nodes)) || not w.used
    then t
    else if w.open_refs == 0
    then reclaim t' i
    else t'
