-- ===== src/Tmpfs/Rename.antt =====
-- lxp_wfs_rename of src/fs/lxp_tmpfs.c. A renamed directory takes the nodes below it along.
use lxp.Common.{
  ℕ, suc, ◌+◌, ◌-◌, Bool, true, false, Option, none, some, List, [], ◌∷◌, ◌++◌, leb, ◌==◌, ◌&&◌,
  ◌||◌, not, if◌then◌else◌, length, set, drop, Result, ok, err,
}
use lxp.Errno.{enametoolong, einval, enotempty}
use lxp.Path.{path_under}
use lxp.Path.Normal.{path_max}
use lxp.Tmpfs.{Wnode, Tmpfs, node_at, same, is_linked, is_dir, find, free_node}

-- `lxp_path_under(path, dir)` as a test
abbrev pub under : List ℕ → List ℕ → Bool
under path dir = not (path_under path dir == 0)

-- wfs_has_descendant
unfoldable pub has_descendant : List Wnode → List ℕ → Bool
unfolding same path_under
has_descendant [] dir = false
has_descendant (w ∷ ws) dir =
    (is_linked w && not (same w.path dir) && under w.path dir) || has_descendant ws dir

-- the nodes from the index `j` on that `lxp_wfs_rename` moves along with the node `i` at `old`
abbrev pub moves : ℕ → ℕ → List ℕ → Wnode → Bool
moves i j old w = not (j == i) && is_linked w && under w.path old

-- a moved path has no room
unfoldable pub too_long : ℕ → ℕ → List ℕ → ℕ → List Wnode → Bool
unfolding path_under
too_long i j old new_len [] = false
too_long i j old new_len (w ∷ ws) =
    (moves i j old w && leb path_max (length w.path - length old + new_len))
    || too_long i (suc j) old new_len ws

unfoldable pub move_below : ℕ → ℕ → List ℕ → List ℕ → List Wnode → List Wnode
unfolding path_under
move_below i j old new [] = []
move_below i j old new (w ∷ ws) =
    (if moves i j old w then record w { path = new ++ drop (length old) w.path } else w)
    ∷ move_below i (suc j) old new ws

abbrev pub free_found : Tmpfs → Option ℕ → Tmpfs
free_found t none = t
free_found t (some di) = free_node t di

-- the writes of `lxp_wfs_rename`
unfoldable pub renamed : Tmpfs → ℕ → List ℕ → Tmpfs
unfolding find free_node move_below
renamed t i new =
    let w = node_at t.nodes i in
    let t' = free_found t (find t.nodes new) in
    let ns = if is_dir w.mode then move_below i 0 w.path new t'.nodes else t'.nodes in
    record t' { nodes = set ns i (record (node_at ns i) { path = new }) }

abbrev pub is_some {ℓ} : {A : Type ℓ} → Option A → Bool
is_some none = false
is_some (some a) = true

-- lxp_wfs_rename
unfoldable pub rename : Tmpfs → ℕ → List ℕ → Tmpfs × Result ℕ
unfolding same find has_descendant too_long renamed path_under
rename t i new =
    let w = node_at t.nodes i in
    if same w.path new
    then (t, ok 0)
    else if leb path_max (length new)
    then (t, err enametoolong)
    else if is_dir w.mode && under new w.path
    then (t, err einval)
    else if is_some (find t.nodes new) && has_descendant t.nodes new
    then (t, err enotempty)
    else if is_dir w.mode && too_long i 0 w.path (length new) t.nodes
    then (t, err enametoolong)
    else (renamed t i new, ok 0)
