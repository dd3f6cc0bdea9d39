-- ===== src/Tmpfs/Calls.antt =====
-- Any sequence of the calls on names of src/fs/lxp_tmpfs.c.
use lxp.Common.{
  ℕ, ◌≡◌, refl, ap, inl, inr, true, false, none, List, arith, leb, ◌&&◌, length, Bool-cases,
  Option-cases,
}
use lxp.Path.{is_root, is_absolute, path_under}
use lxp.Path.Normal.{path_max}
use lxp.Tmpfs.{
  Wnode, Tmpfs, node_at, same, is_linked, is_dir, find, create, open_node, close_node, free_node,
}
use lxp.Tmpfs.Rename.{under, has_descendant, too_long, is_some, rename}
use lxp.Tmpfs.Names.{Unique}
use lxp.Tmpfs.Moved.{renamed-Place, Place-unique}
use lxp.Tmpfs.Unique.{Fewer-Unique, open-Fewer, close-Fewer, free-Fewer, create-Unique}

-- A path that some absolute path does not lie under is not the root.
root_above :
    (old new : List ℕ) → is_absolute new ≡ true → under new old ≡ false → is_root old ≡ false
unfolding path_under
root_above old new ab u = elim (Bool-cases (is_root old)) [
  | inl e ↦ absurd (ground (arith, ab, e, u))
  | inr e ↦ e
]

rename-Unique :
    (t : Tmpfs) (i : ℕ) (new : List ℕ)
    → is_linked (node_at t.nodes i) ≡ true
    → is_absolute new ≡ true
    → (find t.nodes new ≡ none → has_descendant t.nodes new ≡ false)
    → Unique t.nodes
    → Unique (rename t i new).0.nodes
unfolding rename
rename-Unique t i new l ab clear u =
    let w = node_at t.nodes i in
    elim (Bool-cases (same w.path new)) [
      | inl a ↦ rw a u
      | inr a ↦ elim (Bool-cases (leb path_max (length new))) [
        | inl b ↦ rw (a, b) u
        | inr b ↦ elim (Bool-cases (is_dir w.mode && under new w.path)) [
          | inl c ↦ rw (a, b, c) u
          | inr c ↦ elim (Bool-cases (is_some (find t.nodes new) && has_descendant t.nodes new)) [
            | inl d ↦ rw (a, b, c, d) u
            | inr d ↦
                elim (Bool-cases (is_dir w.mode && too_long i 0 w.path (length new) t.nodes)) [
                  | inl e ↦ rw (a, b, c, d, e) u
                  | inr e ↦
                      let no_one : has_descendant t.nodes new ≡ false =
                        elim (Option-cases (find t.nodes new)) [
                          | inl f ↦ clear f
                          | inr (k, f) ↦ ground (arith, d, ap is_some f)
                        ] in
                      let no_root : is_dir w.mode ≡ true → is_root w.path ≡ false =
                        λ f. root_above w.path new ab (ground (arith, c, f)) in
                      rw (a, b, c, d, e)
                        (λ j k q n m.
                          (Place-unique t.nodes i w.path new u (l, refl) ab no_one j k q
                            (renamed-Place t i new j q no_root n)
                            (renamed-Place t i new k q no_root m)))
                ]
          ]
        ]
      ]
    ]

abbrev with_nodes : Tmpfs → List Wnode → Tmpfs
with_nodes t ns = record t { nodes = ns }

-- A call on names: a creation where the name is not taken, the opening, closing or removal of a node,
-- or the renaming of a linked node. The new name of a renaming is absolute, and if no node has it,
-- none lies below it either.
pub data Step : Tmpfs → Tmpfs → Type 0 where
  created :
      (t : Tmpfs) (path : List ℕ) (mode : ℕ)
      → find t.nodes path ≡ none
      → Step t (with_nodes t (create t.nodes path mode).0)
  opened : (t : Tmpfs) (i : ℕ) → Step t (with_nodes t (open_node t.nodes i).0)
  closed : (t : Tmpfs) (i : ℕ) → Step t (close_node t i)
  removed : (t : Tmpfs) (i : ℕ) → Step t (free_node t i)
  renamed_to :
      (t : Tmpfs) (i : ℕ) (new : List ℕ)
      → is_linked (node_at t.nodes i) ≡ true
      → is_absolute new ≡ true
      → (find t.nodes new ≡ none → has_descendant t.nodes new ≡ false)
      → Step t (rename t i new).0

pub data Reaches : Tmpfs → Tmpfs → Type 0 where
  stay : (t : Tmpfs) → Reaches t t
  step : (t t' t'' : Tmpfs) → Step t t' → Reaches t' t'' → Reaches t t''

step-Unique : (t t' : Tmpfs) → Step t t' → Unique t.nodes → Unique t'.nodes
step-Unique t _ (Step.created _ path mode absent) u = create-Unique t.nodes path mode absent u
step-Unique t _ (Step.opened _ i) u =
    Fewer-Unique t.nodes (open_node t.nodes i).0 (open-Fewer t.nodes i) u
step-Unique t _ (Step.closed _ i) u =
    Fewer-Unique t.nodes (close_node t i).nodes (close-Fewer t i) u
step-Unique t _ (Step.removed _ i) u = Fewer-Unique t.nodes (free_node t i).nodes (free-Fewer t i) u
step-Unique t _ (Step.renamed_to _ i new l ab clear) u = rename-Unique t i new l ab clear u

-- Whatever nodes are created, opened, closed, removed and renamed, directories with all that lies below
-- them included, no two linked nodes come to have one name if none had at first. No creation may take a
-- name in use; a renaming is of a linked node to an absolute path, and if no node has that name, none
-- may lie below it.
pub reaches-Unique : (t t' : Tmpfs) → Reaches t t' → Unique t.nodes → Unique t'.nodes
reaches-Unique t _ (Reaches.stay _) u = u
reaches-Unique t t'' (Reaches.step _ t' _ s r) u = reaches-Unique t' t'' r (step-Unique t t' s u)
