-- ===== src/Tmpfs/Names.antt =====
-- The names of the nodes of src/fs/lxp_tmpfs.c, and what the searches over them answer.
use lxp.Common.{
  ℕ, zero, suc, ◌+◌, ◌<◌, ◌≡◌, ◌≢◌, refl, sym, ◌∙◌, ap, ap₂, subst, inl, inr, Bool, true, false,
  none, some, List, [], ◌∷◌, ◌++◌, arith, ◌==◌, ==_self, ◌&&◌, not, if◌then◌else◌, length, set,
  length-set, ltb, Option-cases, get_or-set_self, get_or-set_ne, Bool-cases,
}
use lxp.Path.Child.{behind-append}
use lxp.Path.{is_root, is_absolute, behind, at_boundary, path_under}
use lxp.Tmpfs.{
  Wnode, Tmpfs, zero_node, node_at, same, is_linked, find_from, find, free_node, reclaim,
}
use lxp.Tmpfs.Rename.{under, has_descendant}

-- The node `j` stands under the name `q`.
abbrev pub Named : List Wnode → ℕ → List ℕ → Type 0
Named ns j q = (is_linked (node_at ns j) ≡ true) × ((node_at ns j).path ≡ q)

-- No two nodes stand under one name.
abbrev pub Unique : List Wnode → Type 0
Unique ns = (j k : ℕ) (q : List ℕ) → Named ns j q → Named ns k q → j ≡ k

pub same_self : (p : List ℕ) → same p p ≡ true
unfolding same
same_self [] = refl
same_self (c ∷ cs) = rw (==_self c) (same_self cs)

pub same_eq : (p q : List ℕ) → same p q ≡ true → p ≡ q
unfolding same
same_eq [] [] e = refl
same_eq [] (d ∷ ds) e = absurd (ground (arith, e))
same_eq (c ∷ cs) [] e = absurd (ground (arith, e))
same_eq (c ∷ cs) (d ∷ ds) e =
    let h : c ≡ d = ground (arith, e) in ap₂ ◌∷◌ h (same_eq cs ds (ground (arith, e)))

find_from-none :
    (i : ℕ) (ns : List Wnode) (q : List ℕ) (k : ℕ) → find_from i ns q ≡ none → Named ns k q → ⊥
unfolding find_from
find_from-none i [] q k e (l, p) = ground (arith, l)
find_from-none i (w ∷ ws) q zero e (l, p) =
    let hit : same w.path q ≡ true = subst (λ x. same w.path x ≡ true) p (same_self w.path) in
    absurd (ground (arith, e, l, hit))
find_from-none i (w ∷ ws) q (suc k) e n = find_from-none (suc i) ws q k (ground (arith, e)) n

find_from-some :
    (i : ℕ) (ns : List Wnode) (q : List ℕ) (d : ℕ)
    → find_from i ns q ≡ some d
    → (k : ℕ) × (d ≡ i + k) × Named ns k q
unfolding find_from
find_from-some i [] q d e = absurd (ground (arith, e))
find_from-some i (w ∷ ws) q d e = elim (Bool-cases (is_linked w && same w.path q)) [
  | inl hit ↦
      (0, ground (arith, e, hit), (ground (arith, hit), same_eq w.path q (ground (arith, hit))))
  | inr miss ↦
      let (k, at, n) = find_from-some (suc i) ws q d (ground (arith, e, miss)) in
      (suc k, omega (arith, at), n)
]

pub find-none : (ns : List Wnode) (q : List ℕ) (k : ℕ) → find ns q ≡ none → Named ns k q → ⊥
unfolding find
find-none ns q k e n = find_from-none 0 ns q k e n

pub find-some : (ns : List Wnode) (q : List ℕ) (d : ℕ) → find ns q ≡ some d → Named ns d q
unfolding find
find-some ns q d e =
    let (k, at, n) = find_from-some 0 ns q d e in
    subst (λ (x : ℕ). Named ns x q) (omega (arith, at)) n

-- A node that is linked stands in the table.
pub linked_below : (ns : List Wnode) (k : ℕ) → is_linked (node_at ns k) ≡ true → k < length ns
linked_below [] k l = absurd (ground (arith, l))
linked_below (w ∷ ws) zero l = omega arith
linked_below (w ∷ ws) (suc k) l = omega (arith, linked_below ws k l)

pub has_descendant_of :
    (ns : List Wnode) (k : ℕ) (dir : List ℕ)
    → is_linked (node_at ns k) ≡ true
    → same (node_at ns k).path dir ≡ false
    → under (node_at ns k).path dir ≡ true
    → has_descendant ns dir ≡ true
unfolding has_descendant
has_descendant_of [] k dir l ne u = absurd (ground (arith, l))
has_descendant_of (w ∷ ws) zero dir l ne u = rw (l, ne, u) refl
has_descendant_of (w ∷ ws) (suc k) dir l ne u =
    let rest = has_descendant_of ws k dir l ne u in ground (arith, rest)

behind_eq : (xs ys r : List ℕ) → behind xs ys ≡ some r → ys ≡ xs ++ r
unfolding behind
behind_eq [] ys r e = ground (arith, e)
behind_eq (x ∷ xs) [] r e = absurd (ground (arith, e))
behind_eq (x ∷ xs) (y ∷ ys) r e =
    let h : x ≡ y = ground (arith, e) in ap₂ ◌∷◌ (sym h) (behind_eq xs ys r (ground (arith, e)))

under-none : (p dir : List ℕ) → is_root dir ≡ false → behind dir p ≡ none → under p dir ≡ false
unfolding path_under
under-none p dir no_root e = rw (no_root) (rw e refl)

under-some :
    (p dir r : List ℕ)
    → is_root dir ≡ false
    → behind dir p ≡ some r
    → under p dir ≡ not ((if at_boundary r then length dir else 0) == 0)
unfolding path_under
under-some p dir r no_root e = rw (no_root) (rw e refl)

-- What lies under a directory other than the root has its path as a prefix.
pub under_split :
    (p dir : List ℕ)
    → under p dir ≡ true
    → is_root dir ≡ false
    → (r : List ℕ) × (p ≡ dir ++ r) × (at_boundary r ≡ true)
under_split p dir u no_root = elim (Option-cases (behind dir p)) [
  | inl e ↦ absurd (ground (arith, u, under-none p dir no_root e))
  | inr (r, e) ↦ (r, behind_eq dir p r e, ground (arith, u, under-some p dir r no_root e))
]

pub under_append :
    (dir r : List ℕ) → is_absolute dir ≡ true → at_boundary r ≡ true → under (dir ++ r) dir ≡ true
unfolding path_under
under_append [] r ab b = absurd (ground (arith, ab))
under_append (c ∷ cs) r ab b = elim (Bool-cases (is_root (c ∷ cs))) [
  | inl e ↦ rw e (rw ab refl)
  | inr e ↦ rw e (rw (behind-append (c ∷ cs) r) (rw b (ground arith)))
]

-- A write of a node that is not linked takes its name away, and no other.
set_names :
    (ns : List Wnode) (d k : ℕ) (q : List ℕ) (w : Wnode)
    → is_linked w ≡ false
    → d < length ns
    → Named (set ns d w) k q
    → (k ≢ d) × Named ns k q
set_names ns d k q w no_link lt n =
    let gone : k ≡ d → ⊥ = λ e.
      (let here = subst (λ (x : ℕ). is_linked (node_at (set ns d w) x) ≡ true) e n.0 in
        let at = get_or-set_self ns d w zero_node lt in
        ground (arith, sym (ap is_linked at) ∙ here, no_link)) in
    let other = get_or-set_ne ns d k w zero_node (λ e. gone (sym e)) in
    (gone, (sym (ap is_linked other) ∙ n.0, sym (ap (λ x. x.path) other) ∙ n.1))

abbrev unlinked : Wnode → Wnode
unlinked w = record w { linked = false; path = [] }

free_node_nodes :
    (t : Tmpfs) (d : ℕ)
    → d < length t.nodes
    → (node_at t.nodes d).used ≡ true
    → (free_node t d).nodes ≡ (
        let ns = set t.nodes d (unlinked (node_at t.nodes d)) in
        if (node_at t.nodes d).open_refs == 0 then set ns d zero_node else ns)
unfolding free_node reclaim
free_node_nodes t d lt u =
    let inside : ltb d (length t.nodes) ≡ true = ground (arith, lt) in
    elim (Bool-cases ((node_at t.nodes d).open_refs == 0)) [
      | inl e ↦ rw (inside, u, e) refl
      | inr e ↦ rw (inside, u, e) refl
    ]

-- Freeing a node takes its name away, and no other.
pub free_node_names :
    (t : Tmpfs) (d k : ℕ) (q : List ℕ)
    → is_linked (node_at t.nodes d) ≡ true
    → Named (free_node t d).nodes k q
    → (k ≢ d) × Named t.nodes k q
free_node_names t d k q l n =
    let lt = linked_below t.nodes d l in
    let w = node_at t.nodes d in
    let ns = set t.nodes d (unlinked w) in
    let n' =
      subst (λ (x : List Wnode). Named x k q) (free_node_nodes t d lt (ground (arith, l))) n in
    let once : Named ns k q → (k ≢ d) × Named t.nodes k q =
      set_names t.nodes d k q (unlinked w) (ground arith) lt in
    elim (Bool-cases (w.open_refs == 0)) [
      | inl e ↦
          let m : Named (set ns d zero_node) k q =
            subst (λ (b : Bool). Named (if b then set ns d zero_node else ns) k q) e n' in
          once
            (set_names ns d k q zero_node refl
              (omega (arith, length-set t.nodes d (unlinked w), lt)) m).1
      | inr e ↦ once (subst (λ (b : Bool). Named (if b then set ns d zero_node else ns) k q) e n')
    ]
