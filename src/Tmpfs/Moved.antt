-- ===== src/Tmpfs/Moved.antt =====
-- lxp_wfs_rename of src/fs/lxp_tmpfs.c: where each name comes from, and that names stay unique.
use lxp.Common.{
  ℕ, zero, suc, ◌+◌, ◌<◌, ◌≡◌, ◌≢◌, refl, sym, ◌∙◌, ap, subst, inl, inr, Bool, true, false, some,
  List, [], ◌∷◌, ◌++◌, arith, ◌==◌, if◌then◌else◌, length, length-set, set, drop, get_or-set_self,
  get_or-set_ne, append-nil, Bool-cases, Option-cases,
}
use lxp.Path.{is_root, is_absolute, at_boundary}
use lxp.Tmpfs.{Wnode, Tmpfs, zero_node, node_at, same, is_linked, is_dir, find}
use lxp.Tmpfs.Rename.{under, has_descendant, moves, move_below, free_found, renamed}
use lxp.Tmpfs.Names.{
  Named, Unique, same_eq, find-none, find-some, linked_below, has_descendant_of, under_split,
  under_append, free_node_names,
}

drop-append : (xs ys : List ℕ) → drop (length xs) (xs ++ ys) ≡ ys
drop-append [] ys = refl
drop-append (x ∷ xs) ys = drop-append xs ys

append_cancel : (xs ys zs : List ℕ) → xs ++ ys ≡ xs ++ zs → ys ≡ zs
append_cancel xs ys zs e = sym (drop-append xs ys) ∙ ap (drop (length xs)) e ∙ drop-append xs zs

-- Where the node `k` has a name from after the node `i` at `old` was renamed to `new`.
pub data Place (old new : List ℕ) (ns : List Wnode) (i k : ℕ) (q : List ℕ) : Type 0 where
  itself : k ≡ i → q ≡ new → Place old new ns i k q
  carried :
      (r : List ℕ)
      → k ≢ i
      → Named ns k (old ++ r)
      → at_boundary r ≡ true
      → q ≡ new ++ r
      → Place old new ns i k q
  kept : k ≢ i → Named ns k q → find ns new ≢ some k → Place old new ns i k q

abbrev moved_node : ℕ → ℕ → List ℕ → List ℕ → Wnode → Wnode
moved_node i j old new w =
    if moves i j old w then record w { path = new ++ drop (length old) w.path } else w

node_at-move_below :
    (i j : ℕ) (old new : List ℕ) (ns : List Wnode) (k : ℕ)
    → node_at (move_below i j old new ns) k ≡ moved_node i (j + k) old new (node_at ns k)
unfolding move_below
node_at-move_below i j old new [] k = elim (Bool-cases (j + k == i)) [
  | inl e ↦ rw e refl
  | inr e ↦ rw e refl
]
node_at-move_below i j old new (w ∷ ws) zero = let e : j + 0 ≡ j = omega arith in rw e refl
node_at-move_below i j old new (w ∷ ws) (suc k) =
    let e : suc j + k ≡ j + suc k = omega arith in
    node_at-move_below i (suc j) old new ws k
    ∙ ap (λ (x : ℕ). moved_node i x old new (node_at ws k)) e

-- the table once the target's name is free
free_found_names :
    (t : Tmpfs) (new : List ℕ) (k : ℕ) (q : List ℕ)
    → Named (free_found t (find t.nodes new)).nodes k q
    → Named t.nodes k q × (find t.nodes new ≢ some k)
free_found_names t new k q n = elim (Option-cases (find t.nodes new)) [
  | inl e ↦ (subst (λ x. Named (free_found t x).nodes k q) e n, λ f. absurd (ground (arith, e, f)))
  | inr (d, e) ↦
      let m =
        free_node_names t d k q (find-some t.nodes new d e).0
          (subst (λ x. Named (free_found t x).nodes k q) e n) in
      (m.1, λ f. m.0 (ground (arith, e, f)))
]

-- A name below the moved nodes, that of the node `i` aside.
below-Place :
    (ns ns' : List Wnode) (i k : ℕ) (old new q : List ℕ)
    → ((p : List ℕ) → Named ns' k p → Named ns k p × (find ns new ≢ some k))
    → is_root old ≡ false
    → k ≢ i
    → Named (move_below i 0 old new ns') k q
    → Place old new ns i k q
below-Place ns ns' i k old new q back no_root ne n =
    let w = node_at ns' k in
    let at =
      node_at-move_below i 0 old new ns' k
      ∙ ap (λ (x : ℕ). moved_node i x old new w) (omega arith) in
    let n' : (is_linked (moved_node i k old new w) ≡ true) × ((moved_node i k old new w).path ≡ q) =
      subst (λ (x : Wnode). (is_linked x ≡ true) × (x.path ≡ q)) at n in
    elim (Bool-cases (moves i k old w)) [
      | inl m ↦
          let n2 : (is_linked w ≡ true) × (new ++ drop (length old) w.path ≡ q) =
            subst
              (λ (b : Bool).
                let x = (if b then record w { path = new ++ drop (length old) w.path } else w) in
                (is_linked x ≡ true) × (x.path ≡ q))
              m n' in
          let (r, e, b) = under_split w.path old (ground (arith, m)) no_root in
          Place.carried r ne (back (old ++ r) (n2.0, e)).0 b (
            sym n2.1
            ∙ ap (λ (x : List ℕ). new ++ drop (length old) x) e
            ∙ ap (λ (x : List ℕ). new ++ x) (drop-append old r))
      | inr m ↦
          let n2 : (is_linked w ≡ true) × (w.path ≡ q) =
            subst
              (λ (b : Bool).
                let x = (if b then record w { path = new ++ drop (length old) w.path } else w) in
                (is_linked x ≡ true) × (x.path ≡ q))
              m n' in
          let (was, free) = back q n2 in Place.kept ne was free
    ]

-- the table before the last write
abbrev carried_along : Tmpfs → ℕ → List ℕ → List Wnode
carried_along t i new =
    let w = node_at t.nodes i in
    let t' = free_found t (find t.nodes new) in
    if is_dir w.mode then move_below i 0 w.path new t'.nodes else t'.nodes

pub renamed-Place :
    (t : Tmpfs) (i : ℕ) (new : List ℕ) (k : ℕ) (q : List ℕ)
    → (is_dir (node_at t.nodes i).mode ≡ true → is_root (node_at t.nodes i).path ≡ false)
    → Named (renamed t i new).nodes k q
    → Place (node_at t.nodes i).path new t.nodes i k q
unfolding renamed
renamed-Place t i new k q no_root n =
    let old = (node_at t.nodes i).path in
    let ns = carried_along t i new in
    let w = record (node_at ns i) { path = new } in
    let t' = free_found t (find t.nodes new) in
    elim (Bool-cases (k == i)) [
      | inl e ↦
          let here : k ≡ i = ground (arith, e) in
          let lt : i < length ns =
            omega (arith, here, linked_below (set ns i w) k n.0, length-set ns i w) in
          let m = subst (λ (x : ℕ). Named (set ns i w) x q) here n in
          Place.itself here (sym m.1 ∙ ap (λ x. x.path) (get_or-set_self ns i w zero_node lt))
      | inr e ↦
          let ne : k ≢ i = ground (arith, e) in
          let other = get_or-set_ne ns i k w zero_node (λ f. ne (sym f)) in
          let m : Named ns k q =
            (sym (ap is_linked other) ∙ n.0, sym (ap (λ x. x.path) other) ∙ n.1) in
          elim (Bool-cases (is_dir (node_at t.nodes i).mode)) [
            | inl d ↦
                below-Place t.nodes t'.nodes i k old new q (free_found_names t new k) (no_root d) ne
                  (subst
                    (λ (b : Bool).
                      Named (if b then move_below i 0 old new t'.nodes else t'.nodes) k q)
                    d m)
            | inr d ↦
                let (was, free) = free_found_names t new k q (
                  subst
                    (λ (b : Bool).
                      Named (if b then move_below i 0 old new t'.nodes else t'.nodes) k q)
                    d m) in
                Place.kept ne was free
          ]
    ]

module _ (ns : List Wnode) (i : ℕ) (old new : List ℕ) (unique : Unique ns) (at : Named ns i old)
    (ab : is_absolute new ≡ true) (clear : has_descendant ns new ≡ false) where
  -- A carried name is not the new name itself.
  carried_off : (k : ℕ) (r : List ℕ) → k ≢ i → Named ns k (old ++ r) → new ++ r ≢ new
  carried_off k r ne n e =
      let none_left : r ≡ [] = append_cancel new r [] (e ∙ sym (append-nil new)) in
      ne (
        unique k i old
          (subst (Named ns k) (ap (λ (x : List ℕ). old ++ x) none_left ∙ append-nil old) n) at)

  kept_off : (k : ℕ) (q : List ℕ) → Named ns k q → find ns new ≢ some k → q ≢ new
  kept_off k q n free e =
      let m = subst (Named ns k) e n in
      elim (Option-cases (find ns new)) [
        | inl f ↦ find-none ns new k f m
        | inr (d, f) ↦ free (f ∙ ap some (unique d k new (find-some ns new d f) m))
      ]

  apart :
      (j k : ℕ) (r : List ℕ)
      → j ≢ i
      → Named ns j (old ++ r)
      → at_boundary r ≡ true
      → Named ns k (new ++ r)
      → ⊥
  apart j k r ne n b m = elim (Bool-cases (same (new ++ r) new)) [
    | inl e ↦ carried_off j r ne n (same_eq (new ++ r) new e)
    | inr e ↦
        let found =
          has_descendant_of ns k new m.0 (ap (λ x. same x new) m.1 ∙ e)
            (ap (λ x. under x new) m.1 ∙ under_append new r ab b) in
        absurd (ground (arith, found, clear))
  ]

  pub Place-unique :
      (j k : ℕ) (q : List ℕ) → Place old new ns i j q → Place old new ns i k q → j ≡ k
  Place-unique j k q (Place.itself e f) (Place.itself g h) = e ∙ sym g
  Place-unique j k q (Place.itself e f) (Place.carried r ne n b h) =
      absurd (carried_off k r ne n (sym h ∙ f))
  Place-unique j k q (Place.itself e f) (Place.kept ne n free) = absurd (kept_off k q n free f)
  Place-unique j k q (Place.carried r ne n b h) (Place.itself e f) =
      absurd (carried_off j r ne n (sym h ∙ f))
  Place-unique j k q (Place.carried r ne n b h) (Place.carried s ne' n' b' h') =
      unique j k (old ++ s)
        (subst (λ (x : List ℕ). Named ns j (old ++ x)) (append_cancel new r s (sym h ∙ h')) n) n'
  Place-unique j k q (Place.carried r ne n b h) (Place.kept ne' n' free) =
      absurd (apart j k r ne n b (subst (Named ns k) h n'))
  Place-unique j k q (Place.kept ne n free) (Place.itself e f) = absurd (kept_off j q n free f)
  Place-unique j k q (Place.kept ne n free) (Place.carried r ne' n' b h) =
      absurd (apart k j r ne' n' b (subst (Named ns j) h n))
  Place-unique j k q (Place.kept ne n free) (Place.kept ne' n' free') = unique j k q n n'
