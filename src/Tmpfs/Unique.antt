-- ===== src/Tmpfs/Unique.antt =====
-- The calls on names of src/fs/lxp_tmpfs.c keep the names of linked nodes apart.
use lxp.Common.{
  ℕ, zero, suc, ◌+◌, ◌-◌, ◌≡◌, refl, sym, ◌∙◌, ap, subst, ◌⊎◌, inl, inr, Bool, true, false, none,
  List, [], ◌∷◌, arith, ltb, leb, ◌==◌, ◌&&◌, ◌||◌, not, if◌then◌else◌, length, set,
  get_or-set_cases, Bool-cases,
}
use lxp.Path.Normal.{path_max}
use lxp.Tmpfs.{
  Wnode, Tmpfs, zero_node, node_at, new_node, is_linked, find, create_from, create, open_node,
  close_node, free_node, reclaim,
}
use lxp.Tmpfs.Names.{Named, Unique, find-none}

pub Fewer : List Wnode → List Wnode → Type 0
Fewer ns ns' = (k : ℕ) (q : List ℕ) → Named ns' k q → Named ns k q

pub Fewer-Unique : (ns ns' : List Wnode) → Fewer ns ns' → Unique ns → Unique ns'
unfolding Fewer
Fewer-Unique ns ns' f u j k q n m = u j k q (f j q n) (f k q m)

-- A write of a node that gives it no name, or keeps the one it has.
set-Fewer :
    (ns : List Wnode) (i : ℕ) (w : Wnode)
    → ((q : List ℕ) → (is_linked w ≡ true) × (w.path ≡ q) → Named ns i q)
    → Fewer ns (set ns i w)
unfolding Fewer
set-Fewer ns i w f k q n = elim (get_or-set_cases ns i k w zero_node) [
  | inl (e, at) ↦
      subst (λ (x : ℕ). Named ns x q) e
        (f q (sym (ap is_linked at) ∙ n.0, sym (ap (λ x. x.path) at) ∙ n.1))
  | inr at ↦ (sym (ap is_linked at) ∙ n.0, sym (ap (λ x. x.path) at) ∙ n.1)
]

pub open-Fewer : (ns : List Wnode) (i : ℕ) → Fewer ns (open_node ns i).0
unfolding open_node Fewer
open-Fewer ns i =
    let w = node_at ns i in
    elim (Bool-cases (not (ltb i (length ns)) || not w.used || w.open_refs == 65535)) [
      | inl e ↦ rw e (λ k q n. n)
      | inr e ↦ rw e (set-Fewer ns i (record w { open_refs = w.open_refs + 1 }) (λ q n. n))
    ]

pub close-Fewer : (t : Tmpfs) (i : ℕ) → Fewer t.nodes (close_node t i).nodes
unfolding close_node reclaim Fewer
close-Fewer t i =
    let w = node_at t.nodes i in
    let ns = set t.nodes i (record w { open_refs = w.open_refs - 1 }) in
    let once : Fewer t.nodes ns =
      set-Fewer t.nodes i (record w { open_refs = w.open_refs - 1 }) (λ q n. n) in
    elim (Bool-cases (not (ltb i (length t.nodes)) || not w.used || w.open_refs == 0)) [
      | inl e ↦ rw e (λ k q n. n)
      | inr e ↦ elim (Bool-cases (w.open_refs == 1 && not w.linked)) [
        | inl f ↦ rw e (
            rw f (λ k q n.
              once k q (set-Fewer ns i zero_node (λ p m. absurd (ground (arith, m.0))) k q n)))
        | inr f ↦ rw e (rw f once)
      ]
    ]

-- A removed node's name goes; where nothing is linked, nothing had a name.
pub free-Fewer : (t : Tmpfs) (i : ℕ) → Fewer t.nodes (free_node t i).nodes
unfolding free_node reclaim Fewer
free-Fewer t i =
    let w = node_at t.nodes i in
    let v = record w { linked = false; path = [] } in
    let ns = set t.nodes i v in
    let no_name : (q : List ℕ) → (is_linked v ≡ true) × (v.path ≡ q) → Named t.nodes i q =
      λ q n. absurd (ground (arith, n.0)) in
    let once : Fewer t.nodes ns = set-Fewer t.nodes i v no_name in
    elim (Bool-cases (not (ltb i (length t.nodes)) || not w.used)) [
      | inl e ↦ rw e (λ k q n. n)
      | inr e ↦ elim (Bool-cases (w.open_refs == 0)) [
        | inl f ↦ rw e (
            rw f (λ k q n.
              once k q (set-Fewer ns i zero_node (λ p m. absurd (ground (arith, m.0))) k q n)))
        | inr f ↦ rw e (rw f once)
      ]
    ]

-- Every name of `ns'` is one of `ns`, but for the name `path` at the place `d`.
Gained : ℕ → List ℕ → List Wnode → List Wnode → Type 0
Gained d path ns ns' = (k : ℕ) (q : List ℕ) → Named ns' k q → ((k ≡ d) × (q ≡ path)) ⊎ Named ns k q

Gained-later :
    (d : ℕ) (path : List ℕ) (w : Wnode) (ns ns' : List Wnode)
    → Gained d path ns ns'
    → Gained (suc d) path (w ∷ ns) (w ∷ ns')
unfolding Gained
Gained-later d path w ns ns' g zero q n = inr n
Gained-later d path w ns ns' g (suc k) q n = elim (g k q n) [
  | inl (at, e) ↦ inl (ap suc at, e)
  | inr m ↦ inr m
]

Gained-here :
    (path : List ℕ) (mode : ℕ) (w : Wnode) (ns : List Wnode)
    → Gained 0 path (w ∷ ns) (new_node path mode ∷ ns)
unfolding Gained
Gained-here path mode w ns zero q n = inl (refl, sym n.1)
Gained-here path mode w ns (suc k) q n = inr n

create_from_cons :
    (i : ℕ) (w : Wnode) (ws : List Wnode) (path : List ℕ) (mode : ℕ)
    → (create_from i (w ∷ ws) path mode).0
      ≡ (if w.used then w ∷ (create_from (suc i) ws path mode).0 else new_node path mode ∷ ws)
unfolding create_from
create_from_cons i w ws path mode = elim (Bool-cases w.used) [
  | inl e ↦ rw e refl
  | inr e ↦ rw e refl
]

create_from-Gained :
    (i : ℕ) (ns : List Wnode) (path : List ℕ) (mode : ℕ)
    → (d : ℕ) × Gained d path ns (create_from i ns path mode).0
unfolding create_from Gained
create_from-Gained i [] path mode = (0, λ k q n. inr n)
create_from-Gained i (w ∷ ws) path mode =
    let (d, rest) = create_from-Gained (suc i) ws path mode in
    let c = sym (create_from_cons i w ws path mode) in
    let used_case = w ∷ (create_from (suc i) ws path mode).0 in
    let free_case = new_node path mode ∷ ws in
    elim (Bool-cases w.used) [
      | inl e ↦ (
        suc d,
        subst (Gained (suc d) path (w ∷ ws))
            (ap (λ (b : Bool). if b then used_case else free_case) (sym e) ∙ c)
            (Gained-later d path w ws (create_from (suc i) ws path mode).0 rest),
      )
      | inr e ↦ (
        0,
        subst (Gained 0 path (w ∷ ws))
            (ap (λ (b : Bool). if b then used_case else free_case) (sym e) ∙ c)
            (Gained-here path mode w ws),
      )
    ]

Gained-Unique :
    (d : ℕ) (path : List ℕ) (ns ns' : List Wnode)
    → find ns path ≡ none
    → Gained d path ns ns'
    → Unique ns
    → Unique ns'
unfolding Gained
Gained-Unique d path ns ns' absent g u j k q n m = elim (g j q n) [
  | inl (at, e) ↦ elim (g k q m) [
    | inl (at', e') ↦ at ∙ sym at'
    | inr m' ↦ absurd (find-none ns path k absent (subst (Named ns k) e m'))
  ]
  | inr n' ↦ elim (g k q m) [
    | inl (at', e') ↦ absurd (find-none ns path j absent (subst (Named ns j) e' n'))
    | inr m' ↦ u j k q n' m'
  ]
]

pub create-Unique :
    (ns : List Wnode) (path : List ℕ) (mode : ℕ)
    → find ns path ≡ none
    → Unique ns
    → Unique (create ns path mode).0
unfolding create
create-Unique ns path mode absent u = elim (Bool-cases (leb path_max (length path))) [
  | inl e ↦ rw e u
  | inr e ↦
      let (d, g) = create_from-Gained 0 ns path mode in
      rw e (Gained-Unique d path ns (create_from 0 ns path mode).0 absent g u)
]
