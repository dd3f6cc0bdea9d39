-- ===== src/Tmpfs/Growth.antt =====
-- Growing a node keeps its bytes (src/fs/lxp_tmpfs.c).
use lxp.Common.{
  ℕ, ◌-◌, ◌≤◌, ◌<◌, ◌≡◌, ◌≢◌, refl, sym, ◌∙◌, ap, subst, inl, inr, true, Option, none, some, List,
  arith, ltb, leb, ◌==◌, ◌||◌, length, take, length-set, get_or-set_self, Bool-cases, min,
}
use lxp.Common.Bytes.{Memory, bytes_at, bytes_at_same, take-bytes_at}
use lxp.Arena.{Arena, Header, word_max}
use lxp.Arena.Mappings.{realloc}
use lxp.Arena.Valid.{Tiled}
use lxp.Arena.Live.{Live}
use lxp.Arena.Realloc.{Resized, realloc-Resized}
use lxp.Tmpfs.{
  Tmpfs, node_at, zero_node, max_payload, min_capacity, new_capacity, ready_arena, reserved,
  or_smaller, reserve,
}
use lxp.Tmpfs.Contents.{contents}

-- What a reservation leaves of a node: its place, its mode and its length.
pub record Kept (t : Tmpfs) (i : ℕ) (t' : Tmpfs) : Type 0 where
  pub places : length t'.nodes ≡ length t.nodes
  pub size : (node_at t'.nodes i).size ≡ (node_at t.nodes i).size
  pub mode : (node_at t'.nodes i).mode ≡ (node_at t.nodes i).mode

reserved-Kept :
    (t : Tmpfs) (i cap : ℕ) (r : Arena × Option ℕ)
    → i < length t.nodes
    → Kept t i (reserved t i cap r).0
unfolding reserved
reserved-Kept t i cap (a, none) lt = record { places = refl; size = refl; mode = refl }
reserved-Kept t i cap (a, some nd) lt =
    let w = record (node_at t.nodes i) { data_at = nd; cap = cap } in
    record {
      places = length-set t.nodes i w;
      size = ap (λ x. x.size) (get_or-set_self t.nodes i w zero_node lt);
      mode = ap (λ x. x.mode) (get_or-set_self t.nodes i w zero_node lt);
    }

or_smaller-Kept :
    (t : Tmpfs) (i mincap ncap : ℕ) (r : Arena × Option ℕ)
    → i < length t.nodes
    → Kept t i (or_smaller t i mincap ncap r).0
unfolding or_smaller
or_smaller-Kept t i mincap ncap (a, none) lt = elim (Bool-cases (ncap == mincap)) [
  | inl e ↦ rw e (reserved-Kept t i ncap (a, none) lt)
  | inr e ↦ rw e (reserved-Kept t i mincap (realloc a (node_at t.nodes i).data_at mincap) lt)
]
or_smaller-Kept t i mincap ncap (a, some nd) lt = reserved-Kept t i ncap (a, some nd) lt

pub reserve-Kept :
    (base pool : ℕ) (t : Tmpfs) (i need : ℕ)
    → i < length t.nodes
    → Kept t i (reserve base pool t i need).0
unfolding reserve
reserve-Kept base pool t i need lt =
    let w = node_at t.nodes i in
    elim (Bool-cases (leb need w.cap)) [
      | inl e ↦ rw e (record { places = refl; size = refl; mode = refl })
      | inr e ↦ elim (Bool-cases (ltb (max_payload pool) need || ltb (word_max - 255) need)) [
        | inl f ↦ rw e (rw f (record { places = refl; size = refl; mode = refl }))
        | inr f ↦ rw e (rw f (or_smaller-Kept t i (min_capacity need) _ _ lt))
      ]
    ]

-- A node whose bytes lie in an allocated block of the arena with room for its capacity, or which has
-- no capacity and no bytes.
pub record Sound (t : Tmpfs) (i : ℕ) : Type 0 where
  pub size_fits : (node_at t.nodes i).size ≤ (node_at t.nodes i).cap
  pub empty : (node_at t.nodes i).data_at ≡ 0 → (node_at t.nodes i).cap ≡ 0
  pub backed :
      (node_at t.nodes i).data_at ≢ 0
      → (t.ready ≡ true)
        × ((bs : List Header) × Tiled t.arena bs
            × Live (node_at t.nodes i).data_at (node_at t.nodes i).cap bs t.arena.base)

reserved-contents :
    (t : Tmpfs) (i cap : ℕ) (out : Arena × Option ℕ)
    → i < length t.nodes
    → (node_at t.nodes i).size ≤ (node_at t.nodes i).cap
    → (node_at t.nodes i).cap ≤ cap
    → Resized t.arena (node_at t.nodes i).data_at (node_at t.nodes i).cap cap out
    → contents (reserved t i cap out).0 i ≡ contents t i
unfolding reserved
reserved-contents t i cap (a, none) lt fits grows r =
    let w = node_at t.nodes i in
    ap (λ (x : Arena). bytes_at x.bytes w.data_at w.size) (r.refused refl)
reserved-contents t i cap (a, some nd) lt fits grows r =
    let w = node_at t.nodes i in
    let k = r.kept nd refl in
    let size_of : min (min w.cap cap) w.size ≡ w.size = omega (arith, fits, grows) in
    let cut : (m : Memory) (at : ℕ)
        → bytes_at m at w.size ≡ take w.size (bytes_at m at (min w.cap cap)) =
      λ m at.
        bytes_at_same m at at w.size (min (min w.cap cap) w.size) refl (sym size_of)
        ∙ sym (take-bytes_at m w.size at (min w.cap cap)) in
    rw (get_or-set_self t.nodes i (record w { data_at = nd; cap = cap }) zero_node lt)
      (cut a.bytes nd ∙ ap (take w.size) k ∙ sym (cut t.arena.bytes w.data_at))

or_smaller-contents :
    (t : Tmpfs) (i mincap ncap : ℕ) (out : Arena × Option ℕ)
    → i < length t.nodes
    → (node_at t.nodes i).size ≤ (node_at t.nodes i).cap
    → (node_at t.nodes i).cap ≤ mincap
    → (node_at t.nodes i).cap ≤ ncap
    → Resized t.arena (node_at t.nodes i).data_at (node_at t.nodes i).cap ncap out
    → Resized t.arena
        (node_at t.nodes i).data_at
        (node_at t.nodes i).cap
        mincap
        (realloc t.arena (node_at t.nodes i).data_at mincap)
    → contents (or_smaller t i mincap ncap out).0 i ≡ contents t i
unfolding or_smaller
or_smaller-contents t i mincap ncap (a, none) lt fits lo hi r again =
    let w = node_at t.nodes i in
    elim (Bool-cases (ncap == mincap)) [
      | inl e ↦ rw e (reserved-contents t i ncap (a, none) lt fits hi r)
      | inr e ↦ rw e (
          reserved-contents t i mincap (realloc a w.data_at mincap) lt fits lo (
            subst
              (λ (x : Arena). Resized t.arena w.data_at w.cap mincap (realloc x w.data_at mincap))
              (sym (r.refused refl)) again))
    ]
or_smaller-contents t i mincap ncap (a, some nd) lt fits lo hi r again =
    reserved-contents t i ncap (a, some nd) lt fits hi r

-- The capacities asked for cover what is needed, and are sizes that the arena can round.
pub capacity_bounds :
    (pool cap need : ℕ)
    → pool ≤ word_max
    → cap < need
    → need ≤ max_payload pool
    → need ≤ word_max - 255
    → (cap ≤ min_capacity need)
      × (min_capacity need ≤ word_max - 15)
      × (cap ≤ new_capacity pool cap (min_capacity need))
      × (new_capacity pool cap (min_capacity need) ≤ word_max - 15)
unfolding new_capacity
capacity_bounds pool cap need p lt room small =
    (omega (arith, lt), omega (arith, small), ground (arith, lt, room), ground (arith, p, small))

bytes_at_none :
    (t : Tmpfs) (i : ℕ)
    → (t' : Tmpfs) → (node_at t'.nodes i).size ≡ 0
    → (node_at t.nodes i).size ≡ 0
    → contents t' i ≡ contents t i
unfolding bytes_at
bytes_at_none t i t' e f =
    ap (bytes_at t'.arena.bytes (node_at t'.nodes i).data_at) e
    ∙ sym (ap (bytes_at t.arena.bytes (node_at t.nodes i).data_at) f)

-- `lxp_wfs_reserve` leaves the bytes of the node, wherever they come to stand.
pub reserve-contents :
    (base pool : ℕ) (t : Tmpfs) (i need : ℕ)
    → Sound t i
    → i < length t.nodes
    → pool ≤ word_max
    → contents (reserve base pool t i need).0 i ≡ contents t i
unfolding reserve ready_arena
reserve-contents base pool t i need s lt p =
    let w = node_at t.nodes i in
    let mincap = min_capacity need in
    let ncap = new_capacity pool w.cap mincap in
    let k = reserve-Kept base pool t i need lt in
    elim (Bool-cases (w.data_at == 0)) [
      | inl null ↦
          let no_room : w.cap ≡ 0 = s.empty (ground (arith, null)) in
          let fits = s.size_fits in
          let nothing : w.size ≡ 0 = omega (arith, no_room, fits) in
          bytes_at_none t i (reserve base pool t i need).0 (k.size ∙ nothing) nothing
      | inr there ↦
          let (ready, (bs, tiled, live)) = s.backed (λ e. absurd (ground (arith, e, there))) in
          elim (Bool-cases (leb need w.cap)) [
            | inl e ↦ rw e refl
            | inr e ↦ elim (Bool-cases (ltb (max_payload pool) need || ltb (word_max - 255) need)) [
              | inl f ↦ rw e (rw f refl)
              | inr f ↦
                  let (lo, lo_small, hi, hi_small) =
                    capacity_bounds pool w.cap need p (ground (arith, e)) (ground (arith, f))
                      (ground (arith, f)) in
                  rw e (
                    rw f (
                      rw ready (
                        or_smaller-contents t i mincap ncap (realloc t.arena w.data_at ncap) lt
                          s.size_fits lo hi
                          (realloc-Resized t.arena bs w.data_at w.cap ncap tiled live hi_small)
                          (realloc-Resized t.arena bs w.data_at w.cap mincap tiled live lo_small))))
            ]
          ]
    ]
