-- ===== src/Tmpfs/Room.antt =====
-- The room that `lxp_wfs_reserve` gives a node of src/fs/lxp_tmpfs.c.
use lxp.Common.{
  ℕ, ◌+◌, ◌-◌, ◌≤◌, ◌<◌, ◌≡◌, ◌≢◌, refl, sym, ◌∙◌, ap, subst, inl, inr, true, Option, none, some,
  List, arith, ltb, leb, ◌==◌, ◌||◌, length, get_or-set_self, Bool-cases,
}
use lxp.Arena.{Arena, Header, word_max, alloc, geometry_ok}
use lxp.Arena.Mappings.{realloc}
use lxp.Arena.Valid.{Tiled}
use lxp.Arena.Live.{Live, Live-above}
use lxp.Arena.Kept.{alloc-Holds}
use lxp.Arena.Grow.{Holds}
use lxp.Arena.Realloc.{Intact, realloc-Resized}
use lxp.Tmpfs.{
  Tmpfs, node_at, zero_node, max_payload, min_capacity, new_capacity, ready_arena, reserved,
  or_smaller, reserve,
}
use lxp.Tmpfs.Files.{put_bytes}
use lxp.Tmpfs.Growth.{Sound, capacity_bounds}

-- The node has room for `need` bytes: it is sound again, and on the way no header was written into the
-- bytes that it had nor into those that it has now.
pub record Room (t : Tmpfs) (i need : ℕ) (t' : Tmpfs) : Type 0 where
  pub sound : Sound t' i
  pub fits : need ≤ (node_at t'.nodes i).cap
  pub unharmed :
      (node_at t.nodes i).data_at ≢ 0
      → (size : ℕ) × Intact t.arena
          (node_at t.nodes i).data_at
          (node_at t.nodes i).cap
          size
          (node_at t'.nodes i).data_at
          t'.arena.head

-- what an answer of `lxp_arena_realloc` comes to, for the null pointer too
record Granted (a : Arena) (ptr n size : ℕ) (out : Arena × Option ℕ) : Type 0 where
  refused : out.1 ≡ none → out.0 ≡ a
  holds : (q : ℕ) → out.1 ≡ some q → Holds out.0 q size
  intact : (q : ℕ) → out.1 ≡ some q → ptr ≢ 0 → Intact a ptr n size q out.0.head

realloc_null : (a : Arena) (size : ℕ) → realloc a 0 size ≡ alloc a size
unfolding realloc
realloc_null a size = refl

realloc-Granted :
    (a : Arena) (bs : List Header) (ptr n size : ℕ)
    → Tiled a bs
    → (ptr ≢ 0 → Live ptr n bs a.base)
    → size ≤ word_max - 15
    → Granted a ptr n size (realloc a ptr size)
realloc-Granted a bs ptr n size t l small = elim (Bool-cases (ptr == 0)) [
  | inl e ↦
      let null : ptr ≡ 0 = ground (arith, e) in
      let (unchanged, held) = alloc-Holds a bs size t small in
      subst (Granted a ptr n size) (sym (ap (λ x. realloc a x size) null ∙ realloc_null a size))
        (record { refused = unchanged; holds = held; intact = λ q f ne. absurd (ne null) })
  | inr e ↦
      let r = realloc-Resized a bs ptr n size t (l (λ f. absurd (ground (arith, e, f)))) small in
      record { refused = r.refused; holds = r.holds; intact = λ q f ne. r.intact q f }
]

module _ (t : Tmpfs) (i need : ℕ) where
  reserved-Room :
      (a : Arena) (cap : ℕ) (out : Arena × Option ℕ)
      → i < length t.nodes
      → ((node_at t.nodes i).data_at ≢ 0 → a ≡ t.arena)
      → (node_at t.nodes i).size ≤ cap
      → need ≤ cap
      → Granted a (node_at t.nodes i).data_at (node_at t.nodes i).cap cap out
      → (reserved t i cap out).1 ≡ true
      → Room t i need (reserved t i cap out).0
  unfolding reserved
  reserved-Room a cap (a', none) lt own fits covers g ok = absurd (ground (arith, ok))
  reserved-Room a cap (a', some nd) lt own fits covers g ok =
      let w = record (node_at t.nodes i) { data_at = nd; cap = cap } in
      let now = get_or-set_self t.nodes i w zero_node lt in
      let (bs, tiled, live) = g.holds nd refl in
      let above = Live-above nd cap bs a'.base live in
      record {
        sound = record {
          size_fits = rw now fits;
          empty = rw now (λ e. absurd (omega (arith, above, e)));
          backed = rw now (λ ne. (refl, (bs, tiled, live)));
        };
        fits = rw now covers;
        unharmed = rw now (λ ne. (
          cap,
          subst
              (λ (x : Arena).
                Intact x (node_at t.nodes i).data_at (node_at t.nodes i).cap cap nd a'.head)
              (own ne) (g.intact nd refl ne),
        ));
      }

  or_smaller-Room :
      (a : Arena) (mincap ncap : ℕ) (out : Arena × Option ℕ)
      → i < length t.nodes
      → ((node_at t.nodes i).data_at ≢ 0 → a ≡ t.arena)
      → (node_at t.nodes i).size ≤ need
      → need ≤ mincap
      → need ≤ ncap
      → Granted a (node_at t.nodes i).data_at (node_at t.nodes i).cap ncap out
      → Granted a
          (node_at t.nodes i).data_at
          (node_at t.nodes i).cap
          mincap
          (realloc a (node_at t.nodes i).data_at mincap)
      → (or_smaller t i mincap ncap out).1 ≡ true
      → Room t i need (or_smaller t i mincap ncap out).0
  unfolding or_smaller
  or_smaller-Room a mincap ncap (a', none) lt own fits lo hi g again =
      let w = node_at t.nodes i in
      elim (Bool-cases (ncap == mincap)) [
        | inl e ↦ rw e (reserved-Room a ncap (a', none) lt own (omega (arith, fits, hi)) hi g)
        | inr e ↦ rw e (
            reserved-Room a mincap (realloc a' w.data_at mincap) lt own (omega (arith, fits, lo)) lo
              (subst (λ (x : Arena). Granted a w.data_at w.cap mincap (realloc x w.data_at mincap))
                (sym (g.refused refl)) again))
      ]
  or_smaller-Room a mincap ncap (a', some nd) lt own fits lo hi g again =
      reserved-Room a ncap (a', some nd) lt own (omega (arith, fits, hi)) hi g

capacity_covers :
    (pool cap need : ℕ)
    → need ≤ max_payload pool
    → (need ≤ min_capacity need) × (need ≤ new_capacity pool cap (min_capacity need))
unfolding new_capacity
capacity_covers pool cap need room = (omega arith, ground (arith, room))

ready_lem : (base pool : ℕ) (t : Tmpfs) → t.ready ≡ true → ready_arena base pool t ≡ t.arena
unfolding ready_arena
ready_lem base pool t e = rw e refl

node_own :
    (base pool : ℕ) (t : Tmpfs) (i : ℕ)
    → Sound t i
    → (node_at t.nodes i).data_at ≢ 0
    → ready_arena base pool t ≡ t.arena
node_own base pool t i s ne = ready_lem base pool t (s.backed ne).0

node_Granted :
    (base pool : ℕ) (t : Tmpfs) (i size : ℕ) (bs : List Header)
    → Sound t i
    → Tiled (ready_arena base pool t) bs
    → size ≤ word_max - 15
    → Granted
        (ready_arena base pool t)
        (node_at t.nodes i).data_at
        (node_at t.nodes i).cap
        size
        (realloc (ready_arena base pool t) (node_at t.nodes i).data_at size)
node_Granted base pool t i size bs s tiled small =
    let w = node_at t.nodes i in
    elim (Bool-cases (w.data_at == 0)) [
      | inl e ↦
          realloc-Granted (ready_arena base pool t) bs w.data_at w.cap size tiled
            (λ ne. absurd (ne (ground (arith, e)))) small
      | inr e ↦
          let ne : w.data_at ≢ 0 = λ f. absurd (ground (arith, e, f)) in
          let (ready, (bs', tiled', live)) = s.backed ne in
          subst (λ (x : Arena). Granted x w.data_at w.cap size (realloc x w.data_at size))
            (sym (node_own base pool t i s ne))
            (realloc-Granted t.arena bs' w.data_at w.cap size tiled' (λ f. live) small)
    ]

-- When `lxp_wfs_reserve` answers that there is room, the node has it.
pub reserve-Room :
    (base pool : ℕ) (t : Tmpfs) (i need : ℕ) (bs : List Header)
    → Sound t i
    → Tiled (ready_arena base pool t) bs
    → i < length t.nodes
    → pool ≤ word_max
    → (reserve base pool t i need).1 ≡ true
    → Room t i need (reserve base pool t i need).0
unfolding reserve
reserve-Room base pool t i need bs s tiled lt p =
    let w = node_at t.nodes i in
    let mincap = min_capacity need in
    let ncap = new_capacity pool w.cap mincap in
    elim (Bool-cases (leb need w.cap)) [
      | inl e ↦ rw e (λ ok. record {
        sound = s;
        fits = ground (arith, e);
        unharmed = λ ne. (need, Intact.stays refl (λ k. inl refl));
      })
      | inr e ↦ elim (Bool-cases (ltb (max_payload pool) need || ltb (word_max - 255) need)) [
        | inl f ↦ rw e (rw f (λ ok. absurd (ground (arith, ok))))
        | inr f ↦
            let (lo, lo_small, hi, hi_small) =
              capacity_bounds pool w.cap need p (ground (arith, e)) (ground (arith, f))
                (ground (arith, f)) in
            let (covers, covers') = capacity_covers pool w.cap need (ground (arith, f)) in
            let fits = s.size_fits in
            rw e (
              rw f (
                or_smaller-Room t i need (ready_arena base pool t) mincap ncap _ lt
                  (node_own base pool t i s) (ground (arith, fits, e)) covers covers'
                  (node_Granted base pool t i ncap bs s tiled hi_small)
                  (node_Granted base pool t i mincap bs s tiled lo_small)))
      ]
    ]

-- The bytes that a write stores stand in the node's room.
pub put_bytes-Room :
    (t t' : Tmpfs) (i : ℕ) (bytes : List ℕ) (off : ℕ)
    → i < length t'.nodes
    → Room t i (off + length bytes) t'
    → Room t i (off + length bytes) (put_bytes t' i true bytes off).0
unfolding put_bytes Tiled geometry_ok
put_bytes-Room t t' i bytes off lt r =
    let w = node_at t'.nodes i in
    let now = get_or-set_self t'.nodes i (record w { size = off + length bytes }) zero_node lt in
    let s = r.sound in
    let fits = r.fits in
    elim (Bool-cases (ltb w.size (off + length bytes))) [
      | inl e ↦ rw e (record {
        sound = record {
          size_fits = rw now fits;
          empty = rw now s.empty;
          backed = rw now s.backed;
        };
        fits = rw now fits;
        unharmed = rw now r.unharmed;
      })
      | inr e ↦ rw e (record {
        sound = record { size_fits = s.size_fits; empty = s.empty; backed = s.backed };
        fits = fits;
        unharmed = r.unharmed;
      })
    ]
