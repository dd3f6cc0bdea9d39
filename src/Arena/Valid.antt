-- ===== src/Arena/Valid.antt =====
-- `arena_layout_valid` of src/lxp_arena.c decides whether blocks tile the region.
use lxp.Common.{
  ℕ, zero, suc, ◌+◌, ◌-◌, ◌≤◌, ◌<◌, ◌≡◌, refl, sym, ◌∙◌, ap, subst, inl, inr, Bool, true, false,
  none, some, List, [], ◌∷◌, arith, ltb, ◌==◌, ◌&&◌, ◌||◌, not, if◌then◌else◌, length, Bool-cases,
  Option-cases, ltb→lt, ltb-false→le, ◌↔◌,
}
use lxp.Arena.{
  Arena, Header, arena_hdr, arena_end, is_used, header_ok, walk, geometry_ok, layout_valid,
}
use lxp.Arena.Tiles.{WellFormed, Tiles, in_use, in_use_le, Tiles-extent, length_le}

-- An arena whose own fields are sound and whose region is tiled by `bs`.
unfoldable pub Tiled : Arena → List Header → Type 0
Tiled a bs = (geometry_ok a ≡ true) × Tiles a.head (arena_end a) a.base bs × (a.used ≡ in_use bs)

walk_out : (h : ℕ → Header) (size last cur used : ℕ) → walk zero h size last cur used ≡ none
unfolding walk
walk_out h size last cur used = refl

walk_ends :
    (n : ℕ) (h : ℕ → Header) (size last cur used : ℕ)
    → last ≤ cur
    → walk (suc n) h size last cur used ≡ (if cur == last then some used else none)
unfolding walk
walk_ends n h size last cur used le = ground arith

-- the test that ends a round of the loop with `false`
bad : Header → ℕ → ℕ → ℕ → Bool
bad b size remain used =
    ltb remain arena_hdr
    || not (header_ok b remain)
    || is_used b && ltb (size - (arena_hdr + b.payload)) used

next_used : Header → ℕ → ℕ
next_used b used = if is_used b then used + (arena_hdr + b.payload) else used

walk_stops :
    (n : ℕ) (h : ℕ → Header) (size last cur used : ℕ)
    → cur < last
    → bad (h cur) size (last - cur) used ≡ true
    → walk (suc n) h size last cur used ≡ none
unfolding walk bad
walk_stops n h size last cur used lt e = ground arith

walk_goes :
    (n : ℕ) (h : ℕ → Header) (size last cur used : ℕ)
    → cur < last
    → bad (h cur) size (last - cur) used ≡ false
    → walk (suc n) h size last cur used
      ≡ walk n h size last (cur + (arena_hdr + (h cur).payload)) (next_used (h cur) used)
unfolding walk bad next_used
walk_goes n h size last cur used lt e = ground arith

bad_sound :
    (b : Header) (size remain used : ℕ)
    → bad b size remain used ≡ false
    → WellFormed b × (arena_hdr + b.payload ≤ remain)
unfolding bad header_ok WellFormed
bad_sound b size remain used e =
    ((ground arith, ground arith, ground arith, ground arith), ground arith)

bad_complete :
    (b : Header) (size remain used : ℕ)
    → WellFormed b
    → arena_hdr + b.payload ≤ remain
    → next_used b used ≤ size
    → bad b size remain used ≡ false
unfolding bad header_ok WellFormed next_used
bad_complete b size remain used w le room = ground arith

next_used_lem :
    (b : Header) (used : ℕ) (bs : List Header)
    → next_used b used + in_use bs ≡ used + in_use (b ∷ bs)
unfolding next_used in_use
next_used_lem b used bs = ground arith

-- What the loop accepts is tiled, and it adds up the footprints in use.
walk-Tiles :
    (n : ℕ) (h : ℕ → Header) (size last cur used total : ℕ)
    → walk n h size last cur used ≡ some total
    → (bs : List Header) × Tiles h last cur bs × (total ≡ used + in_use bs)
unfolding Tiles in_use
walk-Tiles zero h size last cur used total e =
    absurd (ground (arith, walk_out h size last cur used, e))
walk-Tiles (suc n) h size last cur used total e = elim (Bool-cases (ltb cur last)) [
  | inl lt ↦ elim (Bool-cases (bad (h cur) size (last - cur) used)) [
    | inl failed ↦
        absurd (ground (arith, walk_stops n h size last cur used (ltb→lt _ _ lt) failed, e))
    | inr good ↦
        let (w, le) = bad_sound (h cur) size (last - cur) used good in
        let (bs, t, u) =
          walk-Tiles n h size last (cur + (arena_hdr + (h cur).payload)) (next_used (h cur) used)
            total (sym (walk_goes n h size last cur used (ltb→lt _ _ lt) good) ∙ e) in
        (h cur ∷ bs, (refl, w, t), u ∙ next_used_lem (h cur) used bs)
  ]
  | inr ge ↦
      let f : (if cur == last then some used else none) ≡ some total =
        sym (walk_ends n h size last cur used (ltb-false→le _ _ ge)) ∙ e in
      ([], ground arith, ground arith)
]

Tiles-walk :
    (n : ℕ) (h : ℕ → Header) (size last : ℕ) (bs : List Header) (cur used : ℕ)
    → Tiles h last cur bs
    → length bs < n
    → used + in_use bs ≤ size
    → walk n h size last cur used ≡ some (used + in_use bs)
unfolding Tiles in_use
Tiles-walk zero h size last bs cur used t lt room = absurd (omega arith)
Tiles-walk (suc n) h size last [] cur used t lt room =
    walk_ends n h size last cur used (omega (arith, t)) ∙ ground (arith, t)
Tiles-walk (suc n) h size last (b ∷ bs) cur used (at, w, t) lt room =
    let le = Tiles-extent h last bs (cur + (arena_hdr + b.payload)) t in
    let step = next_used_lem b used bs in
    let fine =
      bad_complete b size (last - cur) used w (omega (arith, le)) (omega (arith, step, room)) in
    let go =
      walk_goes n h size last cur used (omega (arith, le))
        (subst (λ x. bad x size (last - cur) used ≡ false) (sym at) fine) in
    let rest =
      Tiles-walk n h size last bs (cur + (arena_hdr + b.payload)) (next_used b used) t (omega arith)
        (omega (arith, step, room)) in
    go
    ∙ subst
        (λ x.
          walk n h size last (cur + (arena_hdr + x.payload)) (next_used x used)
          ≡ some (used + in_use (b ∷ bs)))
        (sym at) (rest ∙ ap some step)

-- `arena_layout_valid` accepts exactly the arenas whose region is tiled by well-formed blocks, with
-- the footprints of the allocated ones adding up to `used`.
pub layout_valid_iff : (a : Arena) → (layout_valid a ≡ true) ↔ ((bs : List Header) × Tiled a bs)
unfolding layout_valid Tiled
layout_valid_iff a = (from, to)
  where
    from : layout_valid a ≡ true → (bs : List Header) × Tiled a bs
    from e = elim (Option-cases (walk (suc a.size) a.head a.size (arena_end a) a.base 0)) [
      | inl failed ↦ absurd (ground (arith, failed, e))
      | inr (total, good) ↦
          let (bs, t, u) =
            walk-Tiles (suc a.size) a.head a.size (arena_end a) a.base 0 total good in
          (bs, (ground (arith, good, e), t, ground (arith, good, e, u)))
    ]

    to : ((bs : List Header) × Tiled a bs) → layout_valid a ≡ true
    to (bs, (g, t, u)) =
        let x = Tiles-extent a.head (arena_end a) bs a.base t in
        let l = length_le a.head (arena_end a) bs a.base t in
        let s = in_use_le bs in
        let w =
          Tiles-walk (suc a.size) a.head a.size (arena_end a) bs a.base 0 t (omega (arith, x, l))
            (omega (arith, x, s)) in
        ground (arith, w, g, u)
