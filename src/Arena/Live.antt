-- ===== src/Arena/Live.antt =====
-- The allocated blocks of a region of src/lxp_arena.c, by the address of their payload.
use lxp.Common.{
  ℕ, ◌+◌, ◌≤◌, ◌≡◌, sym, ◌∙◌, refl, ap, subst, ◌⊎◌, inl, inr, true, Option, none, some, List, [],
  ◌∷◌, ◌++◌, arith,
}
use lxp.Arena.{Arena, Header, arena_hdr, arena_end, is_used, find_payload, free_block}
use lxp.Arena.Tiles.{Tiles, extent, Tiles-cut, Tiles-extent, length_le, append_snoc, extent_snoc}
use lxp.Arena.Valid.{Tiled}
use lxp.Arena.Fit.{pieces, fits}
use lxp.Arena.Locate.{Absent, Located, find_payload-Located}
use lxp.Arena.Alloc.{taken}
use lxp.Arena.Free.{Freed, free_block-Freed}

-- Among the blocks from `cur` on, one is allocated whose payload starts at `target` and has `n` bytes
-- or more.
unfoldable pub Live : ℕ → ℕ → List Header → ℕ → Type 0
Live target n [] cur = ⊥
Live target n (b ∷ bs) cur =
    ((cur + arena_hdr ≡ target) × (is_used b ≡ true) × (n ≤ b.payload))
    ⊎ Live target n bs (cur + (arena_hdr + b.payload))

module _ (target n : ℕ) where
  pub Live-above : (bs : List Header) (cur : ℕ) → Live target n bs cur → cur + arena_hdr ≤ target
  unfolding Live
  Live-above [] cur l = absurd l
  Live-above (b ∷ bs) cur (inl l) = omega (arith, l.0)
  Live-above (b ∷ bs) cur (inr l) = omega (arith, Live-above bs (cur + (arena_hdr + b.payload)) l)

  Live-below : (bs : List Header) (cur : ℕ) → Live target n bs cur → target ≤ cur + extent bs
  unfolding Live extent
  Live-below [] cur l = absurd l
  Live-below (b ∷ bs) cur (inl l) = omega (arith, l.0)
  Live-below (b ∷ bs) cur (inr l) = omega (arith, Live-below bs (cur + (arena_hdr + b.payload)) l)

  pub Live-append_left :
      (xs ys : List Header) (cur : ℕ) → Live target n xs cur → Live target n (xs ++ ys) cur
  unfolding Live
  Live-append_left [] ys cur l = absurd l
  Live-append_left (b ∷ xs) ys cur (inl l) = inl l
  Live-append_left (b ∷ xs) ys cur (inr l) =
      inr (Live-append_left xs ys (cur + (arena_hdr + b.payload)) l)

  pub Live-append_right :
      (xs ys : List Header) (cur : ℕ)
      → Live target n ys (cur + extent xs)
      → Live target n (xs ++ ys) cur
  unfolding Live extent
  Live-append_right [] ys cur l = subst (Live target n ys) (omega arith) l
  Live-append_right (b ∷ xs) ys cur l = inr (
      Live-append_right xs ys (cur + (arena_hdr + b.payload))
        (subst (Live target n ys) (omega arith) l))

  pub Live-cut :
      (xs ys : List Header) (cur : ℕ)
      → Live target n (xs ++ ys) cur
      → Live target n xs cur ⊎ Live target n ys (cur + extent xs)
  unfolding Live extent
  Live-cut [] ys cur l = inr (subst (Live target n ys) (omega arith) l)
  Live-cut (b ∷ xs) ys cur (inl l) = inl (inl l)
  Live-cut (b ∷ xs) ys cur (inr l) = elim (Live-cut xs ys (cur + (arena_hdr + b.payload)) l) [
    | inl m ↦ inl (inr m)
    | inr m ↦ inr (subst (Live target n ys) (omega arith) m)
  ]

  pub Live-Absent : (bs : List Header) (cur : ℕ) → Absent target bs cur → Live target n bs cur → ⊥
  unfolding Live Absent
  Live-Absent [] cur a l = l
  Live-Absent (b ∷ bs) cur (ne, a) (inl l) = ne l.0
  Live-Absent (b ∷ bs) cur (ne, a) (inr l) = Live-Absent bs (cur + (arena_hdr + b.payload)) a l

  -- The block at the address is the allocated one.
  pub Live-at :
      (before : List Header) (b : Header) (after : List Header) (cur : ℕ)
      → cur + extent before + arena_hdr ≡ target
      → Live target n (before ++ b ∷ after) cur
      → (is_used b ≡ true) × (n ≤ b.payload)
  unfolding Live
  Live-at before b after cur at l = elim (Live-cut before (b ∷ after) cur l) [
    | inl m ↦ absurd (omega (arith, at, Live-below before cur m))
    | inr (inl m) ↦ (m.1, m.2)
    | inr (inr m) ↦
        absurd
          (omega (arith, at, Live-above after (cur + extent before + (arena_hdr + b.payload)) m))
  ]

  -- Allocating from another block, which was free, leaves it.
  pub Live-pieces :
      (before : List Header) (b : Header) (after : List Header) (need cur : ℕ)
      → fits need b ≡ true
      → Live target n (before ++ b ∷ after) cur
      → Live target n (before ++ (pieces (taken b) need ++ after)) cur
  unfolding Live extent pieces
  Live-pieces before b after need cur f l =
      let e : extent (pieces (taken b) need) ≡ arena_hdr + b.payload = ground (arith, f) in
      elim (Live-cut before (b ∷ after) cur l) [
        | inl m ↦ Live-append_left before (pieces (taken b) need ++ after) cur m
        | inr (inl m) ↦ absurd (ground (arith, f, m.1))
        | inr (inr m) ↦ Live-append_right before (pieces (taken b) need ++ after) cur (
            Live-append_right (pieces (taken b) need) after (cur + extent before)
              (subst (λ (x : ℕ). Live target n after (cur + extent before + x)) (sym e) m))
      ]

-- An allocated block stands between the blocks before it and those after it.
pub Live-split :
    (target n : ℕ) (bs : List Header) (cur : ℕ)
    → Live target n bs cur
    → (before : List Header) × (b : Header) × (after : List Header) × (bs ≡ before ++ b ∷ after)
      × (cur + extent before + arena_hdr ≡ target)
      × (is_used b ≡ true)
      × (n ≤ b.payload)
unfolding Live extent
Live-split target n [] cur l = absurd l
Live-split target n (b ∷ bs) cur (inl (at, used, big)) =
    ([], b, bs, refl, omega (arith, at), used, big)
Live-split target n (b ∷ bs) cur (inr l) =
    let (before, c, after, e, at, used, big) =
      Live-split target n bs (cur + (arena_hdr + b.payload)) l in
    (b ∷ before, c, after, ap (◌∷◌ b) e, omega (arith, at), used, big)

pub Live-less :
    (target m n : ℕ) (bs : List Header) (cur : ℕ)
    → m ≤ n
    → Live target n bs cur
    → Live target m bs cur
unfolding Live
Live-less target m n [] cur le l = l
Live-less target m n (b ∷ bs) cur le (inl (at, used, big)) = inl (at, used, omega (arith, le, big))
Live-less target m n (b ∷ bs) cur le (inr l) =
    inr (Live-less target m n bs (cur + (arena_hdr + b.payload)) le l)

-- An allocated block has all the bytes that its header says.
pub Live-whole :
    (a : Arena) (bs : List Header) (target n b : ℕ)
    → Tiled a bs
    → Live target n bs a.base
    → b + arena_hdr ≡ target
    → Live target (a.head b).payload bs a.base
unfolding Tiled Tiles Live
Live-whole a bs target n b t l at =
    let (before, h, after, e, at', used, big) = Live-split target n bs a.base l in
    let t' = subst (Tiled a) e t in
    let here = (Tiles-cut a.head (arena_end a) before (h ∷ after) a.base t'.1).1 in
    let is : b ≡ a.base + extent before = omega (arith, at, at') in
    let pay : (a.head b).payload ≡ h.payload =
      ap (λ (x : Header). x.payload) (ap a.head is ∙ here.0) in
    subst (λ x. Live target (a.head b).payload x a.base) (sym e)
      (Live-append_right target (a.head b).payload before (h ∷ after) a.base
        (inl (at', used, omega (arith, pay))))

-- The search for the payload of an allocated block finds it.
pub Live-found :
    (a : Arena) (bs : List Header) (target n : ℕ)
    → Tiled a bs
    → Live target n bs a.base
    → (b : ℕ) × (prev : Option ℕ) × (find_payload a.size a.head (arena_end a) a.base none target
        ≡ some (b, prev))
      × (is_used (a.head b) ≡ true)
      × (n ≤ (a.head b).payload)
      × (b + arena_hdr ≡ target)
unfolding Tiled Tiles extent
Live-found a bs target n (g, t, u) l =
    let x = Tiles-extent a.head (arena_end a) bs a.base t in
    let le = length_le a.head (arena_end a) bs a.base t in
    elim (find_payload-Located a.head (arena_end a) target a.size bs a.base none t
      (omega (arith, x, le))) [
        | Located.absent e all ↦ absurd (Live-Absent target n bs a.base all l)
        | Located.at_start b after e at found ↦
            let t' : Tiles a.head (arena_end a) a.base (b ∷ after) =
              subst (Tiles a.head (arena_end a) a.base) e t in
            let (used, big) =
              Live-at target n [] b after a.base (omega (arith, at))
                (subst (λ x. Live target n x a.base) e l) in
            (
              a.base,
              none,
              found,
              ap is_used t'.0 ∙ used,
              subst (λ (h : Header). n ≤ h.payload) (sym t'.0) big,
              at,
            )
        | Located.inside before p b after e at found ↦
            let t' : Tiles a.head (arena_end a) a.base (before ++ p ∷ b ∷ after) =
              subst (Tiles a.head (arena_end a) a.base) e t in
            let here = (Tiles-cut a.head (arena_end a) before (p ∷ b ∷ after) a.base t').1 in
            let l' = subst (λ x. Live target n x a.base) (e ∙ append_snoc before p (b ∷ after)) l in
            let (used, big) =
              Live-at target n (before ++ p ∷ []) b after a.base
                (omega (arith, at, extent_snoc before p)) l' in
            (
              a.base + extent before + (arena_hdr + p.payload),
              some (a.base + extent before),
              found,
              ap is_used here.2.0 ∙ used,
              subst (λ (h : Header). n ≤ h.payload) (sym here.2.0) big,
              at,
            )
      ]

-- An allocated block can be freed.
pub Live-freed :
    (a : Arena) (bs : List Header) (target n : ℕ)
    → Tiled a bs
    → Live target n bs a.base
    → (free_block a target).1 ≡ true
Live-freed a bs target n t l = elim (free_block-Freed a bs target t) [
  | Freed.foreign fails same all ↦ absurd (Live-Absent target n bs a.base all l)
  | Freed.not_live before b after e at free fails same ↦
      let (used, big) =
        Live-at target n before b after a.base (sym at) (subst (λ x. Live target n x a.base) e l) in
      absurd (ground (arith, used, free))
  | Freed.first_block b after e at used done tiled ↦ done
  | Freed.inner_block before p b after e at used done tiled ↦ done
]
