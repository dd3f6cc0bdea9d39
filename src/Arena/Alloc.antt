-- ===== src/Arena/Alloc.antt =====
-- `lxp_arena_alloc` of src/lxp_arena.c on the list of blocks.
use lxp.Common.{
  ℕ, ◌+◌, ◌-◌, ◌%◌, ◌≤◌, ◌<◌, ◌≡◌, refl, sym, ◌∙◌, ap, subst, true, false, Option, none, some, List,
  ◌∷◌, ◌++◌, arith, ltb, leb, ◌==◌, if◌then◌else◌, All,
}
use lxp.Arena.{
  Arena, Header, arena_hdr, arena_end, word_max, put, is_used, free_block_of, find_fit, split,
  claim, alloc, needed, arena_align, layout_valid, geometry_ok,
}
use lxp.Arena.Tiles.{
  WellFormed, Tiles, extent, in_use, in_use_le, in_use-append, Tiles-extent, Tiles-agree, Tiles-cut,
  Tiles-append, Tiles-same, length_le,
}
use lxp.Arena.Valid.{Tiled, layout_valid_iff}
use lxp.Arena.Fit.{fits, TooSmall, Fit, find_fit-Fit, pieces, pieces-Tiles}

pub needed_lem :
    (size : ℕ)
    → size ≤ word_max - 15
    → (size ≤ needed size) × (16 ≤ needed size) × (needed size < size + 17) × (needed size % 16 ≡ 0)
unfolding needed arena_align
needed_lem size h = (ground arith, ground arith, ground arith, ground arith)

-- the block that `claim` hands out, before it is cut
abbrev pub taken : Header → Header
taken b = record b { is_free = 0 }

abbrev cut_to : ℕ → Header → Header
cut_to need b = record b { payload = if leb 32 (b.payload - need) then need else b.payload }

abbrev with_payload : ℕ → Header → Header
with_payload n b = record b { payload = n }

-- What `split` writes where.
module _ (h : ℕ → Header) (at room need : ℕ) where
  pub split_self :
      split h at room need at
      ≡ record (h at) { payload = if leb 32 (room - need) then need else room }
  unfolding split
  split_self = ground arith

  pub split_tail :
      leb 32 (room - need) ≡ true
      → split h at room need (at + (arena_hdr + need)) ≡ free_block_of (room - need - arena_hdr)
  unfolding split
  split_tail s = ground arith

  pub split_above :
      (k : ℕ) → need ≤ room → at + (arena_hdr + room) ≤ k → split h at room need k ≡ h k
  unfolding split
  split_above k le lo = ground arith

  pub split_below : (k : ℕ) → k < at → split h at room need k ≡ h k
  unfolding split
  split_below k lt = ground arith

-- `claim` of the block at `at`, which has `room` payload bytes, when the sums allow it.
Granted : Arena → ℕ → ℕ → ℕ → Type 0
Granted a at need room =
    let h = split a.head at room need in
    a.used + (arena_hdr + (h at).payload) ≤ a.size
    → (a' : Arena) × (claim a at need ≡ (a', some (at + arena_hdr)))
      × (a'.base ≡ a.base)
      × (a'.size ≡ a.size)
      × (geometry_ok a' ≡ geometry_ok a)
      × (a'.used ≡ a.used + (arena_hdr + (h at).payload))
      × ((k : ℕ) → a'.head k ≡ (if k == at then taken (h at) else h k))

claim-Granted : (a : Arena) (at need : ℕ) → Granted a at need (a.head at).payload
unfolding claim geometry_ok Granted
claim-Granted a at need room =
    let h = split a.head at (a.head at).payload need in
    let used = a.used + (arena_hdr + (h at).payload) in
    (
      record a {
        head = put h at (record (h at) { is_free = 0 });
        used = used;
        high_water = if ltb a.high_water used then used else a.high_water;
      },
      ground arith,
      refl,
      refl,
      refl,
      refl,
      λ k. refl,
    )

pub in_use-pieces :
    (b : Header) (need : ℕ) (after : List Header)
    → is_used b ≡ true
    → in_use (pieces b need ++ after)
      ≡ arena_hdr + (if leb 32 (b.payload - need) then need else b.payload) + in_use after
unfolding in_use pieces
in_use-pieces b need after u = ground arith

in_use-cons_free :
    (b : Header) (after : List Header) → is_used b ≡ false → in_use (b ∷ after) ≡ in_use after
unfolding in_use
in_use-cons_free b after u = ground arith

WellFormed-taken : (b : Header) → WellFormed b → WellFormed (taken b)
unfolding WellFormed
WellFormed-taken b w = (w.0, omega arith, w.2, w.3)

-- Handing out a free block replaces it by its pieces.
claim-Tiled :
    (a : Arena) (before : List Header) (b : Header) (after : List Header) (need : ℕ)
    → Tiled a (before ++ b ∷ after)
    → fits need b ≡ true
    → 16 ≤ need
    → need % 16 ≡ 0
    → (a' : Arena) × (claim a (a.base + extent before) need
        ≡ (a', some (a.base + extent before + arena_hdr)))
      × Tiled a' (before ++ (pieces (taken b) need ++ after))
unfolding Tiled Tiles extent Granted
claim-Tiled a before b after need (g, t, u) f lo mult =
    let at = a.base + extent before in
    let (t1, (here, w, t2)) = Tiles-cut a.head (arena_end a) before (b ∷ after) a.base t in
    let le : need ≤ b.payload = ground (arith, f) in
    let free : is_used b ≡ false = ground (arith, f) in
    let sum = in_use-append before (b ∷ after) in
    let sum' = in_use-append before (pieces (taken b) need ++ after) in
    let cons = in_use-cons_free b after free in
    let cut = in_use-pieces (taken b) need after refl in
    let rest = Tiles-extent a.head (arena_end a) after (at + (arena_hdr + b.payload)) t2 in
    let below = in_use_le before in
    let above = in_use_le after in
    let h = split a.head at b.payload need in
    let self : h at ≡ cut_to need b =
      split_self a.head at b.payload need
      ∙ ap (with_payload (if leb 32 (b.payload - need) then need else b.payload)) here in
    let kept : (if leb 32 (b.payload - need) then need else b.payload) ≤ b.payload = ground arith in
    let pay = ap (λ x. x.payload) self in
    let (a', e, base_kept, size_kept, geometry, used, heads) =
      subst (Granted a at need) (ap (λ x. x.payload) here) (claim-Granted a at need)
        (omega (arith, u, sum, cons, rest, below, above, pay, kept)) in
    let total : a'.used ≡ in_use (before ++ (pieces (taken b) need ++ after)) =
      ground (arith, used, u, sum, sum', cons, cut, pay) in
    let here' : a'.head at ≡ taken (cut_to need b) = ground (arith, heads at) ∙ ap taken self in
    let tail : Tiles a'.head (arena_end a) at (pieces (taken b) need ++ after) =
      pieces-Tiles a.head a'.head (arena_end a) after at need (taken b) (WellFormed-taken b w) lo
        mult le
        (λ s. (
          here' ∙ ap (λ n. with_payload n (taken b)) (ground (arith, s)),
          ground (arith, heads (at + (arena_hdr + need)), split_tail a.head at b.payload need s),
        ))
        (λ s. here' ∙ ap (λ n. with_payload n (taken b)) (ground (arith, s)))
        (λ k k_lo. ground (arith, heads k, split_above a.head at b.payload need k le k_lo)) t2 in
    let front : Tiles a'.head at a.base before =
      Tiles-agree a.head a'.head at before a.base
        (λ k k_lo k_hi. ground (arith, heads k, split_below a.head at b.payload need k k_hi)) t1 in
    (
      a',
      e,
      (
        geometry ∙ g,
        Tiles-same a'.head _ _ _ _ (before ++ (pieces (taken b) need ++ after)) base_kept size_kept
            (Tiles-append a'.head (arena_end a) before (pieces (taken b) need ++ after) a.base front
              tail),
        total,
      ),
    )

-- What `lxp_arena_alloc` of `size` bytes does to an arena tiled by `bs`.
pub data Placed (a : Arena) (bs : List Header) (size : ℕ) (a' : Arena) (r : Option ℕ) : Type 0 where
  full : r ≡ none → a' ≡ a → All (TooSmall (needed size)) bs → Placed a bs size a' r
  placed :
      (before : List Header) (b : Header) (after : List Header)
      → bs ≡ before ++ b ∷ after
      → All (TooSmall (needed size)) before
      → fits (needed size) b ≡ true
      → r ≡ some (a.base + extent before + arena_hdr)
      → Tiled a' (before ++ (pieces (taken b) (needed size) ++ after))
      → Placed a bs size a' r

pub sound_first : (a : Arena) → geometry_ok a ≡ true → (a.first == 0) ≡ false
unfolding geometry_ok
sound_first a g = ground arith

pub alloc_searches :
    (a : Arena) (size : ℕ) (o : Option ℕ)
    → (a.first == 0) ≡ false
    → layout_valid a ≡ true
    → (needed size == 0) ≡ false
    → find_fit a.size a.head (arena_end a) a.base (needed size) ≡ o
    → alloc a size ≡ elim o [ none ↦ (a, none) | some b ↦ claim a b (needed size) ]
unfolding alloc
alloc_searches a size o first valid some_room found =
    rw first (rw valid (rw some_room (rw found refl)))

-- `lxp_arena_alloc` hands out the first free block that has room for the request rounded up to 16
-- bytes, cut to that size when the rest can be a block of its own, and leaves an arena tiled by the
-- pieces and the other blocks; it answers NULL, changing nothing, only if no free block has room.
pub alloc-Placed :
    (a : Arena) (bs : List Header) (size : ℕ)
    → Tiled a bs
    → size ≤ word_max - 15
    → Placed a bs size (alloc a size).0 (alloc a size).1
unfolding Tiled
alloc-Placed a bs size (g, t, u) small =
    let valid = (layout_valid_iff a).1 (bs, (g, t, u)) in
    let (enough, lo, hi, mult) = needed_lem size small in
    let x = Tiles-extent a.head (arena_end a) bs a.base t in
    let l = length_le a.head (arena_end a) bs a.base t in
    let roomy : (needed size == 0) ≡ false = ground (arith, lo) in
    let first = sound_first a g in
    elim (find_fit-Fit a.head (arena_end a) (needed size) a.size bs a.base t
      (omega (arith, x, l))) [
        | Fit.no_fit e all ↦
            let found = alloc_searches a size none first valid roomy e in
            Placed.full (ap (λ p. p.1) found) (ap (λ p. p.0) found) all
        | Fit.first_fit before b after e all f at ↦
            let (a', c, tiled) =
              claim-Tiled a before b after (needed size) (subst (Tiled a) e (g, t, u)) f lo mult in
            let found =
              alloc_searches a size (some (a.base + extent before)) first valid roomy at ∙ c in
            Placed.placed before b after e all f (ap (λ p. p.1) found) (
              subst (λ x. Tiled x (before ++ (pieces (taken b) (needed size) ++ after)))
                (sym (ap (λ p. p.0) found)) tiled)
      ]
