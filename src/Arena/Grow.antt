-- ===== src/Arena/Grow.antt =====
-- The growth in place of `lxp_arena_realloc` in src/lxp_arena.c on the list of blocks.
use lxp.Common.{
  ℕ, ◌+◌, ◌-◌, ◌%◌, ◌≤◌, ◌<◌, ◌≡◌, refl, sym, ◌∙◌, ap, subst, inl, inr, Bool, true, false, none,
  some, List, [], ◌∷◌, ◌++◌, arith, leb, ltb, ◌==◌, not, ◌&&◌, if◌then◌else◌, Bool-cases,
}
use lxp.Arena.{Arena, Header, arena_hdr, arena_end, is_used, put, split, geometry_ok}
use lxp.Arena.Mappings.{grow, resized}
use lxp.Arena.Tiles.{WellFormed, Tiles, extent, in_use-append, Tiles-agree, Tiles-cut, Tiles-append}
use lxp.Arena.Valid.{Tiled}
use lxp.Arena.Fit.{pieces, pieces-Tiles}
use lxp.Arena.Alloc.{split_self, split_tail, split_above, split_below, in_use-pieces}
use lxp.Arena.Join.{absorb, WellFormed-absorb}
use lxp.Arena.Free.{in_use-cons}
use lxp.Arena.Live.{Live, Live-append_right, Live-split}
use lxp.Arena.Apart.{Apart}

abbrev next_of : Arena → ℕ → ℕ
next_of a b = b + (arena_hdr + (a.head b).payload)

abbrev combined : Arena → ℕ → ℕ
combined a b = (a.head b).payload + (arena_hdr + (a.head (next_of a b)).payload)

-- whether the block behind `b` is free and the two have room for `need`
abbrev pub can_grow : Arena → ℕ → ℕ → Bool
can_grow a b need =
    ltb (next_of a b) (arena_end a)
    && not (is_used (a.head (next_of a b)))
    && leb need (combined a b)

abbrev taken_next : Arena → ℕ → ℕ → Header
taken_next a b = put a.head (next_of a b) (record (a.head (next_of a b)) { magic = 0 })

abbrev grown_heads : Arena → ℕ → ℕ → ℕ → Header
grown_heads a b need = split (taken_next a b) b (combined a b) need

abbrev pub grown : Arena → ℕ → ℕ → ℕ → Arena
grown a b need size =
    let used = a.used + ((grown_heads a b need b).payload - (a.head b).payload) in
    record a {
      head = grown_heads a b need;
      used = used;
      high_water = if ltb a.high_water used then used else a.high_water;
      mappings = resized (b + arena_hdr) size a.mappings;
    }

pub grow_lem :
    (a : Arena) (b need size : ℕ)
    → grow a b need size ≡ (if can_grow a b need then some (grown a b need size) else none)
unfolding grow
grow_lem a b need size = refl

-- Growth writes headers at the block itself, at the one that it takes in, and at the new tail.
pub grown-Apart :
    (a : Arena) (b need size n : ℕ)
    → n ≤ (a.head b).payload
    → n ≤ need
    → Apart a.head (grown a b need size).head (b + arena_hdr) n
unfolding split
grown-Apart a b need size n le le' k = elim (Bool-cases (k == b)) [
  | inl e ↦ inr (inr (ground (arith, e)))
  | inr e ↦ elim (Bool-cases (leb (b + arena_hdr + n) k)) [
    | inl f ↦ inr (inl (ground (arith, f)))
    | inr f ↦ inl (ground (arith, e, f))
  ]
]

abbrev with_payload : ℕ → Header → Header
with_payload n b = record b { payload = n }

-- The block with the free block behind it, cut to what is needed, stands where the two stood.
grown-Tiled :
    (a : Arena) (before : List Header) (h c : Header) (after : List Header) (need size : ℕ)
    → Tiled a (before ++ h ∷ c ∷ after)
    → is_used h ≡ true
    → is_used c ≡ false
    → need ≤ h.payload + (arena_hdr + c.payload)
    → h.payload < need
    → need % 16 ≡ 0
    → Tiled
        (grown a (a.base + extent before) need size)
        (before ++ (pieces (absorb h c) need ++ after))
unfolding Tiled Tiles geometry_ok WellFormed
grown-Tiled a before h c after need size (g, t, u) used free le lt mult =
    let b = a.base + extent before in
    let room = h.payload + (arena_hdr + c.payload) in
    let cut = if leb 32 (room - need) then need else room in
    let (t1, (here, w, (here', w', t2))) =
      Tiles-cut a.head (arena_end a) before (h ∷ c ∷ after) a.base t in
    let pay : (a.head b).payload ≡ h.payload = ap (λ (x : Header). x.payload) here in
    let nx : next_of a b ≡ b + (arena_hdr + h.payload) = omega (arith, pay) in
    let hc : a.head (next_of a b) ≡ c = ap a.head nx ∙ here' in
    let payc : (a.head (next_of a b)).payload ≡ c.payload = ap (λ (x : Header). x.payload) hc in
    let all : combined a b ≡ room = omega (arith, pay, payc) in
    let h1 = taken_next a b in
    let h2 = grown_heads a b need in
    let eqh : h2 ≡ split h1 b room need = ap (λ x. split h1 b x need) all in
    let own : h1 b ≡ h = ground (arith, nx) ∙ here in
    let self : h2 b ≡ with_payload cut (absorb h c) =
      ap (λ (f : ℕ → Header). f b) eqh ∙ split_self h1 b room need ∙ ap (with_payload cut) own in
    let above : (k : ℕ) → b + (arena_hdr + room) ≤ k → h2 k ≡ a.head k = λ k lo.
      ap (λ (f : ℕ → Header). f k) eqh
      ∙ split_above h1 b room need k le lo
      ∙ ground (arith, nx, lo) in
    let below : (k : ℕ) → k < b → h2 k ≡ a.head k = λ k lo.
      ap (λ (f : ℕ → Header). f k) eqh ∙ split_below h1 b room need k lo ∙ ground (arith, nx, lo) in
    let tail : Tiles h2 (arena_end a) b (pieces (absorb h c) need ++ after) =
      pieces-Tiles a.head h2 (arena_end a) after b need (absorb h c) (WellFormed-absorb h c w w')
        (omega (arith, lt, w)) mult le
        (λ s. (
          self ∙ ap (λ n. with_payload n (absorb h c)) (ground (arith, s)),
          ap (λ (f : ℕ → Header). f (b + (arena_hdr + need))) eqh ∙ split_tail h1 b room need s,
        ))
        (λ s. self ∙ ap (λ n. with_payload n (absorb h c)) (ground (arith, s))) above
        (subst (λ x. Tiles a.head (arena_end a) x after) (omega arith) t2) in
    let front : Tiles h2 b a.base before =
      Tiles-agree a.head h2 b before a.base (λ k k_lo k_hi. below k k_hi) t1 in
    let sum = in_use-append before (h ∷ c ∷ after) in
    let sum' = in_use-append before (pieces (absorb h c) need ++ after) in
    let own_use = in_use-cons h (c ∷ after) in
    let next_use = in_use-cons c after in
    let cut_use = in_use-pieces (absorb h c) need after used in
    let now = ap (λ (x : Header). x.payload) self in
    (
      g,
      Tiles-append h2 (arena_end a) before (pieces (absorb h c) need ++ after) a.base front tail,
      ground (arith, u, sum, sum', own_use, next_use, cut_use, now, pay, used, free, lt, le),
    )

Live-pieces_own :
    (before : List Header) (b : Header) (after : List Header) (size need cur : ℕ)
    → is_used b ≡ true
    → size ≤ need
    → need ≤ b.payload
    → Live (cur + extent before + arena_hdr) size (before ++ (pieces b need ++ after)) cur
unfolding pieces Live
Live-pieces_own before b after size need cur used enough le =
    let target = cur + extent before + arena_hdr in
    Live-append_right target size before (pieces b need ++ after) cur
      (elim (Bool-cases (leb 32 (b.payload - need))) [
        | inl e ↦ rw e (inl (refl, used, enough))
        | inr e ↦ rw e (inl (refl, used, omega (arith, enough, le)))
      ])

-- A tiled arena in which the block at `ptr` is allocated and has `size` bytes or more.
abbrev pub Holds : Arena → ℕ → ℕ → Type 0
Holds a ptr size = (bs : List Header) × Tiled a bs × Live ptr size bs a.base

grown_before :
    (a : Arena) (before : List Header) (h : Header) (after : List Header) (need size : ℕ)
    → Tiled a (before ++ h ∷ after)
    → is_used h ≡ true
    → can_grow a (a.base + extent before) need ≡ true
    → h.payload < need
    → need % 16 ≡ 0
    → size ≤ need
    → Holds (grown a (a.base + extent before) need size) (a.base + extent before + arena_hdr) size
unfolding Tiled Tiles
grown_before a before h [] need size (g, t, u) used can lt mult enough =
    let (t1, (here, w, at_end)) = Tiles-cut a.head (arena_end a) before (h ∷ []) a.base t in
    let pay = ap (λ (x : Header). x.payload) here in absurd (ground (arith, can, pay, at_end))
grown_before a before h (c ∷ after) need size (g, t, u) used can lt mult enough =
    let b = a.base + extent before in
    let (t1, (here, w, (here', w', t2))) =
      Tiles-cut a.head (arena_end a) before (h ∷ c ∷ after) a.base t in
    let pay : (a.head b).payload ≡ h.payload = ap (λ (x : Header). x.payload) here in
    let nx : next_of a b ≡ b + (arena_hdr + h.payload) = omega (arith, pay) in
    let hc : a.head (next_of a b) ≡ c = ap a.head nx ∙ here' in
    let payc : (a.head (next_of a b)).payload ≡ c.payload = ap (λ (x : Header). x.payload) hc in
    let freec : is_used (a.head (next_of a b)) ≡ is_used c = ap is_used hc in
    let free : is_used c ≡ false = sym freec ∙ ground (arith, can) in
    let room : need ≤ combined a b = ground (arith, can) in
    let le : need ≤ h.payload + (arena_hdr + c.payload) = omega (arith, room, pay, payc) in
    (
      before ++ (pieces (absorb h c) need ++ after),
      grown-Tiled a before h c after need size (g, t, u) used free le lt mult,
      Live-pieces_own before (absorb h c) after size need a.base used enough le,
    )

-- An allocated block that grows in place stays allocated, at its address, with the size asked for.
pub grown-Holds :
    (a : Arena) (bs : List Header) (ptr n b need size : ℕ)
    → Tiled a bs
    → Live ptr n bs a.base
    → b + arena_hdr ≡ ptr
    → can_grow a b need ≡ true
    → (a.head b).payload < need
    → need % 16 ≡ 0
    → size ≤ need
    → Holds (grown a b need size) ptr size
unfolding Tiled Tiles
grown-Holds a bs ptr n b need size t l at can lt mult enough =
    let (before, h, after, e, at', used, big) = Live-split ptr n bs a.base l in
    let is : a.base + extent before ≡ b = omega (arith, at, at') in
    let t' = subst (Tiled a) e t in
    let here = (Tiles-cut a.head (arena_end a) before (h ∷ after) a.base t'.1).1 in
    let pay = ap (λ (x : Header). x.payload) (ap a.head (sym is) ∙ here.0) in
    subst (λ x. Holds (grown a b need size) x size) at
      (subst (λ x. Holds (grown a x need size) (x + arena_hdr) size) is
        (grown_before a before h after need size t' used
          (subst (λ x. can_grow a x need ≡ true) (sym is) can) (omega (arith, lt, pay)) mult
          enough))
