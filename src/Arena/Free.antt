-- ===== src/Arena/Free.antt =====
-- `arena_free_block` of src/lxp_arena.c on the list of blocks.
use lxp.Common.{
  ℕ, ◌+◌, ◌-◌, ◌≤◌, ◌<◌, ◌≡◌, refl, sym, ◌∙◌, ap, subst, inl, inr, Bool, true, false, Option, none,
  some, List, [], ◌∷◌, ◌++◌, arith, ◌==◌, ◌||◌, if◌then◌else◌, Bool-cases,
}
use lxp.Arena.{
  Arena, Header, arena_hdr, arena_end, put, is_used, merge_next, merge_prev, find_payload, release,
  free_block, layout_valid, geometry_ok,
}
use lxp.Arena.Tiles.{
  WellFormed, Tiles, extent, in_use, in_use-append, Tiles-extent, Tiles-agree, Tiles-cut,
  Tiles-append, length_le, append_snoc, extent_snoc,
}
use lxp.Arena.Valid.{Tiled, layout_valid_iff}
use lxp.Arena.Locate.{Absent, Located, find_payload-Located}
use lxp.Arena.Join.{
  absorb, join, in_use-join, merge_next-Tiles, merge_prev-Tiles, merge_next_below, merge_prev_below,
}

abbrev pub freed : Header → Header
freed b = record b { is_free = 1 }

WellFormed-freed : (b : Header) → WellFormed b → WellFormed (freed b)
unfolding WellFormed
WellFormed-freed b w = (w.0, omega arith, w.2, w.3)

in_use-used :
    (b : Header) (after : List Header)
    → is_used b ≡ true
    → in_use (b ∷ after) ≡ arena_hdr + b.payload + in_use after
unfolding in_use
in_use-used b after u = ground arith

pub in_use-cons :
    (b : Header) (after : List Header)
    → in_use (b ∷ after) ≡ (if is_used b then arena_hdr + b.payload else 0) + in_use after
unfolding in_use
in_use-cons b after = refl

in_use-freed : (b : Header) (after : List Header) → in_use (freed b ∷ after) ≡ in_use after
unfolding in_use
in_use-freed b after = omega arith

join_shape :
    (b : Header) (bs : List Header)
    → (c : Header) × (cs : List Header) × (join b bs ≡ c ∷ cs) × (is_used c ≡ is_used b)
unfolding join
join_shape b [] = (b, [], refl, refl)
join_shape b (c ∷ cs) = elim (Bool-cases (is_used b || is_used c)) [
  | inl e ↦ (b, c ∷ cs, rw e refl, refl)
  | inr e ↦ (absorb b c, cs, rw e refl, refl)
]

-- The headers that `release` leaves.
released : Arena → ℕ → Option ℕ → ℕ → Header
released a at prev =
    merge_prev (merge_next (put a.head at (freed (a.head at))) (arena_end a) at) prev at

release_lem :
    (a : Arena) (at : ℕ) (prev : Option ℕ)
    → is_used (a.head at) ≡ true
    → arena_hdr + (a.head at).payload ≤ a.used
    → release a at prev ≡ (
      record a { head = released a at prev; used = a.used - (arena_hdr + (a.head at).payload) },
      true,
    )
unfolding release released
release_lem a at prev u le = ground arith

release_refused :
    (a : Arena) (at : ℕ) (prev : Option ℕ)
    → is_used (a.head at) ≡ false
    → release a at prev ≡ (a, false)
unfolding release
release_refused a at prev u = ground arith

-- The block is marked free and coalesced with the one behind it.
forward :
    (a : Arena) (at : ℕ) (b : Header) (after : List Header)
    → Tiles a.head (arena_end a) at (b ∷ after)
    → Tiles
        (merge_next (put a.head at (freed (a.head at))) (arena_end a) at)
        (arena_end a)
        at
        (join (freed b) after)
unfolding Tiles
forward a at b after (e, w, t) =
    let h = put a.head at (freed (a.head at)) in
    let here : h at ≡ freed b = ground (arith, ap freed e) in
    merge_next-Tiles h (arena_end a) at (freed b) after
      (
        here,
        WellFormed-freed b w,
        Tiles-agree a.head h (arena_end a) after (at + (arena_hdr + b.payload))
            (λ k lo hi. ground arith) t,
      )
      refl

release_first :
    (a : Arena) (b : Header) (after : List Header)
    → Tiled a (b ∷ after)
    → is_used b ≡ true
    → (release a a.base none).1 ≡ true × Tiled (release a a.base none).0 (join (freed b) after)
unfolding Tiled Tiles released merge_prev geometry_ok
release_first a b after (g, t, u) used =
    let e = t.0 in
    let sum = in_use-used b after used in
    let sum' = in_use-join (freed b) after ∙ in_use-freed b after in
    let pay = ap (λ x. x.payload) e in
    rw (release_lem a a.base none (ap is_used e ∙ used) (omega (arith, u, sum, pay)))
      (refl, (g, forward a a.base b after t, omega (arith, u, sum, sum', pay)))

in_use-inner :
    (before : List Header) (p b : Header) (after : List Header)
    → is_used b ≡ true
    → in_use (before ++ p ∷ b ∷ after)
      ≡ arena_hdr + b.payload + in_use (before ++ join p (join (freed b) after))
in_use-inner before p b after used =
    let whole = in_use-append before (p ∷ b ∷ after) in
    let whole' = in_use-append before (join p (join (freed b) after)) in
    let own = in_use-cons p (b ∷ after) in
    let own' = in_use-join p (join (freed b) after) ∙ in_use-cons p (join (freed b) after) in
    let sum = in_use-used b after used in
    let sum' = in_use-join (freed b) after ∙ in_use-freed b after in
    omega (arith, whole, whole', own, own', sum, sum')

release_inner :
    (a : Arena) (before : List Header) (p b : Header) (after : List Header)
    → Tiled a (before ++ p ∷ b ∷ after)
    → is_used b ≡ true
    → (release a
          (a.base + extent before + (arena_hdr + p.payload))
          (some (a.base + extent before))).1
        ≡ true
      × Tiled
          (release a
            (a.base + extent before + (arena_hdr + p.payload))
            (some (a.base + extent before))).0
          (before ++ join p (join (freed b) after))
unfolding Tiled Tiles released geometry_ok
release_inner a before p b after (g, t, u) used =
    let prev = a.base + extent before in
    let at = prev + (arena_hdr + p.payload) in
    let (t1, (here, w, t2)) = Tiles-cut a.head (arena_end a) before (p ∷ b ∷ after) a.base t in
    let pay = ap (λ x. x.payload) t2.0 in
    let (c, cs, shape, c_free) = join_shape (freed b) after in
    let h0 = put a.head at (freed (a.head at)) in
    let h1 = merge_next h0 (arena_end a) at in
    let h2 = merge_prev h1 (some prev) at in
    let low : (k : ℕ) → k < at → h1 k ≡ a.head k =
      λ k lt. merge_next_below h0 (arena_end a) at k lt ∙ ground arith in
    let tail : Tiles h1 (arena_end a) at (c ∷ cs) =
      subst (Tiles h1 (arena_end a) at) shape (forward a at b after t2) in
    let joined : Tiles h2 (arena_end a) prev (join p (join (freed b) after)) = rw shape (
      merge_prev-Tiles h1 (arena_end a) prev p c cs (low prev (omega arith) ∙ here, w, tail)
        c_free) in
    let front : Tiles h2 prev a.base before =
      Tiles-agree a.head h2 prev before a.base
        (λ k k_lo k_hi. merge_prev_below h1 prev at k (omega arith) k_hi ∙ low k (omega arith))
        t1 in
    let whole =
      Tiles-append h2 (arena_end a) before (join p (join (freed b) after)) a.base front joined in
    let total = in_use-inner before p b after used in
    rw (release_lem a at (some prev) (ap is_used t2.0 ∙ used) (omega (arith, u, total, pay)))
      (refl, (g, whole, omega (arith, u, total, pay)))

-- What `arena_free_block` of `ptr` does to an arena tiled by `bs`.
pub data Freed (a : Arena) (bs : List Header) (ptr : ℕ) (a' : Arena) (ok : Bool) : Type 0 where
  foreign : ok ≡ false → a' ≡ a → Absent ptr bs a.base → Freed a bs ptr a' ok
  not_live :
      (before : List Header) (b : Header) (after : List Header)
      → bs ≡ before ++ b ∷ after
      → ptr ≡ a.base + extent before + arena_hdr
      → is_used b ≡ false
      → ok ≡ false
      → a' ≡ a
      → Freed a bs ptr a' ok
  first_block :
      (b : Header) (after : List Header)
      → bs ≡ b ∷ after
      → ptr ≡ a.base + arena_hdr
      → is_used b ≡ true
      → ok ≡ true
      → Tiled a' (join (freed b) after)
      → Freed a bs ptr a' ok
  inner_block :
      (before : List Header) (p b : Header) (after : List Header)
      → bs ≡ before ++ p ∷ b ∷ after
      → ptr ≡ a.base + extent before + (arena_hdr + p.payload) + arena_hdr
      → is_used b ≡ true
      → ok ≡ true
      → Tiled a' (before ++ join p (join (freed b) after))
      → Freed a bs ptr a' ok

Absent-null : (bs : List Header) (cur : ℕ) → Absent 0 bs cur
unfolding Absent
Absent-null [] cur = tt
Absent-null (b ∷ bs) cur =
    ((λ e. absurd (omega arith)), Absent-null bs (cur + (arena_hdr + b.payload)))

free_block_null : (a : Arena) → free_block a 0 ≡ (a, false)
unfolding free_block
free_block_null a = refl

pub free_block_searches :
    (a : Arena) (ptr : ℕ) (o : Option (ℕ × Option ℕ))
    → (ptr == 0) ≡ false
    → layout_valid a ≡ true
    → find_payload a.size a.head (arena_end a) a.base none ptr ≡ o
    → free_block a ptr ≡ elim o [ none ↦ (a, false) | some (b, prev) ↦ release a b prev ]
unfolding free_block
free_block_searches a ptr o nonnull valid found = rw nonnull (rw valid (rw found refl))

free_first :
    (a : Arena) (bs : List Header) (ptr : ℕ) (b : Header) (after : List Header) (out : Arena × Bool)
    → Tiled a bs
    → bs ≡ b ∷ after
    → a.base + arena_hdr ≡ ptr
    → out ≡ release a a.base none
    → Freed a bs ptr out.0 out.1
unfolding Tiled Tiles extent
free_first a bs ptr b after out t e at is_out =
    let t' : Tiled a (b ∷ after) = subst (Tiled a) e t in
    elim (Bool-cases (is_used b)) [
      | inl u ↦
          let (fine, tiled) = release_first a b after t' u in
          Freed.first_block b after e (sym at) u (ap (λ x. x.1) is_out ∙ fine)
            (subst (λ x. Tiled x (join (freed b) after)) (sym (ap (λ x. x.0) is_out)) tiled)
      | inr u ↦
          let same = is_out ∙ release_refused a a.base none (ap is_used t'.1.0 ∙ u) in
          Freed.not_live [] b after e (omega (arith, at)) u (ap (λ x. x.1) same)
            (ap (λ x. x.0) same)
    ]

free_inner :
    (a : Arena) (bs : List Header) (ptr : ℕ) (before : List Header) (p b : Header)
    (after : List Header) (out : Arena × Bool)
    → Tiled a bs
    → bs ≡ before ++ p ∷ b ∷ after
    → a.base + extent before + (arena_hdr + p.payload) + arena_hdr ≡ ptr
    → out
      ≡ release a (a.base + extent before + (arena_hdr + p.payload)) (some (a.base + extent before))
    → Freed a bs ptr out.0 out.1
unfolding Tiled Tiles extent
free_inner a bs ptr before p b after out t e at is_out =
    let t' : Tiled a (before ++ p ∷ b ∷ after) = subst (Tiled a) e t in
    elim (Bool-cases (is_used b)) [
      | inl u ↦
          let (fine, tiled) = release_inner a before p b after t' u in
          Freed.inner_block before p b after e (sym at) u (ap (λ x. x.1) is_out ∙ fine) (
            subst (λ x. Tiled x (before ++ join p (join (freed b) after)))
              (sym (ap (λ x. x.0) is_out)) tiled)
      | inr u ↦
          let cut = (Tiles-cut a.head (arena_end a) before (p ∷ b ∷ after) a.base t'.1).1 in
          let same =
            is_out ∙ release_refused a _ (some (a.base + extent before)) (ap is_used cut.2.0 ∙ u) in
          Freed.not_live (before ++ p ∷ []) b after (e ∙ append_snoc before p (b ∷ after))
            (omega (arith, at, extent_snoc before p)) u (ap (λ x. x.1) same) (ap (λ x. x.0) same)
    ]

-- `arena_free_block` frees exactly the block whose payload starts at the pointer, if that block is
-- allocated: it answers true, and the block becomes free and one with each neighbour that is free.
-- A null, foreign or interior pointer, or a block that is free already, is answered false, and nothing
-- changes.
pub free_block-Freed :
    (a : Arena) (bs : List Header) (ptr : ℕ)
    → Tiled a bs
    → Freed a bs ptr (free_block a ptr).0 (free_block a ptr).1
unfolding Tiled
free_block-Freed a bs ptr (g, t, u) =
    let x = Tiles-extent a.head (arena_end a) bs a.base t in
    let l = length_le a.head (arena_end a) bs a.base t in
    let valid = (layout_valid_iff a).1 (bs, (g, t, u)) in
    elim (Bool-cases (ptr == 0)) [
      | inl null ↦
          let z : ptr ≡ 0 = ground (arith, null) in
          let same = ap (free_block a) z ∙ free_block_null a in
          Freed.foreign (ap (λ x. x.1) same) (ap (λ x. x.0) same) (rw z (Absent-null bs a.base))
      | inr nonnull ↦
          elim (find_payload-Located a.head (arena_end a) ptr a.size bs a.base none t
            (omega (arith, x, l))) [
              | Located.absent e all ↦
                  let same = free_block_searches a ptr none nonnull valid e in
                  Freed.foreign (ap (λ x. x.1) same) (ap (λ x. x.0) same) all
              | Located.at_start b after e at found ↦
                  free_first a bs ptr b after _ (g, t, u) e at
                    (free_block_searches a ptr _ nonnull valid found)
              | Located.inside before p b after e at found ↦
                  free_inner a bs ptr before p b after _ (g, t, u) e at
                    (free_block_searches a ptr _ nonnull valid found)
            ]
    ]
