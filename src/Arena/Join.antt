-- ===== src/Arena/Join.antt =====
-- The two coalescing steps of `arena_free_block` of src/lxp_arena.c on the list of blocks.
use lxp.Common.{
  ℕ, ◌+◌, ◌<◌, ◌≡◌, refl, sym, ◌∙◌, ap, ap₂, subst, inl, inr, true, false, some, List, [], ◌∷◌,
  arith, ltb, ◌&&◌, ◌||◌, not, ◌⊎◌, if◌then◌else◌, Bool-cases,
}
use lxp.Arena.{Header, arena_hdr, is_used, merge_next, merge_prev}
use lxp.Arena.Tiles.{WellFormed, Tiles, in_use, Tiles-extent, Tiles-agree}

-- the block `b` with the bytes of the block `c` behind it
abbrev pub absorb : Header → Header → Header
absorb b c = record b { payload = b.payload + (arena_hdr + c.payload) }

-- A block before others: two free neighbours become one.
unfoldable pub join : Header → List Header → List Header
join b [] = b ∷ []
join b (c ∷ cs) = if is_used b || is_used c then b ∷ c ∷ cs else absorb b c ∷ cs

pub in_use-join : (b : Header) (bs : List Header) → in_use (join b bs) ≡ in_use (b ∷ bs)
unfolding join in_use
in_use-join b [] = refl
in_use-join b (c ∷ cs) = ground arith

pub WellFormed-absorb : (b c : Header) → WellFormed b → WellFormed c → WellFormed (absorb b c)
unfolding WellFormed
WellFormed-absorb b c v w = (v.0, v.1, ground (arith, v, w), ground (arith, v, w))

-- Headers with the larger payload at `at`, and as they were beyond the two blocks.
absorb-Tiles :
    (h h' : ℕ → Header) (last : ℕ) (b c : Header) (cs : List Header) (at : ℕ)
    → Tiles h last at (b ∷ c ∷ cs)
    → h' at ≡ absorb b c
    → ((k : ℕ) → at + (arena_hdr + b.payload) < k → h' k ≡ h k)
    → Tiles h' last at (absorb b c ∷ cs)
unfolding Tiles
absorb-Tiles h h' last b c cs at (e, v, (f, w, t)) here same = (
  here,
  WellFormed-absorb b c v w,
  subst (λ x. Tiles h' last x cs) (omega arith)
      (Tiles-agree h h' last cs (at + (arena_hdr + b.payload) + (arena_hdr + c.payload))
        (λ k lo hi. same k (omega arith)) t),
)

module _ (h : ℕ → Header) (last at : ℕ) where
  next_of : ℕ
  next_of = at + (arena_hdr + (h at).payload)

  merge_next_keep :
      (ltb next_of last && not (is_used (h next_of))) ≡ false → merge_next h last at ≡ h
  unfolding merge_next next_of
  merge_next_keep e = ground (arith, e)

  merge_next_at :
      (ltb next_of last && not (is_used (h next_of))) ≡ true
      → merge_next h last at at ≡ absorb (h at) (h next_of)
  unfolding merge_next next_of
  merge_next_at e = ground (arith, e)

  merge_next_other : (k : ℕ) → k < at ⊎ next_of < k → merge_next h last at k ≡ h k
  unfolding merge_next next_of
  merge_next_other k (inl lt) = ground arith
  merge_next_other k (inr lt) = ground arith

-- Coalescing forward.
pub merge_next-Tiles :
    (h : ℕ → Header) (last at : ℕ) (b : Header) (after : List Header)
    → Tiles h last at (b ∷ after)
    → is_used b ≡ false
    → Tiles (merge_next h last at) last at (join b after)
unfolding Tiles join next_of
merge_next-Tiles h last at b [] (e, w, t) free =
    subst (λ x. Tiles x last at (b ∷ [])) (sym (merge_next_keep h last at (ground (arith, e, t))))
      (e, w, t)
merge_next-Tiles h last at b (c ∷ cs) (e, v, (f, w, t)) free =
    let rest = Tiles-extent h last cs (at + (arena_hdr + b.payload) + (arena_hdr + c.payload)) t in
    let nx : next_of h last at ≡ at + (arena_hdr + b.payload) =
      ap (λ x. at + (arena_hdr + x.payload)) e in
    let hc : h (next_of h last at) ≡ c = ap h nx ∙ f in
    let inside : next_of h last at < last = omega (arith, nx, rest) in
    elim (Bool-cases (is_used c)) [
      | inl u ↦ rw free (
          rw u (
            subst (λ x. Tiles x last at (b ∷ c ∷ cs))
              (sym (merge_next_keep h last at (ground (arith, ap is_used hc ∙ u))))
              (e, v, (f, w, t))))
      | inr u ↦ rw free (
          rw u (
            absorb-Tiles h (merge_next h last at) last b c cs at (e, v, (f, w, t))
              (merge_next_at h last at (ground (arith, inside, ap is_used hc ∙ u))
                ∙ ap₂ absorb e hc)
              (λ k lo. merge_next_other h last at k (inr (ground (arith, nx, lo))))))
    ]

module _ (h : ℕ → Header) (prev at : ℕ) where
  merge_prev_keep : is_used (h prev) ≡ true → merge_prev h (some prev) at ≡ h
  unfolding merge_prev
  merge_prev_keep e = ground (arith, e)

  merge_prev_at :
      is_used (h prev) ≡ false
      → prev < at
      → merge_prev h (some prev) at prev ≡ absorb (h prev) (h at)
  unfolding merge_prev
  merge_prev_at e lt = ground (arith, e)

  merge_prev_other : (k : ℕ) → prev < at → k < prev ⊎ at < k → merge_prev h (some prev) at k ≡ h k
  unfolding merge_prev
  merge_prev_other k lt (inl l) = ground arith
  merge_prev_other k lt (inr l) = ground arith

-- Coalescing backward.
pub merge_prev-Tiles :
    (h : ℕ → Header) (last prev : ℕ) (p b : Header) (after : List Header)
    → Tiles h last prev (p ∷ b ∷ after)
    → is_used b ≡ false
    → Tiles
        (merge_prev h (some prev) (prev + (arena_hdr + p.payload)))
        last
        prev
        (join p (b ∷ after))
unfolding Tiles join
merge_prev-Tiles h last prev p b after (e, v, (f, w, t)) free =
    let at = prev + (arena_hdr + p.payload) in
    let lt : prev < at = omega arith in
    elim (Bool-cases (is_used p)) [
      | inl u ↦ rw u (
          subst (λ x. Tiles x last prev (p ∷ b ∷ after))
            (sym (merge_prev_keep h prev at (ap is_used e ∙ u))) (e, v, (f, w, t)))
      | inr u ↦ rw u (
          rw free (
            absorb-Tiles h (merge_prev h (some prev) at) last p b after prev (e, v, (f, w, t))
              (merge_prev_at h prev at (ap is_used e ∙ u) lt ∙ ap₂ absorb e f)
              (λ k lo. merge_prev_other h prev at k lt (inr lo))))
    ]

-- No write of the two steps falls below the first block that they touch.
pub merge_next_below : (h : ℕ → Header) (last at k : ℕ) → k < at → merge_next h last at k ≡ h k
merge_next_below h last at k lt = merge_next_other h last at k (inl lt)

pub merge_prev_below :
    (h : ℕ → Header) (prev at k : ℕ) → prev < at → k < prev → merge_prev h (some prev) at k ≡ h k
merge_prev_below h prev at k lt l = merge_prev_other h prev at k lt (inl l)
