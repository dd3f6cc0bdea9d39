-- ===== src/Arena/Fit.antt =====
-- The first-fit search of src/lxp_arena.c over the list of blocks, and the cut of the block found.
use lxp.Common.{
  ℕ, zero, suc, ◌+◌, ◌-◌, ◌%◌, ◌≤◌, ◌<◌, ◌≡◌, refl, ◌∙◌, ap, subst, inl, inr, Bool, true, false,
  Option, none, some, List, [], ◌∷◌, ◌++◌, arith, leb, ◌&&◌, not, if◌then◌else◌, length, Bool-cases,
  All,
}
use lxp.Arena.{Header, arena_hdr, is_used, free_block_of, find_fit}
use lxp.Arena.Tiles.{WellFormed, Tiles, extent, Tiles-extent, Tiles-agree}

-- the test that the search makes of a block
abbrev pub fits : ℕ → Header → Bool
fits need b = not (is_used b) && leb need b.payload

abbrev pub TooSmall : ℕ → Header → Type 0
TooSmall need b = fits need b ≡ false

-- What a search among `bs`, which start at `cur`, answers.
pub data Fit (need cur : ℕ) (bs : List Header) (o : Option ℕ) : Type 0 where
  no_fit : o ≡ none → All (TooSmall need) bs → Fit need cur bs o
  first_fit :
      (before : List Header) (b : Header) (after : List Header)
      → bs ≡ before ++ b ∷ after
      → All (TooSmall need) before
      → fits need b ≡ true
      → o ≡ some (cur + extent before)
      → Fit need cur bs o

module _ (h : ℕ → Header) (last need : ℕ) where
  find_fit_stops :
      (n cur : ℕ)
      → cur < last
      → fits need (h cur) ≡ true
      → find_fit (suc n) h last cur need ≡ some cur
  unfolding find_fit
  find_fit_stops n cur lt e = ground arith

  find_fit_goes :
      (n cur : ℕ)
      → cur < last
      → fits need (h cur) ≡ false
      → find_fit (suc n) h last cur need
        ≡ find_fit n h last (cur + (arena_hdr + (h cur).payload)) need
  unfolding find_fit
  find_fit_goes n cur lt e = ground arith

  find_fit_ends : (n : ℕ) → find_fit n h last last need ≡ none
  unfolding find_fit
  find_fit_ends zero = refl
  find_fit_ends (suc n) = ground arith

  pub Fit-cons :
      (b : Header) (bs : List Header) (cur : ℕ) (o : Option ℕ)
      → fits need b ≡ false
      → Fit need (cur + (arena_hdr + b.payload)) bs o
      → Fit need cur (b ∷ bs) o
  unfolding extent
  Fit-cons b bs cur o small (Fit.no_fit e all) = Fit.no_fit e (small, all)
  Fit-cons b bs cur o small (Fit.first_fit before c after e all f at) =
      Fit.first_fit (b ∷ before) c after (ap (◌∷◌ b) e) (small, all) f (at ∙ ap some (omega arith))

  pub find_fit-Fit :
      (n : ℕ) (bs : List Header) (cur : ℕ)
      → Tiles h last cur bs
      → length bs ≤ n
      → Fit need cur bs (find_fit n h last cur need)
  unfolding Tiles extent
  find_fit-Fit n [] cur t le =
      Fit.no_fit (ap (λ c. find_fit n h last c need) t ∙ find_fit_ends n) tt
  find_fit-Fit zero (b ∷ bs) cur t le = absurd (omega arith)
  find_fit-Fit (suc n) (b ∷ bs) cur (at, w, t) le =
      let lt : cur < last =
        omega (arith, Tiles-extent h last bs (cur + (arena_hdr + b.payload)) t) in
      elim (Bool-cases (fits need b)) [
        | inl f ↦
            rw (find_fit_stops n cur lt (ap (fits need) at ∙ f))
              (Fit.first_fit [] b bs refl tt f (ap some (omega arith)))
        | inr f ↦ rw (find_fit_goes n cur lt (ap (fits need) at ∙ f)) (
            rw at (
              Fit-cons b bs cur _ f
                (find_fit-Fit n bs (cur + (arena_hdr + b.payload)) t (omega arith))))
      ]

-- The blocks that the block `b` is cut into.
unfoldable pub pieces : Header → ℕ → List Header
pieces b need =
    if leb 32 (b.payload - need)
    then record b { payload = need } ∷ free_block_of (b.payload - need - arena_hdr) ∷ []
    else b ∷ []

-- Headers that are those of the pieces, and otherwise as they were, tile the block's bytes.
pub pieces-Tiles :
    (h h' : ℕ → Header) (last : ℕ) (after : List Header) (at need : ℕ) (b : Header)
    → WellFormed b
    → 16 ≤ need
    → need % 16 ≡ 0
    → need ≤ b.payload
    → (leb 32 (b.payload - need) ≡ true
        → (h' at ≡ record b { payload = need })
          × (h' (at + (arena_hdr + need)) ≡ free_block_of (b.payload - need - arena_hdr)))
    → (leb 32 (b.payload - need) ≡ false → h' at ≡ b)
    → ((k : ℕ) → at + (arena_hdr + b.payload) ≤ k → h' k ≡ h k)
    → Tiles h last (at + (arena_hdr + b.payload)) after
    → Tiles h' last at (pieces b need ++ after)
unfolding Tiles pieces WellFormed
pieces-Tiles h h' last after at need b w lo mult le two one same t =
    let t' =
      Tiles-agree h h' last after (at + (arena_hdr + b.payload)) (λ k k_lo k_hi. same k k_lo) t in
    elim (Bool-cases (leb 32 (b.payload - need))) [
      | inl s ↦
          let e : at + (arena_hdr + b.payload)
              ≡ at + (arena_hdr + need) + (arena_hdr + (b.payload - need - arena_hdr)) =
            ground arith in
          rw s (
            (two s).0,
            (w.0, w.1, lo, mult),
            (
              (two s).1,
              (refl, omega arith, ground arith, ground (arith, w)),
              subst (λ c. Tiles h' last c after) e t',
            ),
          )
      | inr s ↦ rw s (one s, w, t')
    ]
