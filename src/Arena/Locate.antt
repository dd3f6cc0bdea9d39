-- ===== src/Arena/Locate.antt =====
-- `arena_find_payload` of src/lxp_arena.c over the list of blocks.
use lxp.Common.{
  ℕ, zero, suc, ◌+◌, ◌≤◌, ◌<◌, ◌≡◌, ◌≢◌, refl, ◌∙◌, ap, inl, inr, Option, none, some, List, [], ◌∷◌,
  ◌++◌, arith, ◌==◌, length, Bool-cases,
}
use lxp.Arena.{Header, arena_hdr, find_payload}
use lxp.Arena.Tiles.{Tiles, extent, Tiles-extent}

-- No block's payload starts at `target`.
unfoldable pub Absent : ℕ → List Header → ℕ → Type 0
Absent target [] cur = Unit
Absent target (b ∷ bs) cur =
    (cur + arena_hdr ≢ target) × Absent target bs (cur + (arena_hdr + b.payload))

-- What the search for `target` among `bs`, which start at `cur` behind the block `prev`, answers.
pub data Located (target cur : ℕ) (bs : List Header) (prev : Option ℕ) (o : Option (ℕ × Option ℕ))
    : Type 0 where
  absent : o ≡ none → Absent target bs cur → Located target cur bs prev o
  at_start :
      (b : Header) (after : List Header)
      → bs ≡ b ∷ after
      → cur + arena_hdr ≡ target
      → o ≡ some (cur, prev)
      → Located target cur bs prev o
  inside :
      (before : List Header) (p b : Header) (after : List Header)
      → bs ≡ before ++ p ∷ b ∷ after
      → cur + extent before + (arena_hdr + p.payload) + arena_hdr ≡ target
      → o ≡ some (cur + extent before + (arena_hdr + p.payload), some (cur + extent before))
      → Located target cur bs prev o

module _ (h : ℕ → Header) (last target : ℕ) where
  find_payload_stops :
      (n cur : ℕ) (prev : Option ℕ)
      → cur < last
      → cur + arena_hdr ≡ target
      → find_payload (suc n) h last cur prev target ≡ some (cur, prev)
  unfolding find_payload
  find_payload_stops n cur prev lt e = ground arith

  find_payload_goes :
      (n cur : ℕ) (prev : Option ℕ)
      → cur < last
      → cur + arena_hdr ≢ target
      → find_payload (suc n) h last cur prev target
        ≡ find_payload n h last (cur + (arena_hdr + (h cur).payload)) (some cur) target
  unfolding find_payload
  find_payload_goes n cur prev lt e = ground arith

  find_payload_ends : (n : ℕ) (prev : Option ℕ) → find_payload n h last last prev target ≡ none
  unfolding find_payload
  find_payload_ends zero prev = refl
  find_payload_ends (suc n) prev = ground arith

  Located-cons :
      (b : Header) (bs : List Header) (cur : ℕ) (prev : Option ℕ) (o : Option (ℕ × Option ℕ))
      → cur + arena_hdr ≢ target
      → Located target (cur + (arena_hdr + b.payload)) bs (some cur) o
      → Located target cur (b ∷ bs) prev o
  unfolding extent Absent
  Located-cons b bs cur prev o ne (Located.absent e all) = Located.absent e (ne, all)
  Located-cons b bs cur prev o ne (Located.at_start c after e at found) =
      Located.inside [] b c after (ap (◌∷◌ b) e) (omega (arith, at)) (ground (arith, found))
  Located-cons b bs cur prev o ne (Located.inside before p c after e at found) =
      Located.inside (b ∷ before) p c after (ap (◌∷◌ b) e) (omega (arith, at))
        (ground (arith, found))

  pub find_payload-Located :
      (n : ℕ) (bs : List Header) (cur : ℕ) (prev : Option ℕ)
      → Tiles h last cur bs
      → length bs ≤ n
      → Located target cur bs prev (find_payload n h last cur prev target)
  unfolding Tiles extent Absent
  find_payload-Located n [] cur prev t le =
      Located.absent (ap (λ c. find_payload n h last c prev target) t ∙ find_payload_ends n prev) tt
  find_payload-Located zero (b ∷ bs) cur prev t le = absurd (omega arith)
  find_payload-Located (suc n) (b ∷ bs) cur prev (at, w, t) le =
      let lt : cur < last =
        omega (arith, Tiles-extent h last bs (cur + (arena_hdr + b.payload)) t) in
      elim (Bool-cases (cur + arena_hdr == target)) [
        | inl f ↦
            rw (find_payload_stops n cur prev lt (ground (arith, f)))
              (Located.at_start b bs refl (ground (arith, f)) refl)
        | inr f ↦ rw (find_payload_goes n cur prev lt (ground (arith, f))) (
            rw at (
              Located-cons b bs cur prev _ (ground (arith, f)) (
                find_payload-Located n bs (cur + (arena_hdr + b.payload)) (some cur) t
                  (omega arith))))
      ]
