-- ===== src/Arena/Moved.antt =====
-- `arena_free_block` of src/lxp_arena.c: the other allocated blocks stay, and no header is written into
-- their payloads.
use lxp.Common.{
  ℕ, ◌+◌, ◌≡◌, ◌≢◌, refl, sym, ◌∙◌, subst, inl, inr, Bool, false, Option, none, some, List, [], ◌∷◌,
  ◌++◌, arith, ◌==◌, not, ◌||◌, ltb, Bool-cases,
}
use lxp.Arena.{
  Arena, Header, arena_hdr, arena_end, is_used, free_block, release, find_payload, layout_valid,
}
use lxp.Arena.Tiles.{extent}
use lxp.Arena.Valid.{Tiled}
use lxp.Arena.Join.{join}
use lxp.Arena.Live.{Live, Live-cut, Live-append_left, Live-append_right}
use lxp.Arena.Free.{freed, Freed, free_block-Freed}

module _ (target n : ℕ) where
  Live-join :
      (b : Header) (bs : List Header) (cur : ℕ)
      → Live target n (b ∷ bs) cur
      → Live target n (join b bs) cur
  unfolding Live join
  Live-join b [] cur l = l
  Live-join b (c ∷ cs) cur l = elim (Bool-cases (is_used b || is_used c)) [
    | inl e ↦ rw e l
    | inr e ↦ rw e (elim l [
      | inl m ↦ absurd (ground (arith, e, m.1))
      | inr (inl m) ↦ absurd (ground (arith, e, m.1))
      | inr (inr m) ↦ inr (subst (Live target n cs) (omega arith) m)
    ])
  ]

  Live-other :
      (b : Header) (after : List Header) (cur : ℕ)
      → cur + arena_hdr ≢ target
      → Live target n (b ∷ after) cur
      → Live target n (join (freed b) after) cur
  unfolding Live
  Live-other b after cur ne (inl m) = absurd (ne m.0)
  Live-other b after cur ne (inr m) = Live-join (freed b) after cur (inr m)

  Live-other_inner :
      (before : List Header) (p b : Header) (after : List Header) (cur : ℕ)
      → cur + extent before + (arena_hdr + p.payload) + arena_hdr ≢ target
      → Live target n (before ++ p ∷ b ∷ after) cur
      → Live target n (before ++ join p (join (freed b) after)) cur
  unfolding Live
  Live-other_inner before p b after cur ne l =
      let rest = join (freed b) after in
      let from = cur + extent before in
      elim (Live-cut target n before (p ∷ b ∷ after) cur l) [
        | inl m ↦ Live-append_left target n before (join p rest) cur m
        | inr (inl m) ↦
            Live-append_right target n before (join p rest) cur (Live-join p rest from (inl m))
        | inr (inr m) ↦
            Live-append_right target n before (join p rest) cur (
              Live-join p rest from
                (inr (Live-other b after (from + (arena_hdr + p.payload)) ne m)))
      ]

release_base : (a : Arena) (b : ℕ) (prev : Option ℕ) → (release a b prev).0.base ≡ a.base
unfolding release
release_base a b prev =
    elim (Bool-cases (not (is_used (a.head b)) || ltb a.used (arena_hdr + (a.head b).payload))) [
      | inl e ↦ rw e refl
      | inr e ↦ rw e refl
    ]

given_back : Arena → Option (ℕ × Option ℕ) → Arena × Bool
given_back a o = elim o [ none ↦ (a, false) | some (b, prev) ↦ release a b prev ]

given_back_base : (a : Arena) (o : Option (ℕ × Option ℕ)) → (given_back a o).0.base ≡ a.base
unfolding given_back
given_back_base a none = refl
given_back_base a (some (b, prev)) = release_base a b prev

pub free_block_base : (a : Arena) (ptr : ℕ) → (free_block a ptr).0.base ≡ a.base
unfolding free_block given_back
free_block_base a ptr = elim (Bool-cases (ptr == 0 || not (layout_valid a))) [
  | inl e ↦ rw e refl
  | inr e ↦ rw e (given_back_base a (find_payload a.size a.head (arena_end a) a.base none ptr))
]

-- A release leaves every other allocated block.
pub free_block-Live :
    (a : Arena) (bs : List Header) (ptr target n : ℕ)
    → Tiled a bs
    → ptr ≢ target
    → Live target n bs a.base
    → (bs' : List Header) × Tiled (free_block a ptr).0 bs'
      × Live target n bs' (free_block a ptr).0.base
free_block-Live a bs ptr target n t ne l =
    let moved_base : (bs' : List Header)
        → Live target n bs' a.base
        → Live target n bs' (free_block a ptr).0.base =
      λ bs' m. subst (Live target n bs') (sym (free_block_base a ptr)) m in
    elim (free_block-Freed a bs ptr t) [
      | Freed.foreign fails same all ↦ (bs, subst (λ x. Tiled x bs) (sym same) t, moved_base bs l)
      | Freed.not_live before b after e at free fails same ↦
          (bs, subst (λ x. Tiled x bs) (sym same) t, moved_base bs l)
      | Freed.first_block b after e at used done tiled ↦ (
        join (freed b) after,
        tiled,
        moved_base (join (freed b) after) (
            Live-other target n b after a.base (λ f. ne (at ∙ f))
              (subst (λ x. Live target n x a.base) e l)),
      )
      | Freed.inner_block before p b after e at used done tiled ↦ (
        before ++ join p (join (freed b) after),
        tiled,
        moved_base (before ++ join p (join (freed b) after)) (
            Live-other_inner target n before p b after a.base (λ f. ne (at ∙ f))
              (subst (λ x. Live target n x a.base) e l)),
      )
    ]
