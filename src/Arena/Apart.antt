-- ===== src/Arena/Apart.antt =====
-- src/lxp_arena.c: the headers that an allocation and a release write stand outside the payloads of
-- allocated blocks.
use lxp.Common.{
  ℕ, ◌+◌, ◌-◌, ◌≤◌, ◌≡◌, sym, ap, subst, ◌⊎◌, inl, inr, Bool, false, Option, none, some, List, [],
  ◌∷◌, ◌++◌, arith, leb, ◌==◌, Bool-cases,
}
use lxp.Arena.{
  Arena, Header, arena_hdr, arena_end, is_used, word_max, needed, alloc, claim, split, free_block,
  release, merge_next, merge_prev,
}
use lxp.Arena.Tiles.{Tiles, extent, Tiles-extent, Tiles-cut, length_le, append_snoc, extent_snoc}
use lxp.Arena.Valid.{Tiled, layout_valid_iff}
use lxp.Arena.Fit.{Fit, find_fit-Fit}
use lxp.Arena.Alloc.{needed_lem, alloc_searches, sound_first}
use lxp.Arena.Live.{Live, Live-above, Live-cut}
use lxp.Arena.Locate.{Located, find_payload-Located}
use lxp.Arena.Free.{free_block_searches}

-- A header at `k` does not overlap the `n` payload bytes at `target`.
abbrev pub Outside : ℕ → ℕ → ℕ → Type 0
Outside target n k = (target + n ≤ k) ⊎ (k + arena_hdr ≤ target)

-- Every header that differs stands outside the `n` payload bytes at `target`.
abbrev pub Apart : (ℕ → Header) → (ℕ → Header) → ℕ → ℕ → Type 0
Apart h h' target n = (k : ℕ) → (h' k ≡ h k) ⊎ Outside target n k

module _ (target n : ℕ) where
  Live-end : (bs : List Header) (cur : ℕ) → Live target n bs cur → target + n ≤ cur + extent bs
  unfolding Live extent
  Live-end [] cur l = absurd l
  Live-end (b ∷ bs) cur (inl l) = omega (arith, l.0, l.2)
  Live-end (b ∷ bs) cur (inr l) = omega (arith, Live-end bs (cur + (arena_hdr + b.payload)) l)

  -- A place between two blocks is outside every allocated payload.
  Live-boundary :
      (xs ys : List Header) (cur : ℕ)
      → Live target n (xs ++ ys) cur
      → Outside target n (cur + extent xs)
  Live-boundary xs ys cur l = elim (Live-cut target n xs ys cur l) [
    | inl m ↦ inl (Live-end xs cur m)
    | inr m ↦ inr (Live-above target n ys (cur + extent xs) m)
  ]

  -- A free block lies as a whole outside of it.
  Live-free :
      (before : List Header) (b : Header) (after : List Header) (cur : ℕ)
      → is_used b ≡ false
      → Live target n (before ++ b ∷ after) cur
      → (target + n ≤ cur + extent before)
        ⊎ (cur + extent before + (arena_hdr + b.payload) + arena_hdr ≤ target)
  unfolding Live
  Live-free before b after cur free l = elim (Live-cut target n before (b ∷ after) cur l) [
    | inl m ↦ inl (Live-end before cur m)
    | inr (inl m) ↦ absurd (ground (arith, free, m.1))
    | inr (inr m) ↦
        inr (Live-above target n after (cur + extent before + (arena_hdr + b.payload)) m)
  ]

-- the places where `claim` writes headers
claim_heads :
    (a : Arena) (at need k : ℕ)
    → ((claim a at need).0.head k ≡ a.head k)
      ⊎ ((k ≡ at) ⊎ ((k ≡ at + arena_hdr + need) × (32 + need ≤ (a.head at).payload)))
unfolding claim split
claim_heads a at need k = elim (Bool-cases (k == at)) [
  | inl e ↦ inr (inl (ground (arith, e)))
  | inr e ↦ elim (Bool-cases (k == at + arena_hdr + need)) [
    | inl f ↦ elim (Bool-cases (leb 32 ((a.head at).payload - need))) [
      | inl g ↦ inr (inr (ground (arith, f), ground (arith, g)))
      | inr g ↦ inl (ground (arith, e, g))
    ]
    | inr f ↦ inl (ground (arith, e, f))
  ]
]

-- An allocation writes no header into an allocated payload.
pub alloc-Apart :
    (a : Arena) (bs : List Header) (size target n : ℕ)
    → Tiled a bs
    → size ≤ word_max - 15
    → Live target n bs a.base
    → Apart a.head (alloc a size).0.head target n
unfolding Tiled Tiles
alloc-Apart a bs size target n (g, t, u) small l k =
    let valid = (layout_valid_iff a).1 (bs, (g, t, u)) in
    let (enough, lo, hi, mult) = needed_lem size small in
    let x = Tiles-extent a.head (arena_end a) bs a.base t in
    let le = length_le a.head (arena_end a) bs a.base t in
    let roomy : (needed size == 0) ≡ false = ground (arith, lo) in
    let first = sound_first a g in
    elim (find_fit-Fit a.head (arena_end a) (needed size) a.size bs a.base t
      (omega (arith, x, le))) [
        | Fit.no_fit e all ↦ inl (
            ap (λ (p : Arena × Option ℕ). p.0.head k)
              (alloc_searches a size none first valid roomy e))
        | Fit.first_fit before b after e all f at ↦
            let from = a.base + extent before in
            let found = alloc_searches a size (some from) first valid roomy at in
            let t' = subst (Tiles a.head (arena_end a) a.base) e t in
            let here = (Tiles-cut a.head (arena_end a) before (b ∷ after) a.base t').1 in
            let pay = ap (λ (h : Header). h.payload) here.0 in
            let out =
              Live-free target n before b after a.base (ground (arith, f))
                (subst (λ y. Live target n y a.base) e l) in
            subst (λ (p : Arena × Option ℕ). (p.0.head k ≡ a.head k) ⊎ Outside target n k)
              (sym found)
              (elim (claim_heads a from (needed size) k) [
                | inl same ↦ inl same
                | inr (inl is) ↦ inr (elim out [
                  | inl o ↦ inl (omega (arith, o, is))
                  | inr o ↦ inr (omega (arith, o, is))
                ])
                | inr (inr (is, cut)) ↦ inr (elim out [
                  | inl o ↦ inl (omega (arith, o, is))
                  | inr o ↦ inr (omega (arith, o, is, cut, pay))
                ])
              ])
      ]

release_other :
    (a : Arena) (at k : ℕ)
    → (k == at) ≡ false
    → (k == at + (arena_hdr + (a.head at).payload)) ≡ false
    → (release a at none).0.head k ≡ a.head k
unfolding release merge_next merge_prev
release_other a at k e f = ground (arith, e, f)

release_other_behind :
    (a : Arena) (at prev k : ℕ)
    → (k == at) ≡ false
    → (k == at + (arena_hdr + (a.head at).payload)) ≡ false
    → (k == prev) ≡ false
    → (release a at (some prev)).0.head k ≡ a.head k
unfolding release merge_next merge_prev
release_other_behind a at prev k e f g = ground (arith, e, f, g)

release_elsewhere :
    (a : Arena) (at k : ℕ) (prev : Option ℕ)
    → (k == at) ≡ false
    → (k == at + (arena_hdr + (a.head at).payload)) ≡ false
    → ((release a at prev).0.head k ≡ a.head k) ⊎ (prev ≡ some k)
release_elsewhere a at k none e f = inl (release_other a at k e f)
release_elsewhere a at k (some prev) e f = elim (Bool-cases (k == prev)) [
  | inl g ↦ inr (ap some (ground (arith, g)))
  | inr g ↦ inl (release_other_behind a at prev k e f g)
]

-- the places where `release` writes headers
release_heads :
    (a : Arena) (at k : ℕ) (prev : Option ℕ)
    → ((release a at prev).0.head k ≡ a.head k)
      ⊎ ((k ≡ at) ⊎ ((k ≡ at + (arena_hdr + (a.head at).payload)) ⊎ (prev ≡ some k)))
release_heads a at k prev = elim (Bool-cases (k == at)) [
  | inl e ↦ inr (inl (ground (arith, e)))
  | inr e ↦ elim (Bool-cases (k == at + (arena_hdr + (a.head at).payload))) [
    | inl f ↦ inr (inr (inl (ground (arith, f))))
    | inr f ↦ elim (release_elsewhere a at k prev e f) [
      | inl same ↦ inl same
      | inr is ↦ inr (inr (inr is))
    ]
  ]
]

-- A release writes no header into an allocated payload, when the places that it may write are outside.
release-Apart :
    (a : Arena) (at : ℕ) (prev : Option ℕ) (target n : ℕ)
    → Outside target n at
    → Outside target n (at + (arena_hdr + (a.head at).payload))
    → ((k : ℕ) → prev ≡ some k → Outside target n k)
    → Apart a.head (release a at prev).0.head target n
release-Apart a at prev target n own next before k = elim (release_heads a at k prev) [
  | inl same ↦ inl same
  | inr (inl is) ↦ inr (subst (Outside target n) (sym is) own)
  | inr (inr (inl is)) ↦ inr (subst (Outside target n) (sym is) next)
  | inr (inr (inr is)) ↦ inr (before k is)
]

-- A release writes no header into an allocated payload.
pub free_block-Apart :
    (a : Arena) (bs : List Header) (ptr target n : ℕ)
    → Tiled a bs
    → (ptr == 0) ≡ false
    → Live target n bs a.base
    → Apart a.head (free_block a ptr).0.head target n
unfolding Tiled Tiles extent
free_block-Apart a bs ptr target n (g, t, u) nonnull l k =
    let x = Tiles-extent a.head (arena_end a) bs a.base t in
    let le = length_le a.head (arena_end a) bs a.base t in
    let valid = (layout_valid_iff a).1 (bs, (g, t, u)) in
    let there = λ (p : Arena × Bool). (p.0.head k ≡ a.head k) ⊎ Outside target n k in
    elim (find_payload-Located a.head (arena_end a) ptr a.size bs a.base none t
      (omega (arith, x, le))) [
        | Located.absent e all ↦
            inl (
              ap (λ (p : Arena × Bool). p.0.head k)
                (free_block_searches a ptr none nonnull valid e))
        | Located.at_start b after e at found ↦
            let t' = subst (Tiles a.head (arena_end a) a.base) e t in
            let l' = subst (λ y. Live target n y a.base) e l in
            let pay = ap (λ (h : Header). h.payload) t'.0 in
            subst there (sym (free_block_searches a ptr _ nonnull valid found)) (
              release-Apart a a.base none target n
                (subst (Outside target n) (omega arith)
                  (Live-boundary target n [] (b ∷ after) a.base l'))
                (subst (Outside target n) (omega (arith, pay))
                  (Live-boundary target n (b ∷ []) after a.base l'))
                (λ j f. absurd (ground (arith, f))) k)
        | Located.inside before p b after e at found ↦
            let t' = subst (Tiles a.head (arena_end a) a.base) e t in
            let here = (Tiles-cut a.head (arena_end a) before (p ∷ b ∷ after) a.base t').1 in
            let l' = subst (λ y. Live target n y a.base) e l in
            let l1 = subst (λ y. Live target n y a.base) (append_snoc before p (b ∷ after)) l' in
            let l2 =
              subst (λ y. Live target n y a.base) (append_snoc (before ++ p ∷ []) b after) l1 in
            let e1 = extent_snoc before p in
            let e2 = extent_snoc (before ++ p ∷ []) b in
            let pay = ap (λ (h : Header). h.payload) here.2.0 in
            subst there (sym (free_block_searches a ptr _ nonnull valid found)) (
              release-Apart a (a.base + extent before + (arena_hdr + p.payload))
                (some (a.base + extent before)) target n
                (subst (Outside target n) (omega (arith, e1))
                  (Live-boundary target n (before ++ p ∷ []) (b ∷ after) a.base l1))
                (subst (Outside target n) (omega (arith, e1, e2, pay))
                  (Live-boundary target n ((before ++ p ∷ []) ++ b ∷ []) after a.base l2))
                (λ j f.
                  subst (Outside target n) (ground (arith, f))
                    (Live-boundary target n before (p ∷ b ∷ after) a.base l'))
                k)
      ]
