-- ===== src/Arena/Kept.antt =====
-- What the steps of `lxp_arena_realloc` in src/lxp_arena.c leave of the arena: its place, its bytes and
-- its allocated blocks.
use lxp.Common.{
  ℕ, ◌+◌, ◌-◌, ◌≤◌, ◌≡◌, ◌≢◌, refl, sym, ◌∙◌, ap, subst, inl, inr, Bool, false, Option, none, some,
  List, ◌++◌, arith, ltb, leb, ◌==◌, ◌&&◌, ◌||◌, not, Bool-cases,
}
use lxp.Common.Bytes.{Memory}
use lxp.Arena.{
  Arena, Header, arena_hdr, arena_end, is_used, word_max, needed, layout_valid, find_payload,
  find_fit, split, claim, alloc, release, free_block,
}
use lxp.Arena.Mappings.{grow}
use lxp.Arena.Valid.{Tiled}
use lxp.Arena.Fit.{pieces}
use lxp.Arena.Alloc.{taken, needed_lem, Placed, alloc-Placed}
use lxp.Arena.Tiles.{extent}
use lxp.Arena.Live.{Live, Live-pieces, Live-at, Live-append_right}

-- What an allocation leaves of an arena: its place and its bytes.
pub record Same (a a' : Arena) : Type 0 where
  pub base : a'.base ≡ a.base
  pub bytes : a'.bytes ≡ a.bytes

claim-Same : (a : Arena) (b need : ℕ) → Same a (claim a b need).0
unfolding claim
claim-Same a b need =
    let h = split a.head b (a.head b).payload need in
    let footprint = arena_hdr + (h b).payload in
    elim (Bool-cases (ltb (a.size - footprint) a.used)) [
      | inl e ↦ rw e (record { base = refl; bytes = refl })
      | inr e ↦ rw e (record { base = refl; bytes = refl })
    ]

claimed : Arena → ℕ → Option ℕ → Arena × Option ℕ
claimed a need o = elim o [ none ↦ (a, none) | some b ↦ claim a b need ]

claimed-Same : (a : Arena) (need : ℕ) (o : Option ℕ) → Same a (claimed a need o).0
unfolding claimed
claimed-Same a need none = record { base = refl; bytes = refl }
claimed-Same a need (some b) = claim-Same a b need

pub alloc-Same : (a : Arena) (size : ℕ) → Same a (alloc a size).0
unfolding alloc claimed
alloc-Same a size = elim (Bool-cases (a.first == 0 || not (layout_valid a) || needed size == 0)) [
  | inl e ↦ rw e (record { base = refl; bytes = refl })
  | inr e ↦
      rw e
        (claimed-Same a (needed size) (find_fit a.size a.head (arena_end a) a.base (needed size)))
]

-- An allocation leaves the allocated blocks, and answers NULL only if it changed nothing.
pub alloc-Live :
    (a : Arena) (bs : List Header) (size target n : ℕ)
    → Tiled a bs
    → size ≤ word_max - 15
    → Live target n bs a.base
    → ((alloc a size).1 ≡ none → (alloc a size).0 ≡ a)
      × ((bs' : List Header) × Tiled (alloc a size).0 bs' × Live target n bs' (alloc a size).0.base)
alloc-Live a bs size target n t small l = elim (alloc-Placed a bs size t small) [
  | Placed.full none_found same all ↦ (
    λ e. same,
    (
      bs,
      subst (λ x. Tiled x bs) (sym same) t,
      subst (λ (x : Arena). Live target n bs x.base) (sym same) l,
    ),
  )
  | Placed.placed before b after e small_before f at tiled ↦ (
    λ e. absurd (ground (arith, at, e)),
    (
      before ++ (pieces (taken b) (needed size) ++ after),
      tiled,
      subst (Live target n (before ++ (pieces (taken b) (needed size) ++ after)))
          (sym (alloc-Same a size).base)
          (Live-pieces target n before b after (needed size) a.base f
            (subst (λ x. Live target n x a.base) e l)),
    ),
  )
]

Live-new :
    (before : List Header) (b : Header) (after : List Header) (size need cur : ℕ)
    → size ≤ need
    → need ≤ b.payload
    → Live (cur + extent before + arena_hdr) size (before ++ (pieces (taken b) need ++ after)) cur
unfolding pieces Live
Live-new before b after size need cur enough le =
    let target = cur + extent before + arena_hdr in
    Live-append_right target size before (pieces (taken b) need ++ after) cur
      (elim (Bool-cases (leb 32 (b.payload - need))) [
        | inl e ↦ rw e (inl (refl, refl, enough))
        | inr e ↦ rw e (inl (refl, refl, omega (arith, enough, le)))
      ])

-- An allocation that succeeds gives another block, of the size that was asked for or more, beside those
-- that are allocated.
pub alloc-New :
    (a : Arena) (bs : List Header) (size target n q : ℕ)
    → Tiled a bs
    → size ≤ word_max - 15
    → Live target n bs a.base
    → (alloc a size).1 ≡ some q
    → (bs' : List Header) × Tiled (alloc a size).0 bs'
      × Live target n bs' (alloc a size).0.base
      × Live q size bs' (alloc a size).0.base
      × (target ≢ q)
alloc-New a bs size target n q t small l got = elim (alloc-Placed a bs size t small) [
  | Placed.full none_found same all ↦ absurd (ground (arith, none_found, got))
  | Placed.placed before b after e small_before f at tiled ↦
      let bs' = before ++ (pieces (taken b) (needed size) ++ after) in
      let l' = subst (λ x. Live target n x a.base) e l in
      let is : a.base + extent before + arena_hdr ≡ q = ground (arith, at, got) in
      let same_base = sym (alloc-Same a size).base in
      (
        bs',
        tiled,
        subst (Live target n bs') same_base
            (Live-pieces target n before b after (needed size) a.base f l'),
        subst (Live q size bs') same_base (
            subst (λ x. Live x size bs' a.base) is
              (Live-new before b after size (needed size) a.base (needed_lem size small).0
                (ground (arith, f)))),
        λ same.
            (let (used, big) = Live-at target n before b after a.base (is ∙ sym same) l' in
              absurd (ground (arith, f, used))),
      )
]

-- An allocation of `size` bytes that succeeds gives an allocated block with as many bytes or more.
pub alloc-Holds :
    (a : Arena) (bs : List Header) (size : ℕ)
    → Tiled a bs
    → size ≤ word_max - 15
    → ((alloc a size).1 ≡ none → (alloc a size).0 ≡ a)
      × ((q : ℕ)
          → (alloc a size).1 ≡ some q
          → (bs' : List Header) × Tiled (alloc a size).0 bs'
            × Live q size bs' (alloc a size).0.base)
alloc-Holds a bs size t small = elim (alloc-Placed a bs size t small) [
  | Placed.full none_found same all ↦ (λ e. same, λ q got. absurd (ground (arith, none_found, got)))
  | Placed.placed before b after e small_before f at tiled ↦
      let bs' = before ++ (pieces (taken b) (needed size) ++ after) in
      (
        λ f. absurd (ground (arith, at, f)),
        λ q got.
            (let is : a.base + extent before + arena_hdr ≡ q = ground (arith, at, got) in
              (
                bs',
                tiled,
                subst (Live q size bs') (sym (alloc-Same a size).base) (
                    subst (λ x. Live x size bs' a.base) is
                      (Live-new before b after size (needed size) a.base (needed_lem size small).0
                        (ground (arith, f)))),
              )),
      )
]

release_bytes : (a : Arena) (b : ℕ) (prev : Option ℕ) → (release a b prev).0.bytes ≡ a.bytes
unfolding release
release_bytes a b prev =
    elim (Bool-cases (not (is_used (a.head b)) || ltb a.used (arena_hdr + (a.head b).payload))) [
      | inl e ↦ rw e refl
      | inr e ↦ rw e refl
    ]

released : Arena → Option (ℕ × Option ℕ) → Arena × Bool
released a o = elim o [ none ↦ (a, false) | some (b, prev) ↦ release a b prev ]

released_bytes : (a : Arena) (o : Option (ℕ × Option ℕ)) → (released a o).0.bytes ≡ a.bytes
unfolding released
released_bytes a none = refl
released_bytes a (some (b, prev)) = release_bytes a b prev

pub free_block_bytes : (a : Arena) (ptr : ℕ) → (free_block a ptr).0.bytes ≡ a.bytes
unfolding free_block released
free_block_bytes a ptr = elim (Bool-cases (ptr == 0 || not (layout_valid a))) [
  | inl e ↦ rw e refl
  | inr e ↦ rw e (released_bytes a (find_payload a.size a.head (arena_end a) a.base none ptr))
]

bytes_of : Memory → Option Arena → Memory
bytes_of m none = m
bytes_of m (some a) = a.bytes

pub grow_bytes :
    (a : Arena) (b need size : ℕ) (a' : Arena) → grow a b need size ≡ some a' → a'.bytes ≡ a.bytes
unfolding grow bytes_of
grow_bytes a b need size a' e =
    let old = (a.head b).payload in
    let next = b + (arena_hdr + old) in
    let room =
      ltb next (arena_end a)
      && not (is_used (a.head next))
      && leb need (old + (arena_hdr + (a.head next).payload)) in
    let same : bytes_of a.bytes (grow a b need size) ≡ a.bytes = elim (Bool-cases room) [
      | inl f ↦ rw f refl
      | inr f ↦ rw f refl
    ] in
    ap (bytes_of a.bytes) (sym e) ∙ same
