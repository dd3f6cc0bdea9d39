-- ===== src/Arena/Tiles.antt =====
-- The blocks of a region of src/lxp_arena.c as a list, and what a write to a header does to it.
use lxp.Common.{
  ℕ, ◌+◌, ◌%◌, ◌≤◌, ◌<◌, ◌≡◌, refl, sym, ◌∙◌, ap, subst, inl, inr, List, [], ◌∷◌, ◌++◌, arith,
  if◌then◌else◌, ◌⊎◌, length,
}
use lxp.Arena.{Header, arena_magic, arena_hdr, put, is_used}

-- A header that the code accepts.
unfoldable pub WellFormed : Header → Type 0
WellFormed b = (b.magic ≡ arena_magic) × (b.is_free ≤ 1) × (16 ≤ b.payload) × (b.payload % 16 ≡ 0)

-- The blocks `bs` tile the addresses from `cur` to `last`.
unfoldable pub Tiles : (ℕ → Header) → ℕ → ℕ → List Header → Type 0
Tiles h last cur [] = cur ≡ last
Tiles h last cur (b ∷ bs) =
    (h cur ≡ b) × WellFormed b × Tiles h last (cur + (arena_hdr + b.payload)) bs

-- the bytes that blocks take, and those that allocated blocks take
unfoldable pub extent : List Header → ℕ
extent [] = 0
extent (b ∷ bs) = arena_hdr + b.payload + extent bs

unfoldable pub in_use : List Header → ℕ
in_use [] = 0
in_use (b ∷ bs) = (if is_used b then arena_hdr + b.payload else 0) + in_use bs

pub in_use_le : (bs : List Header) → in_use bs ≤ extent bs
unfolding in_use extent
in_use_le [] = omega arith
in_use_le (b ∷ bs) = ground (arith, in_use_le bs)

pub in_use-append : (xs ys : List Header) → in_use (xs ++ ys) ≡ in_use xs + in_use ys
unfolding in_use
in_use-append [] ys = omega arith
in_use-append (b ∷ xs) ys = ground (arith, in_use-append xs ys)

pub Tiles-extent :
    (h : ℕ → Header) (last : ℕ) (bs : List Header) (cur : ℕ)
    → Tiles h last cur bs
    → cur + extent bs ≡ last
unfolding extent Tiles
Tiles-extent h last [] cur t = omega (arith, t)
Tiles-extent h last (b ∷ bs) cur t =
    omega (arith, Tiles-extent h last bs (cur + (arena_hdr + b.payload)) t.2)

-- Fuel: there are no more blocks than bytes, less one at least for each.
pub length_le :
    (h : ℕ → Header) (last : ℕ) (bs : List Header) (cur : ℕ)
    → Tiles h last cur bs
    → length bs ≤ extent bs
unfolding extent Tiles
length_le h last [] cur t = omega arith
length_le h last (b ∷ bs) cur t =
    omega (arith, length_le h last bs (cur + (arena_hdr + b.payload)) t.2)

-- Headers outside the tiled addresses do not matter.
pub Tiles-agree :
    (h h' : ℕ → Header) (last : ℕ) (bs : List Header) (cur : ℕ)
    → ((k : ℕ) → cur ≤ k → k < last → h' k ≡ h k)
    → Tiles h last cur bs
    → Tiles h' last cur bs
unfolding Tiles
Tiles-agree h h' last [] cur e t = t
Tiles-agree h h' last (b ∷ bs) cur e (at, ok, t) =
    let room : cur < last =
      omega (arith, Tiles-extent h last bs (cur + (arena_hdr + b.payload)) t) in
    (
      e cur (omega arith) room ∙ at,
      ok,
      Tiles-agree h h' last bs (cur + (arena_hdr + b.payload)) (λ k lo hi. e k (omega arith) hi) t,
    )

pub Tiles-append :
    (h : ℕ → Header) (last : ℕ) (xs ys : List Header) (cur : ℕ)
    → Tiles h (cur + extent xs) cur xs
    → Tiles h last (cur + extent xs) ys
    → Tiles h last cur (xs ++ ys)
unfolding Tiles extent
Tiles-append h last [] ys cur t u = subst (λ c. Tiles h last c ys) (omega arith) u
Tiles-append h last (b ∷ xs) ys cur (at, ok, t) u =
    let e : cur + (arena_hdr + b.payload + extent xs) ≡ cur + (arena_hdr + b.payload) + extent xs =
      omega arith in
    (
      at,
      ok,
      Tiles-append h last xs ys (cur + (arena_hdr + b.payload))
          (subst (λ c. Tiles h c (cur + (arena_hdr + b.payload)) xs) e t)
          (subst (λ c. Tiles h last c ys) e u),
    )

pub Tiles-cut :
    (h : ℕ → Header) (last : ℕ) (xs ys : List Header) (cur : ℕ)
    → Tiles h last cur (xs ++ ys)
    → Tiles h (cur + extent xs) cur xs × Tiles h last (cur + extent xs) ys
unfolding Tiles extent
Tiles-cut h last [] ys cur t = (omega arith, subst (λ c. Tiles h last c ys) (omega arith) t)
Tiles-cut h last (b ∷ xs) ys cur (at, ok, t) =
    let e : cur + (arena_hdr + b.payload) + extent xs ≡ cur + (arena_hdr + b.payload + extent xs) =
      omega arith in
    let (t1, t2) = Tiles-cut h last xs ys (cur + (arena_hdr + b.payload)) t in
    (
      (at, ok, subst (λ c. Tiles h c (cur + (arena_hdr + b.payload)) xs) e t1),
      subst (λ c. Tiles h last c ys) e t2,
    )

pub put_self : (h : ℕ → Header) (a : ℕ) (b : Header) → put h a b a ≡ b
put_self h a b = ground arith

pub put_other : (h : ℕ → Header) (a k : ℕ) (b : Header) → k < a ⊎ a < k → put h a b k ≡ h k
put_other h a k b (inl lt) = ground arith
put_other h a k b (inr lt) = ground arith

pub Tiles-same :
    (h : ℕ → Header) (base base' size size' : ℕ) (bs : List Header)
    → base' ≡ base
    → size' ≡ size
    → Tiles h (base + size) base bs
    → Tiles h (base' + size') base' bs
Tiles-same h base base' size size' bs e f t =
    subst (λ x. Tiles h (x + size') x bs) (sym e)
      (subst (λ x. Tiles h (base + x) base bs) (sym f) t)

pub append_snoc :
    (xs : List Header) (p : Header) (ys : List Header) → xs ++ p ∷ ys ≡ (xs ++ p ∷ []) ++ ys
append_snoc [] p ys = refl
append_snoc (x ∷ xs) p ys = ap (◌∷◌ x) (append_snoc xs p ys)

pub extent_snoc :
    (xs : List Header) (p : Header) → extent (xs ++ p ∷ []) ≡ extent xs + (arena_hdr + p.payload)
unfolding extent
extent_snoc [] p = omega arith
extent_snoc (x ∷ xs) p = omega (arith, extent_snoc xs p)
