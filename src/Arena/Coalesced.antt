-- ===== src/Arena/Coalesced.antt =====
-- Runs of `lxp_arena_alloc` and `lxp_arena_free` of src/lxp_arena.c: no two neighbours stay free.
use lxp.Common.{
  ℕ, ◌-◌, ◌<◌, ◌≡◌, refl, sym, ◌∙◌, ap, subst, inl, inr, true, false, List, [], ◌∷◌, ◌++◌, arith,
  ltb, leb, ◌||◌, Bool-cases, ltb→lt, ltb-false→le,
}
use lxp.Arena.{
  Arena, Header, arena_magic, arena_hdr, arena_end, word_max, is_used, needed, arena_align, alloc,
  free_block, free_block_of, geometry_ok,
}
use lxp.Arena.Mappings.{free}
use lxp.Arena.Tiles.{WellFormed, Tiles, in_use}
use lxp.Arena.Valid.{Tiled}
use lxp.Arena.Fit.{pieces}
use lxp.Arena.Alloc.{Placed, taken, alloc-Placed}
use lxp.Arena.Join.{absorb, join}
use lxp.Arena.Free.{Freed, freed, free_block-Freed}

-- The block `b` and the first of the blocks behind it are not both free.
abbrev Apart : Header → List Header → Type 0
Apart b [] = Unit
Apart b (c ∷ cs) = (is_used b || is_used c) ≡ true

-- No two neighbours are free.
unfoldable pub Coalesced : List Header → Type 0
Coalesced [] = Unit
Coalesced (b ∷ bs) = Apart b bs × Coalesced bs

Apart-like :
    (b c : Header) (bs : List Header)
    → (is_used b ≡ true → is_used c ≡ true)
    → Apart b bs
    → Apart c bs
Apart-like b c [] h a = tt
Apart-like b c (d ∷ ds) h a = ground arith

Apart-used : (b : Header) (bs : List Header) → is_used b ≡ true → Apart b bs
Apart-used b [] u = tt
Apart-used b (c ∷ cs) u = ground arith

-- A tail may be replaced by one whose first block is used if the other's was.
Coalesced-replace :
    (xs : List Header) (b : Header) (ys : List Header) (c : Header) (cs : List Header)
    → Coalesced (xs ++ b ∷ ys)
    → (is_used b ≡ true → is_used c ≡ true)
    → Coalesced (c ∷ cs)
    → Coalesced (xs ++ c ∷ cs)
unfolding Coalesced
Coalesced-replace [] b ys c cs whole h k = k
Coalesced-replace (x ∷ []) b ys c cs whole h k = (ground (arith, whole.0, h), k)
Coalesced-replace (x ∷ y ∷ xs) b ys c cs whole h k =
    (whole.0, Coalesced-replace (y ∷ xs) b ys c cs whole.1 h k)

Coalesced-suffix : (xs ys : List Header) → Coalesced (xs ++ ys) → Coalesced ys
unfolding Coalesced
Coalesced-suffix [] ys k = k
Coalesced-suffix (x ∷ xs) ys k = Coalesced-suffix xs ys k.1

-- The blocks that `join` leaves, of which the first is used just when `p` is.
join-Coalesced :
    (p : Header) (bs : List Header)
    → Coalesced bs
    → (c : Header) × (cs : List Header) × (join p bs ≡ c ∷ cs)
      × (is_used c ≡ is_used p)
      × Coalesced (c ∷ cs)
unfolding Coalesced join
join-Coalesced p [] k = (p, [], refl, refl, (tt, tt))
join-Coalesced p (b ∷ bs) k = elim (Bool-cases (is_used p || is_used b)) [
  | inl e ↦ (p, b ∷ bs, rw e refl, refl, (e, k))
  | inr e ↦ (
    absorb p b,
    bs,
    rw e refl,
    refl,
    (Apart-like b (absorb p b) bs (λ u. ground (arith, e, u)) k.0, k.1),
  )
]

pieces-Coalesced :
    (b : Header) (need : ℕ) (after : List Header)
    → is_used b ≡ false
    → Coalesced (b ∷ after)
    → (c : Header) × (cs : List Header) × (pieces (taken b) need ++ after ≡ c ∷ cs)
      × Coalesced (c ∷ cs)
unfolding Coalesced pieces
pieces-Coalesced b need after free k = elim (Bool-cases (leb 32 (b.payload - need))) [
  | inl s ↦
      let rest = free_block_of (b.payload - need - arena_hdr) in
      (
        record (taken b) { payload = need },
        rest ∷ after,
        rw s refl,
        (refl, (Apart-like b rest after (λ u. ground (arith, free, u)) k.0, k.1)),
      )
  | inr s ↦ (taken b, after, rw s refl, (Apart-used (taken b) after refl, k.1))
]

-- A call on the arena.
pub data Call : Type 0 where
  allocate release_at : ℕ → Call

unfoldable pub call : Arena → Call → Arena
call a (allocate size) = (alloc a size).0
call a (release_at ptr) = free a ptr

unfoldable pub run : Arena → List Call → Arena
run a [] = a
run a (c ∷ cs) = run (call a c) cs

-- What every call keeps.
pub Sound : Arena → Type 0
Sound a = (bs : List Header) × Tiled a bs × Coalesced bs

needed_none : (size : ℕ) → word_max - 15 < size → needed size ≡ 0
unfolding needed arena_align
needed_none size lt = ground arith

alloc_nothing : (a : Arena) (size : ℕ) → needed size ≡ 0 → (alloc a size).0 ≡ a
unfolding alloc
alloc_nothing a size e = ground (arith, e)

alloc-Sound : (a : Arena) (size : ℕ) → Sound a → Sound (alloc a size).0
unfolding Sound
alloc-Sound a size (bs, t, k) = elim (Bool-cases (ltb (word_max - 15) size)) [
  | inl large ↦
      subst (λ x. Sound x) (sym (alloc_nothing a size (needed_none size (ltb→lt _ _ large))))
        (bs, t, k)
  | inr small ↦ elim (alloc-Placed a bs size t (ltb-false→le _ _ small)) [
    | Placed.full e same all ↦ subst (λ x. Sound x) (sym same) (bs, t, k)
    | Placed.placed before b after e all f at tiled ↦
        let k' : Coalesced (before ++ b ∷ after) = subst Coalesced e k in
        let (c, cs, shape, tail) =
          pieces-Coalesced b (needed size) after (ground (arith, f))
            (Coalesced-suffix before (b ∷ after) k') in
        (
          before ++ (pieces (taken b) (needed size) ++ after),
          tiled,
          rw shape
              (Coalesced-replace before b after c cs k' (λ u. absurd (ground (arith, f, u))) tail),
        )
  ]
]

free_block-Sound : (a : Arena) (ptr : ℕ) → Sound a → Sound (free_block a ptr).0
unfolding Sound
free_block-Sound a ptr (bs, t, k) = elim (free_block-Freed a bs ptr t) [
  | Freed.foreign e same all ↦ subst (λ x. Sound x) (sym same) (bs, t, k)
  | Freed.not_live before b after e at u no_answer same ↦ subst (λ x. Sound x) (sym same) (bs, t, k)
  | Freed.first_block b after e at u answer tiled ↦
      let (c, cs, shape, like, tail) =
        join-Coalesced (freed b) after (Coalesced-suffix (b ∷ []) after (subst Coalesced e k)) in
      (join (freed b) after, tiled, rw shape tail)
  | Freed.inner_block before p b after e at u answer tiled ↦
      let k' : Coalesced (before ++ p ∷ b ∷ after) = subst Coalesced e k in
      let behind = Coalesced-suffix before (p ∷ b ∷ after) k' in
      let (c, cs, shape, like, tail) =
        join-Coalesced (freed b) after (Coalesced-suffix (p ∷ b ∷ []) after behind) in
      let (d, ds, shape', like', tail') = join-Coalesced p (join (freed b) after) (rw shape tail) in
      (
        before ++ join p (join (freed b) after),
        tiled,
        rw shape' (Coalesced-replace before p (b ∷ after) d ds k' (λ w. like' ∙ w) tail'),
      )
]

free-Sound : (a : Arena) (ptr : ℕ) → Sound a → Sound (free a ptr)
unfolding free Sound Tiled geometry_ok
free-Sound a ptr s = elim (Bool-cases (free_block a ptr).1) [
  | inl e ↦ rw e (free_block-Sound a ptr s)
  | inr e ↦ rw e (free_block-Sound a ptr s)
]

run-Sound : (a : Arena) (calls : List Call) → Sound a → Sound (run a calls)
unfolding run call
run-Sound a [] s = s
run-Sound a (allocate size ∷ cs) s = run-Sound (alloc a size).0 cs (alloc-Sound a size s)
run-Sound a (release_at ptr ∷ cs) s = run-Sound (free a ptr) cs (free-Sound a ptr s)

in_use-none :
    (b : Header) (bs : List Header) → in_use (b ∷ bs) ≡ 0 → (is_used b ≡ false) × (in_use bs ≡ 0)
unfolding in_use
in_use-none b bs z = (ground (arith, z), ground (arith, z))

free_block_eq :
    (b : Header) (n : ℕ)
    → b.payload ≡ n
    → b.is_free ≡ 1
    → b.magic ≡ arena_magic
    → b ≡ free_block_of n
free_block_eq b n p f m = ground (arith, p, f, m)

-- With nothing in use, and no two neighbours free, there is one block.
one_block :
    (h : ℕ → Header) (last cur : ℕ) (bs : List Header)
    → Tiles h last cur bs
    → Coalesced bs
    → in_use bs ≡ 0
    → cur < last
    → h cur ≡ free_block_of (last - cur - arena_hdr)
unfolding Tiles Coalesced WellFormed
one_block h last cur [] t k z lt = absurd (omega arith)
one_block h last cur (b ∷ []) (e, w, t) k z lt =
    let (f, none_used) = in_use-none b [] z in
    e ∙ free_block_eq b _ (omega (arith, t)) (ground (arith, w, f)) w.0
one_block h last cur (b ∷ c ∷ cs) t k z lt =
    let (f, tail) = in_use-none b (c ∷ cs) z in
    let (f', tail') = in_use-none c cs tail in absurd (ground (arith, k.0, f, f'))

sound_room : (a : Arena) → geometry_ok a ≡ true → a.base < arena_end a
unfolding geometry_ok
sound_room a g = ground (arith, g)

-- After any calls of `lxp_arena_alloc` and `lxp_arena_free`, whatever their arguments, on an arena
-- that was tiled with no two neighbouring blocks free: if nothing is in use any more, the region is
-- one free block again, so that no space is lost to fragmentation.
pub run_defragments :
    (a : Arena) (bs : List Header) (calls : List Call)
    → Tiled a bs
    → Coalesced bs
    → (run a calls).used ≡ 0
    → (run a calls).head (run a calls).base ≡ free_block_of ((run a calls).size - arena_hdr)
unfolding Sound Tiled
run_defragments a bs calls t k z =
    let (bs', (g, t', u), k') = run-Sound a calls (bs, t, k) in
    let last = arena_end (run a calls) in
    one_block (run a calls).head last (run a calls).base bs' t' k' (sym u ∙ z)
      (sound_room (run a calls) g)
    ∙ ap (λ n. free_block_of (n - arena_hdr)) (omega arith)
