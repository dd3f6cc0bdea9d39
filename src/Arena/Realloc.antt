-- ===== src/Arena/Realloc.antt =====
-- `lxp_arena_realloc` of src/lxp_arena.c on an allocated block: the block that it answers, what it keeps
-- of the contents, and that it changes nothing when it fails.
use lxp.Common.{
  ℕ, ◌-◌, ◌≤◌, ◌≡◌, ◌≢◌, refl, sym, ◌∙◌, ap, subst, inl, inr, true, false, Option, none, some, List,
  arith, leb, ◌==◌, if◌then◌else◌, min, Bool-cases, Option-cases, ◌+◌,
}
use lxp.Common.Bytes.{
  bytes_at_same, length-bytes_at, Memory, bytes_at, store, take-bytes_at, take-bytes_at-store,
}
use lxp.Arena.{
  Arena, Header, Mapping, arena_hdr, arena_end, is_used, word_max, needed, layout_valid,
  geometry_ok, find_payload, alloc, free_block,
}
use lxp.Arena.Mappings.{find_mapping, grow, moved, move, realloc}
use lxp.Arena.Valid.{Tiled, layout_valid_iff}
use lxp.Arena.Alloc.{needed_lem}
use lxp.Arena.Live.{Live, Live-above, Live-found, Live-freed, Live-less, Live-whole}
use lxp.Arena.Kept.{alloc-Same, alloc-Live, alloc-New, free_block_bytes}
use lxp.Arena.Apart.{Apart, alloc-Apart, free_block-Apart}
use lxp.Arena.Moved.{free_block-Live}
use lxp.Arena.Grow.{Holds, can_grow, grown, grow_lem, grown-Apart, grown-Holds}

-- the arena after the copy
abbrev copied : Arena → ℕ → ℕ → ℕ → Arena
copied a ptr q k = record a { bytes = store a.bytes q (bytes_at a.bytes ptr k) }

-- A move whose release succeeds answers the new block; it leaves what the release leaves, less the
-- records of mappings.
moved_lem :
    (a : Arena) (ptr q old size : ℕ)
    → (free_block (copied a ptr q (min old size)) ptr).1 ≡ true
    → (ms : List Mapping) × (moved a ptr q old size
        ≡ (record (free_block (copied a ptr q (min old size)) ptr).0 { mappings = ms }, some q))
unfolding moved
moved_lem a ptr q old size e =
    let c = copied a ptr q (min old size) in
    rw e (elim (Option-cases (find_mapping 0 c.mappings ptr)) [
      | inl f ↦ rw f (_, refl)
      | inr (i, f) ↦ rw f (_, refl)
    ])

-- No header was written into the `n` bytes of the block at `ptr` as long as they were wanted, nor into
-- the new block at `q` afterwards: the block is the old one, or one that `lxp_arena_alloc` gave.
pub data Intact (a : Arena) (ptr n size q : ℕ) (h' : ℕ → Header) : Type 0 where
  stays : q ≡ ptr → Apart a.head h' ptr n → Intact a ptr n size q h'
  moves :
      (alloc a size).1 ≡ some q
      → ptr ≢ q
      → Apart a.head (alloc a size).0.head ptr n
      → Apart (alloc a size).0.head h' q size
      → Intact a ptr n size q h'

-- What comes of a reallocation of an allocated block of `n` bytes or more.
pub record Resized (a : Arena) (ptr n size : ℕ) (out : Arena × Option ℕ) : Type 0 where
  pub refused : out.1 ≡ none → out.0 ≡ a
  pub holds : (q : ℕ) → out.1 ≡ some q → Holds out.0 q size
  pub kept :
      (q : ℕ)
      → out.1 ≡ some q
      → bytes_at out.0.bytes q (min n size) ≡ bytes_at a.bytes ptr (min n size)
  pub intact : (q : ℕ) → out.1 ≡ some q → Intact a ptr n size q out.0.head

in_place :
    (a a' : Arena) (ptr n size : ℕ)
    → a'.bytes ≡ a.bytes
    → Holds a' ptr size
    → Apart a.head a'.head ptr n
    → Resized a ptr n size (a', some ptr)
in_place a a' ptr n size e held apart = record {
  refused = λ f. absurd (ground (arith, f));
  holds = λ q f. let at : ptr ≡ q = ground (arith, f) in subst (λ x. Holds a' x size) at held;
  kept = λ q f.
      let at : ptr ≡ q = ground (arith, f) in
      ap (λ (m : Memory). bytes_at m q (min n size)) e
      ∙ bytes_at_same a.bytes q ptr (min n size) (min n size) (sym at) refl;
  intact = λ q f. stays (ground (arith, f)) apart;
}

-- The copied bytes, as far as they count.
copied_bytes :
    (m : Memory) (ptr q n old size : ℕ)
    → n ≤ old
    → bytes_at (store m q (bytes_at m ptr (min old size))) q (min n size)
      ≡ bytes_at m ptr (min n size)
copied_bytes m ptr q n old size le =
    let xs = bytes_at m ptr (min old size) in
    let l = length-bytes_at m ptr (min old size) in
    take-bytes_at-store m q xs (min n size) (omega (arith, l, le))
    ∙ take-bytes_at m (min n size) ptr (min old size)
    ∙ bytes_at_same m ptr ptr (min (min old size) (min n size)) (min n size) refl
        (omega (arith, le))

moved-Resized :
    (a : Arena) (bs : List Header) (ptr q n old size : ℕ)
    → Tiled a bs
    → Live ptr n bs a.base
    → size ≤ word_max - 15
    → n ≤ old
    → (alloc a size).1 ≡ some q
    → Resized a ptr n size (moved (alloc a size).0 ptr q old size)
unfolding Tiled geometry_ok
moved-Resized a bs ptr q n old size t l small le got =
    let a0 = (alloc a size).0 in
    let c = copied a0 ptr q (min old size) in
    let (bs', t', l', new, other) = alloc-New a bs size ptr n q t small l got in
    let (bs2, t2, new2) = free_block-Live c bs' ptr q size t' other new in
    let (ms, is) = moved_lem a0 ptr q old size (Live-freed c bs' ptr n t' l') in
    let above = Live-above ptr n bs a.base l in
    let out = record (free_block c ptr).0 { mappings = ms } in
    subst (Resized a ptr n size) (sym is) (record {
      refused = λ f. absurd (ground (arith, f));
      holds = λ r f.
          let at : q ≡ r = ground (arith, f) in subst (λ x. Holds out x size) at (bs2, t2, new2);
      kept = λ r f.
          let at : q ≡ r = ground (arith, f) in
          bytes_at_same out.bytes r q (min n size) (min n size) (sym at) refl
          ∙ ap (λ (x : Memory). bytes_at x q (min n size)) (free_block_bytes c ptr)
          ∙ copied_bytes a0.bytes ptr q n old size le
          ∙ ap (λ (x : Memory). bytes_at x ptr (min n size)) (alloc-Same a size).bytes;
      intact = λ r f.
          let at : q ≡ r = ground (arith, f) in
          subst (λ x. Intact a ptr n size x out.head) at
            (moves got other (alloc-Apart a bs size ptr n t small l)
              (free_block-Apart c bs' ptr q size t' (ground (arith, above)) new));
    })

move-Resized :
    (a : Arena) (bs : List Header) (ptr n old size : ℕ)
    → Tiled a bs
    → Live ptr n bs a.base
    → size ≤ word_max - 15
    → n ≤ old
    → Resized a ptr n size (move a ptr old size)
unfolding move
move-Resized a bs ptr n old size t l small le =
    let (unchanged, kept) = alloc-Live a bs size ptr n t small l in
    elim (Option-cases (alloc a size).1) [
      | inl e ↦
          rw (e, move)
            (record {
              refused = λ f. unchanged e;
              holds = λ q f. absurd (ground (arith, f));
              kept = λ q f. absurd (ground (arith, f));
              intact = λ q f. absurd (ground (arith, f));
            })
      | inr (q, e) ↦ rw (e, move) (moved-Resized a bs ptr q n old size t l small le e)
    ]

-- The choice between the block itself, the block with its free neighbour, and a new block.
resize : Arena → ℕ → ℕ → ℕ → Arena × Option ℕ
resize a b ptr size =
    if leb (needed size) (a.head b).payload
    then (a, some ptr)
    else elim (grow a b (needed size) size) [
      | none ↦ move a ptr (a.head b).payload size
      | some a' ↦ (a', some ptr)
    ]

realloc_searches :
    (a : Arena) (ptr size b : ℕ) (prev : Option ℕ)
    → (ptr == 0) ≡ false
    → layout_valid a ≡ true
    → (needed size == 0) ≡ false
    → find_payload a.size a.head (arena_end a) a.base none ptr ≡ some (b, prev)
    → is_used (a.head b) ≡ true
    → realloc a ptr size ≡ resize a b ptr size
unfolding realloc resize
realloc_searches a ptr size b prev nonnull valid roomy found used =
    rw (nonnull, valid, roomy, found) (rw used refl)

resize-Resized :
    (a : Arena) (bs : List Header) (ptr n b size : ℕ)
    → Tiled a bs
    → Live ptr n bs a.base
    → size ≤ word_max - 15
    → n ≤ (a.head b).payload
    → b + arena_hdr ≡ ptr
    → Live ptr (a.head b).payload bs a.base
    → Resized a ptr n size (resize a b ptr size)
unfolding resize
resize-Resized a bs ptr n b size t l small big at whole =
    let (enough, lo, hi, mult) = needed_lem size small in
    elim (Bool-cases (leb (needed size) (a.head b).payload)) [
      | inl e ↦ rw e (
          in_place a a ptr n size refl
            (
              bs,
              t,
              Live-less ptr size (a.head b).payload bs a.base (ground (arith, e, enough)) whole,
            )
            (λ k. inl refl))
      | inr e ↦ elim (Bool-cases (can_grow a b (needed size))) [
        | inl f ↦
            let apart = grown-Apart a b (needed size) size n big (ground (arith, e, big)) in
            rw e (
              rw (grow_lem a b (needed size) size) (
                rw f (
                  in_place a (grown a b (needed size) size) ptr n size refl
                    (grown-Holds a bs ptr n b (needed size) size t l at f (ground (arith, e)) mult
                      enough)
                    (subst (λ x. Apart a.head (grown a b (needed size) size).head x n) at apart))))
        | inr f ↦ rw e (
            rw (grow_lem a b (needed size) size)
              (rw f (move-Resized a bs ptr n (a.head b).payload size t l small big)))
      ]
    ]

-- In a region that blocks tile, on an allocated block of `n` bytes or more and for a size that can be
-- rounded to 16 bytes, a block that `lxp_arena_realloc` answers is allocated with the new size or more in
-- a region that blocks tile again, it has the first `n` bytes of the old block, as far as the new size
-- goes, and no header was written into those bytes, nor, after the copy, into the new block; it is the
-- old block, or another one that `lxp_arena_alloc` gives; NULL is answered only if nothing has changed
-- at all.
pub realloc-Resized :
    (a : Arena) (bs : List Header) (ptr n size : ℕ)
    → Tiled a bs
    → Live ptr n bs a.base
    → size ≤ word_max - 15
    → Resized a ptr n size (realloc a ptr size)
realloc-Resized a bs ptr n size t l small =
    let (b, prev, found, used, big, at) = Live-found a bs ptr n t l in
    let valid = (layout_valid_iff a).1 (bs, t) in
    let lo = (needed_lem size small).1 in
    let above = Live-above ptr n bs a.base l in
    let chosen =
      realloc_searches a ptr size b prev (ground (arith, above)) valid (ground (arith, lo)) found
        used in
    subst (Resized a ptr n size) (sym chosen)
      (resize-Resized a bs ptr n b size t l small big at (Live-whole a bs ptr n b t l at))
