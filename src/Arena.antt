-- ===== src/Arena.antt =====
-- src/lxp_arena.c and src/lxp_arena.h: the first-fit allocator of a guest's memory region. A block's
-- header is read and written in `head` at the block's address, and payload bytes in `bytes`. The two
-- are separate maps over one range of addresses: a store of a header does not show in the bytes, nor
-- one of bytes in the headers, as long as each stays within its block. Sizes and addresses are 32-bit
-- words, and 0 is the null pointer. The code checks its arithmetic before it computes, so no sum below
-- wraps. Every walk over the blocks has the region's size as fuel, which is enough since a block takes
-- 32 bytes or more.
pub mod Mappings
pub mod Tiles
pub mod Valid
mod Fit
mod Alloc
mod Locate
mod Join
mod Free
pub mod Live
pub mod Kept
pub mod Apart
mod Moved
pub mod Grow
pub mod Realloc
mod Coalesced
mod Tests
use lxp.Common.{
  ℕ, zero, suc, ◌+◌, ◌-◌, ◌/◌, ◌%◌, ◌^◌, Bool, true, false, Option, none, some, List, [], ◌∷◌, map,
  ltb, leb, ◌==◌, ◌&&◌, ◌||◌, not, if◌then◌else◌, replicate, set, min,
}
use lxp.Common.Bytes.{Memory, bytes_at, store}

-- ARENA_MAGIC, LXP_ARENA_ALIGN and ARENA_HDR; SIZE_MAX and UINTPTR_MAX
abbrev pub arena_magic : ℕ
arena_magic = 1329680962

abbrev pub arena_align_to : ℕ
arena_align_to = 16

abbrev pub arena_hdr : ℕ
arena_hdr = 16

abbrev pub word_max : ℕ
word_max = 2 ^ 32 - 1

-- struct lxp_arena_blk
pub record Header : Type 0 where
  pub payload : ℕ
  pub is_free : ℕ
  pub magic : ℕ

-- lxp_arena_mapping_t
pub record Mapping : Type 0 where
  pub addr : ℕ
  pub len : ℕ

-- lxp_arena_t, with the memory that it manages; the list of mappings has LXP_ARENA_MAX_MAPPINGS entries
pub record Arena : Type 0 where
  pub base : ℕ
  pub size : ℕ
  pub first : ℕ
  pub used : ℕ
  pub high_water : ℕ
  pub mappings : List Mapping
  pub head : ℕ → Header
  pub bytes : Memory

abbrev pub arena_end : Arena → ℕ
arena_end a = a.base + a.size

-- `n & ~(LXP_ARENA_ALIGN - 1)`
abbrev pub align_down : ℕ → ℕ
align_down n = n - n % 16

unfoldable pub arena_align : ℕ → ℕ
arena_align n = if ltb (word_max - 15) n then 0 else align_down (n + 15)

-- `arena_align(size == 0 ? 1 : size)`
unfoldable pub needed : ℕ → ℕ
unfolding arena_align
needed size = arena_align (if size == 0 then 1 else size)

abbrev pub put : (ℕ → Header) → ℕ → Header → ℕ → Header
put h a b k = if k == a then b else h k

abbrev pub free_block_of : ℕ → Header
free_block_of payload = record { payload = payload; is_free = 1; magic = arena_magic }

abbrev pub is_used : Header → Bool
is_used b = b.is_free == 0

unfoldable pub clear_mappings : Arena → Arena
clear_mappings a = record a { mappings = map (λ m. record { addr = 0; len = 0 }) a.mappings }

unfoldable pub lay_first : Arena → Arena
lay_first a = record a {
  first = a.base;
  used = 0;
  head = put a.head a.base (free_block_of (a.size - arena_hdr));
}

-- the tests that `arena_layout_valid` makes of a header, with `remain` bytes from it to the end
unfoldable pub header_ok : Header → ℕ → Bool
header_ok b remain =
    b.magic == arena_magic
    && leb b.is_free 1
    && leb 16 b.payload
    && b.payload % 16 == 0
    && leb b.payload (remain - arena_hdr)

-- the loop of `arena_layout_valid` from `cur` on: the bytes in use at the end, or `none` for false
unfoldable pub walk : ℕ → (ℕ → Header) → ℕ → ℕ → ℕ → ℕ → Option ℕ
walk zero h size end cur used = none
walk (suc n) h size end cur used =
    let b = h cur in
    let footprint = arena_hdr + b.payload in
    elim (ltb cur end) [
      | false ↦ if cur == end then some used else none
      | true ↦
          if ltb (end - cur) arena_hdr
            || not (header_ok b (end - cur))
            || is_used b && ltb (size - footprint) used
          then none
          else walk n h size end (cur + footprint) (if is_used b then used + footprint else used)
    ]

-- the tests that `arena_layout_valid` makes of the arena's own fields
unfoldable pub geometry_ok : Arena → Bool
geometry_ok a =
    not (a.base == 0)
    && a.first == a.base
    && leb 32 a.size
    && a.size % 16 == 0
    && a.base % 16 == 0
    && leb a.base (word_max - a.size)

unfoldable pub layout_valid : Arena → Bool
layout_valid a = elim (walk (suc a.size) a.head a.size (arena_end a) a.base 0) [
  | none ↦ false
  | some used ↦ geometry_ok a && used == a.used
]

-- arena_find_payload: the block whose payload starts at `target`, with the one before it
unfoldable pub find_payload : ℕ → (ℕ → Header) → ℕ → ℕ → Option ℕ → ℕ → Option (ℕ × Option ℕ)
find_payload zero h end cur prev target = none
find_payload (suc n) h end cur prev target = elim (ltb cur end) [
  | false ↦ none
  | true ↦
      if cur + arena_hdr == target
      then some (cur, prev)
      else find_payload n h end (cur + (arena_hdr + (h cur).payload)) (some cur) target
]

-- lxp_arena_init's codes
pub data Code : Type 0 where
  done invalid_param no_memory : Code

unfoldable pub init : Arena → ℕ → ℕ → Arena × Code
unfolding clear_mappings lay_first
init a raw size =
    let start = align_down (raw + 15) in
    let usable = align_down (size - (start - raw)) in
    if raw == 0 || ltb (word_max - 15) raw || leb size (start - raw)
    then (a, invalid_param)
    else if ltb usable 32
    then (a, no_memory)
    else (
      lay_first (clear_mappings (record a { base = start; size = usable; high_water = 0 })),
      done,
    )

-- the loop of `lxp_arena_alloc`: the first free block from `cur` on with enough room
unfoldable pub find_fit : ℕ → (ℕ → Header) → ℕ → ℕ → ℕ → Option ℕ
find_fit zero h end cur need = none
find_fit (suc n) h end cur need = elim (ltb cur end) [
  | false ↦ none
  | true ↦
      if not (is_used (h cur)) && leb need (h cur).payload
      then some cur
      else find_fit n h end (cur + (arena_hdr + (h cur).payload)) need
]

-- The block at `b`, with `room` payload bytes, is cut down to `need` when the tail can host another
-- block.
unfoldable pub split : (ℕ → Header) → ℕ → ℕ → ℕ → ℕ → Header
split h b room need =
    if leb 32 (room - need)
    then put (put h (b + arena_hdr + need) (free_block_of (room - need - arena_hdr))) b
        (record (h b) { payload = need })
    else put h b (record (h b) { payload = room })

-- what `lxp_arena_alloc` does with the block at `b` that it found
unfoldable pub claim : Arena → ℕ → ℕ → Arena × Option ℕ
claim a b need =
    let h = split a.head b (a.head b).payload need in
    let footprint = arena_hdr + (h b).payload in
    let used = a.used + footprint in
    if ltb (a.size - footprint) a.used then (record a { head = h }, none) else (
      record a {
        head = put h b (record (h b) { is_free = 0 });
        used = used;
        high_water = if ltb a.high_water used then used else a.high_water;
      },
      some (b + arena_hdr),
    )

-- lxp_arena_alloc; `none` is NULL
unfoldable pub alloc : Arena → ℕ → Arena × Option ℕ
unfolding claim find_fit
alloc a size =
    if a.first == 0 || not (layout_valid a) || needed size == 0
    then (a, none)
    else elim (find_fit a.size a.head (arena_end a) a.base (needed size)) [
      | none ↦ (a, none)
      | some b ↦ claim a b (needed size)
    ]

unfoldable pub calloc : Arena → ℕ → Arena × Option ℕ
calloc a size =
    let (a', r) = if needed size == 0 then (a, none) else alloc a size in
    elim r [
      | none ↦ (a', none)
      | some p ↦ (record a' { bytes = store a'.bytes p (replicate (needed size) 0) }, some p)
    ]

-- the two coalescing steps of `arena_free_block`
unfoldable pub merge_next : (ℕ → Header) → ℕ → ℕ → ℕ → Header
merge_next h end b =
    let next = b + (arena_hdr + (h b).payload) in
    if ltb next end && not (is_used (h next))
    then put (put h b (record (h b) { payload = (h b).payload + (arena_hdr + (h next).payload) }))
        next (record (h next) { magic = 0 })
    else h

unfoldable pub merge_prev : (ℕ → Header) → Option ℕ → ℕ → ℕ → Header
merge_prev h none b = h
merge_prev h (some prev) b =
    if not (is_used (h prev))
    then put
        (put h prev (record (h prev) { payload = (h prev).payload + (arena_hdr + (h b).payload) }))
        b (record (h b) { magic = 0 })
    else h

-- what `arena_free_block` does with the block at `b` that it found behind `prev`
unfoldable pub release : Arena → ℕ → Option ℕ → Arena × Bool
unfolding merge_next merge_prev
release a b prev =
    let footprint = arena_hdr + (a.head b).payload in
    let h = put a.head b (record (a.head b) { is_free = 1 }) in
    if not (is_used (a.head b)) || ltb a.used footprint then (a, false) else (
      record a {
        head = merge_prev (merge_next h (arena_end a) b) prev b;
        used = a.used - footprint;
      },
      true,
    )

unfoldable pub free_block : Arena → ℕ → Arena × Bool
unfolding release find_payload
free_block a ptr =
    if ptr == 0 || not (layout_valid a)
    then (a, false)
    else elim (find_payload a.size a.head (arena_end a) a.base none ptr) [
      | none ↦ (a, false)
      | some (b, prev) ↦ release a b prev
    ]
