-- ===== src/Arena/Mappings.antt =====
-- src/lxp_arena.c: the operations that keep the records of tracked mappings.
use lxp.Common.{
  ℕ, ◌+◌, ◌-◌, Bool, true, false, Option, none, some, List, [], ◌∷◌, map, ltb, leb, ◌==◌, ◌&&◌,
  ◌||◌, not, if◌then◌else◌, set, min,
}
use lxp.Common.Bytes.{bytes_at, store}
use lxp.Arena.{
  Arena, Mapping, arena_hdr, arena_end, word_max, needed, put, is_used, layout_valid, find_payload,
  split, alloc, free_block, clear_mappings, lay_first,
}

-- the index, from `i` on, of the first record of the address
unfoldable pub find_mapping : ℕ → List Mapping → ℕ → Option ℕ
find_mapping i [] addr = none
find_mapping i (m ∷ ms) addr =
    let rest = find_mapping (i + 1) ms addr in if m.addr == addr then some i else rest

-- the index, from `i` on, of the first record of the address with that length
unfoldable pub find_extent : ℕ → List Mapping → ℕ → ℕ → Option ℕ
find_extent i [] addr len = none
find_extent i (m ∷ ms) addr len =
    let rest = find_extent (i + 1) ms addr len in
    if m.addr == addr && m.len == len then some i else rest

abbrev pub no_mapping : Mapping
no_mapping = record { addr = 0; len = 0 }

unfoldable pub forget : ℕ → List Mapping → List Mapping
forget addr = map (λ m. if m.addr == addr then no_mapping else m)

unfoldable pub resized : ℕ → ℕ → List Mapping → List Mapping
resized addr len = map (λ m. if m.addr == addr then record m { len = len } else m)

-- lxp_arena_free
unfoldable pub free : Arena → ℕ → Arena
unfolding forget
free a ptr =
    let (a', freed) = free_block a ptr in
    if freed then record a' { mappings = forget ptr a'.mappings } else a'

-- lxp_arena_alloc_tracked
unfoldable pub alloc_tracked : Arena → ℕ → Arena × Option ℕ
unfolding find_mapping
alloc_tracked a size = elim (find_mapping 0 a.mappings 0) [
  | none ↦ (a, none)
  | some slot ↦
      let (a', r) = alloc a size in
      elim r [
        | none ↦ (a', none)
        | some p ↦ (
          record a' { mappings = set a'.mappings slot (record { addr = p; len = size }) },
          some p,
        )
      ]
]

-- lxp_arena_free_tracked
unfoldable pub free_tracked : Arena → ℕ → ℕ → Arena × Bool
unfolding find_extent
free_tracked a ptr size = elim (if ptr == 0 then none else find_extent 0 a.mappings ptr size) [
  | none ↦ (a, false)
  | some i ↦
      let (a', freed) = free_block a ptr in
      if freed then (record a' { mappings = set a'.mappings i no_mapping }, true) else (a', false)
]

-- the block at `b` takes in the free block behind it, when the two together have room for `need`
unfoldable pub grow : Arena → ℕ → ℕ → ℕ → Option Arena
unfolding split resized
grow a b need size =
    let old = (a.head b).payload in
    let next = b + (arena_hdr + old) in
    let combined = old + (arena_hdr + (a.head next).payload) in
    let h = split (put a.head next (record (a.head next) { magic = 0 })) b combined need in
    let used = a.used + ((h b).payload - old) in
    if ltb next (arena_end a) && not (is_used (a.head next)) && leb need combined
    then some (record a {
      head = h;
      used = used;
      high_water = if ltb a.high_water used then used else a.high_water;
      mappings = resized (b + arena_hdr) size a.mappings;
    })
    else none

-- what `realloc` does with the new block at `q`
unfoldable pub moved : Arena → ℕ → ℕ → ℕ → ℕ → Arena × Option ℕ
unfolding find_mapping free
moved a ptr q old size =
    let copied = record a { bytes = store a.bytes q (bytes_at a.bytes ptr (min old size)) } in
    let (a', freed) = free_block copied ptr in
    if not freed then (free a' q, none) else elim (find_mapping 0 copied.mappings ptr) [
      | none ↦ (a', some q)
      | some i ↦
          (record a' { mappings = set a'.mappings i (record { addr = q; len = size }) }, some q)
    ]

-- the contents move to a new block, and the record of the mapping with them
unfoldable pub move : Arena → ℕ → ℕ → ℕ → Arena × Option ℕ
unfolding moved
move a ptr old size =
    let (a', r) = alloc a size in elim r [ none ↦ (a', none) | some q ↦ moved a' ptr q old size ]

-- lxp_arena_realloc
unfoldable pub realloc : Arena → ℕ → ℕ → Arena × Option ℕ
unfolding grow move
realloc a ptr size =
    if ptr == 0
    then alloc a size
    else if not (layout_valid a) || needed size == 0
    then (a, none)
    else elim (find_payload a.size a.head (arena_end a) a.base none ptr) [
      | none ↦ (a, none)
      | some (b, prev) ↦
          if not (is_used (a.head b))
          then (a, none)
          else if leb (needed size) (a.head b).payload
          then (a, some ptr)
          else elim (grow a b (needed size) size) [
            | none ↦ move a ptr (a.head b).payload size
            | some a' ↦ (a', some ptr)
          ]
    ]

unfoldable pub reset : Arena → Arena
unfolding clear_mappings lay_first
reset a = if a.base == 0 then a else lay_first (clear_mappings a)

unfoldable pub owns : Arena → ℕ → Bool
owns a ptr =
    if ptr == 0 || ltb (word_max - a.size) a.base
    then false
    else leb a.base ptr && ltb ptr (arena_end a)
