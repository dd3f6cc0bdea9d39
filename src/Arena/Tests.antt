-- ===== src/Arena/Tests.antt =====
-- Witnesses and runs of the arena of src/lxp_arena.c: a region of 256 bytes at address 4096.
use lxp.Common.{
  inl, ◌-◌, ◌≡◌, ◌↔◌, refl, true, some, List, [], ◌∷◌, arith, replicate, ◌==◌, if◌then◌else◌,
}
use lxp.Arena.Realloc.{Resized, realloc-Resized}
use lxp.Arena.Mappings.{realloc}
use lxp.Arena.{
  free_block_of, arena_hdr, Arena, Header, arena_align, needed, clear_mappings, lay_first,
  header_ok, walk, geometry_ok, layout_valid, find_payload, init, find_fit, split, claim, alloc,
  merge_next, merge_prev, release, free_block,
}
use lxp.Arena.Mappings.{
  no_mapping, forget, find_mapping, find_extent, free, alloc_tracked, free_tracked, resized, grow,
  realloc,
}
use lxp.Arena.Tiles.{WellFormed, Tiles, in_use}
use lxp.Arena.Valid.{Tiled, layout_valid_iff}
use lxp.Arena.Alloc.{Placed, alloc-Placed}
use lxp.Arena.Coalesced.{Coalesced, Call, call, run, run_defragments}
use lxp.Arena.Live.{Live}
use lxp.Arena.Free.{Freed, free_block-Freed}

abbrev blank : Arena
blank = record {
  base = 0;
  size = 0;
  first = 0;
  used = 0;
  high_water = 0;
  mappings = replicate 2 no_mapping;
  head = λ k. record { payload = 0; is_free = 0; magic = 0 };
  bytes = λ k. 0;
}

abbrev fresh : Arena
fresh = (init blank 4090 270).0

abbrev one : Arena
one = (alloc fresh 20).0

fresh_size : fresh.size ≡ 256
unfolding init
fresh_size = refl

one_ptr : (alloc fresh 20).1 ≡ some 4112
unfolding init clear_mappings lay_first alloc needed arena_align layout_valid geometry_ok walk
    header_ok find_fit claim split
one_ptr = refl

one_used : one.used ≡ 48
unfolding init clear_mappings lay_first alloc needed arena_align layout_valid geometry_ok walk
    header_ok find_fit claim split
one_used = refl

whole : List Header
whole = record { payload = 240; is_free = 1; magic = 1329680962 } ∷ []

fresh-Tiled : Tiled fresh whole
unfolding Tiled geometry_ok Tiles WellFormed in_use whole init clear_mappings lay_first
fresh-Tiled = (refl, (refl, (refl, omega arith, omega arith, refl), refl), refl)

layout_valid_iff_example : (layout_valid fresh ≡ true) ↔ ((bs : List Header) × Tiled fresh bs)
layout_valid_iff_example = layout_valid_iff fresh

alloc-Placed_example : Placed fresh whole 20 (alloc fresh 20).0 (alloc fresh 20).1
alloc-Placed_example = alloc-Placed fresh whole 20 fresh-Tiled (omega arith)

two_blocks : List Header
two_blocks =
    record { payload = 32; is_free = 0; magic = 1329680962 }
    ∷ record { payload = 192; is_free = 1; magic = 1329680962 }
    ∷ []

abbrev busy : Arena
busy = record fresh {
  used = 48;
  head = λ k.
      if k == 4096
      then record { payload = 32; is_free = 0; magic = 1329680962 }
      else record { payload = 192; is_free = 1; magic = 1329680962 };
}

busy-Tiled : Tiled busy two_blocks
unfolding Tiled geometry_ok Tiles WellFormed in_use two_blocks init clear_mappings lay_first
busy-Tiled = (
  refl,
  (
    refl,
    (refl, omega arith, omega arith, refl),
    (refl, (refl, omega arith, omega arith, refl), refl),
  ),
  refl,
)

free_block-Freed_example :
    Freed busy two_blocks 4112 (free_block busy 4112).0 (free_block busy 4112).1
free_block-Freed_example = free_block-Freed busy two_blocks 4112 busy-Tiled

freed_used : (free_block busy 4112).0.used ≡ 0
unfolding init clear_mappings lay_first free_block layout_valid geometry_ok walk header_ok
    find_payload release merge_next merge_prev
freed_used = refl

freed_is_whole : ((free_block busy 4112).0.head 4096).payload ≡ 240
unfolding init clear_mappings lay_first free_block layout_valid geometry_ok walk header_ok
    find_payload release merge_next merge_prev
freed_is_whole = refl

-- a larger request takes in the free block behind
realloc_grows : (realloc busy 4112 60).1 ≡ some 4112
unfolding init clear_mappings lay_first realloc needed arena_align layout_valid geometry_ok walk
    header_ok find_payload grow split resized
realloc_grows = refl

tracked_is_freed : (free_tracked (alloc_tracked fresh 20).0 4112 20).1 ≡ true
unfolding init clear_mappings lay_first alloc_tracked free_tracked find_mapping find_extent alloc
    needed arena_align layout_valid geometry_ok walk header_ok find_fit claim split free_block
    find_payload release merge_next merge_prev
tracked_is_freed = refl

abbrev round_trip : List Call
round_trip = Call.release_at 4112 ∷ []

two_blocks-Coalesced : Coalesced two_blocks
unfolding Coalesced two_blocks
two_blocks-Coalesced = (refl, (tt, tt))

round_trip_used : (run busy round_trip).used ≡ 0
unfolding run call free forget init clear_mappings lay_first free_block layout_valid geometry_ok
    walk header_ok find_payload release merge_next merge_prev
round_trip_used = refl

run_defragments_example :
    (run busy round_trip).head (run busy round_trip).base
    ≡ free_block_of ((run busy round_trip).size - arena_hdr)
run_defragments_example =
    run_defragments busy two_blocks round_trip busy-Tiled two_blocks-Coalesced round_trip_used

busy-Live : Live 4112 32 two_blocks busy.base
unfolding Live two_blocks init clear_mappings lay_first
busy-Live = inl (refl, refl, omega arith)

realloc-Resized_example : Resized busy 4112 32 60 (realloc busy 4112 60)
realloc-Resized_example =
    realloc-Resized busy two_blocks 4112 32 60 busy-Tiled busy-Live (omega arith)
