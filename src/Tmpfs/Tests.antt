-- ===== src/Tmpfs/Tests.antt =====
-- Witnesses and runs of src/fs/lxp_tmpfs.c: one file of two bytes in a pool of 1024 bytes at 4096.
use lxp.Common.{ℕ, zero, suc, map, ◌≡◌, refl, inl, true, List, [], ◌∷◌, arith, ◌==◌, if◌then◌else◌}
use lxp.Common.Bytes.{blit}
use lxp.Arena.{Arena, Header, free_block_of, geometry_ok, arena_magic}
use lxp.Arena.Tiles.{Tiles, WellFormed, in_use}
use lxp.Arena.Valid.{Tiled}
use lxp.Path.{path_under, behind}
use lxp.Tmpfs.Rename.{has_descendant, too_long, move_below, renamed, rename}
use lxp.Tmpfs.Growth.{Sound}
use lxp.Tmpfs.Written.{Effect, Accepts, pwrite-Effect}
use lxp.Arena.Live.{Live}
use lxp.Tmpfs.Files.{pwrite}
use lxp.Tmpfs.Names.{Unique}
use lxp.Tmpfs.Calls.{Step, Reaches, reaches-Unique}
use lxp.Tmpfs.{
  same, find, find_from, create, create_from, free_node, Wnode, Tmpfs, zero_node, new_node,
  ready_arena,
}
use lxp.Tmpfs.Contents.{contents, overwritten}

abbrev used_block : Header
used_block = record { payload = 256; is_free = 0; magic = arena_magic }

abbrev arena : Arena
arena = record {
  base = 4096;
  size = 1024;
  first = 4096;
  used = 272;
  high_water = 272;
  mappings = [];
  head = λ k. if k == 4096 then used_block else free_block_of 736;
  bytes = λ k. if k == 4112 then 7 else 9;
}

abbrev file : Wnode
file = record (new_node (47 ∷ 97 ∷ []) 33188) { data_at = 4112; size = 2; cap = 256 }

abbrev one_file : Tmpfs
one_file = record { nodes = file ∷ zero_node ∷ []; arena = arena; ready = true }

blocks : List Header
blocks = used_block ∷ free_block_of 736 ∷ []

arena-Tiled : Tiled arena blocks
unfolding Tiled geometry_ok Tiles WellFormed in_use blocks
arena-Tiled = (
  refl,
  (
    refl,
    (refl, omega arith, omega arith, refl),
    (refl, (refl, omega arith, omega arith, refl), refl),
  ),
  refl,
)

ready-Tiled : Tiled (ready_arena 4096 1024 one_file) blocks
unfolding ready_arena
ready-Tiled = arena-Tiled

file-Sound : Sound one_file 0
unfolding Live blocks
file-Sound = record {
  size_fits = omega arith;
  empty = λ e. absurd (omega (arith, e));
  backed = λ e. (refl, (blocks, arena-Tiled, inl (refl, refl, omega arith)));
}

-- The write reaches beyond the capacity, and the block grows.
pwrite-Effect_example :
    Effect one_file 0 2 257
      (contents one_file 0)
      (overwritten (contents one_file 0) 255 (1 ∷ 2 ∷ []))
      (Accepts 4096 1024 one_file 0 true (1 ∷ 2 ∷ []) 255)
      (pwrite 4096 1024 one_file 0 true (1 ∷ 2 ∷ []) 255)
pwrite-Effect_example =
    pwrite-Effect 4096 1024 one_file 0 true (1 ∷ 2 ∷ []) 255 blocks file-Sound ready-Tiled
      (omega arith) (omega arith)

overwritten_run : overwritten (7 ∷ 9 ∷ []) 3 (1 ∷ []) ≡ 7 ∷ 9 ∷ 0 ∷ 1 ∷ []
unfolding blit
overwritten_run = refl

abbrev blank : Tmpfs
blank = record one_file { nodes = zero_node ∷ zero_node ∷ [] }

blank-Unique : Unique blank.nodes
blank-Unique zero k q n m = absurd (ground (arith, n.0))
blank-Unique (suc zero) k q n m = absurd (ground (arith, n.0))
blank-Unique (suc (suc j)) k q n m = absurd (ground (arith, n.0))

-- "/d", "/d/f" and "/e"
abbrev dir_path : List ℕ
dir_path = 47 ∷ 100 ∷ []

abbrev file_path : List ℕ
file_path = 47 ∷ 100 ∷ 47 ∷ 102 ∷ []

abbrev new_path : List ℕ
new_path = 47 ∷ 101 ∷ []

abbrev with_dir : Tmpfs
with_dir = record blank { nodes = (create blank.nodes dir_path 16877).0 }

abbrev with_file : Tmpfs
with_file = record with_dir { nodes = (create with_dir.nodes file_path 33188).0 }

abbrev moved_dir : Tmpfs
moved_dir = (rename with_file 0 new_path).0

moving : Reaches blank moved_dir
unfolding create create_from find find_from same has_descendant path_under behind
moving = Reaches.step _ with_dir _ (Step.created blank dir_path 16877 refl) (
    Reaches.step _ with_file _ (Step.created with_dir file_path 33188 refl) (
      Reaches.step _ moved_dir _ (Step.renamed_to with_file 0 new_path refl refl (λ e. refl))
        (Reaches.stay moved_dir)))

reaches-Unique_example : Unique moved_dir.nodes
reaches-Unique_example = reaches-Unique blank moved_dir moving blank-Unique

moved_names :
    map (λ (w : Wnode). w.path) moved_dir.nodes ≡ new_path ∷ (47 ∷ 101 ∷ 47 ∷ 102 ∷ []) ∷ []
unfolding create create_from rename renamed find find_from same has_descendant too_long move_below
    path_under behind free_node
moved_names = refl

-- A file in a directory that does not exist, and another directory that is renamed to that one.
abbrev orphaned : Tmpfs
orphaned = record blank {
  nodes =
      new_node (47 ∷ 101 ∷ 47 ∷ 102 ∷ []) 33188
      ∷ new_node dir_path 16877
      ∷ new_node file_path 33188
      ∷ [];
}

doubled_names :
    map (λ (w : Wnode). w.path) (rename orphaned 1 new_path).0.nodes
    ≡ (47 ∷ 101 ∷ 47 ∷ 102 ∷ []) ∷ new_path ∷ (47 ∷ 101 ∷ 47 ∷ 102 ∷ []) ∷ []
unfolding rename renamed find find_from same has_descendant too_long move_below path_under behind
    free_node
doubled_names = refl
