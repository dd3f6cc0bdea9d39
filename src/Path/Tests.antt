-- ===== src/Path/Tests.antt =====
-- Witnesses and runs of src/fs/lxp_path.c.
use lxp.Common.{◌≡◌, refl, ℕ, none, List, [], ◌∷◌}
use lxp.Path.{path_child_name, path_under, behind, no_slash, path_hash}
use lxp.Common.{arith, ok, err}
use lxp.Errno.{enametoolong}
use lxp.Path.Normal.{
  skip_slashes, segment, behind_segment, is_dot, is_dot_dot, onto, drop_name, drop_slash, place,
  round, walk, finished, normalize_abs, join, resolve_from,
}
use lxp.Path.Canonical.{Segments, IsWritten, written, stack}
use lxp.Path.Resolved.{printed_result, normalize_abs-stack}
use lxp.Path.Fits.{FitsIn, normalize_abs-FitsIn}
use lxp.Path.Again.{normalize_abs_idempotent}
use lxp.Path.Child.{Name}

-- `/etc` and `rc`
abbrev etc : List ℕ
etc = 47 ∷ 101 ∷ 116 ∷ 99 ∷ []

abbrev rc : List ℕ
rc = 114 ∷ 99 ∷ []

rc-Name : Name rc
unfolding Name no_slash
rc-Name = refl

-- `/etcx` does not lie under `/etc`
not_under : path_under (47 ∷ 101 ∷ 116 ∷ 99 ∷ 120 ∷ []) etc ≡ 0
unfolding path_under behind
not_under = refl

no_grandchild : path_child_name etc (47 ∷ 101 ∷ 116 ∷ 99 ∷ 47 ∷ 97 ∷ 47 ∷ 98 ∷ []) ≡ none
unfolding path_child_name behind no_slash
no_grandchild = refl

-- FNV-1a of `a`
hash_of_a : path_hash 2166136261 (97 ∷ []) ≡ 3826002220
unfolding path_hash
hash_of_a = refl

-- `/a/../b//./c/`
abbrev segments : Segments
segments = (0, 97 ∷ []) ∷ (0, 46 ∷ 46 ∷ []) ∷ (0, 98 ∷ []) ∷ (1, 46 ∷ []) ∷ (0, 99 ∷ []) ∷ []

segments-IsWritten : IsWritten segments
unfolding IsWritten no_slash
segments-IsWritten = (
  refl,
  omega arith,
  (refl, omega arith, (refl, omega arith, (refl, omega arith, (refl, omega arith, tt)))),
)

normalize_abs-stack_example :
    normalize_abs (written segments 1) 256 ≡ printed_result (stack 256 segments [])
normalize_abs-stack_example = normalize_abs-stack segments 1 256 segments-IsWritten

-- it is `/b/c`
b_c : normalize_abs (written segments 1) 256 ≡ ok (47 ∷ 98 ∷ 47 ∷ 99 ∷ [])
unfolding normalize_abs walk round skip_slashes segment behind_segment place is_dot is_dot_dot onto
    drop_name drop_slash finished written
b_c = refl

-- in a buffer of four bytes there is no room for it with its zero
b_c_too_long : normalize_abs (written segments 1) 4 ≡ err enametoolong
unfolding normalize_abs walk round skip_slashes segment behind_segment place is_dot is_dot_dot onto
    drop_name drop_slash finished written
b_c_too_long = refl

normalize_abs_idempotent_example :
    normalize_abs (47 ∷ 98 ∷ 47 ∷ 99 ∷ []) 256 ≡ ok (47 ∷ 98 ∷ 47 ∷ 99 ∷ [])
normalize_abs_idempotent_example =
    normalize_abs_idempotent segments 1 256 (47 ∷ 98 ∷ 47 ∷ 99 ∷ []) segments-IsWritten b_c

normalize_abs-FitsIn_example : FitsIn 256 (normalize_abs (written segments 1) 256)
normalize_abs-FitsIn_example = normalize_abs-FitsIn (written segments 1) 256 (omega arith)

-- `../x` from `/etc` is `/x`
from_etc : resolve_from etc (46 ∷ 46 ∷ 47 ∷ 120 ∷ []) 256 ≡ ok (47 ∷ 120 ∷ [])
unfolding resolve_from join normalize_abs walk round skip_slashes segment behind_segment place
    is_dot is_dot_dot onto drop_name drop_slash finished
from_etc = refl
