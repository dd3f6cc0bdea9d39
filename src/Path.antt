-- ===== src/Path.antt =====
-- src/fs/lxp_path.c: tests on paths. A string is the list of its characters before the zero, none of
-- which is 0.
pub mod Child
pub mod Normal
mod Canonical
mod Resolved
mod Fits
mod Again
mod Tests
use Prim.Native.Nat.{bit_xor}
use lxp.Common.{
  ℕ, zero, suc, ◌+◌, ◌*◌, ◌%◌, ◌^◌, Bool, true, false, Option, none, some, List, [], ◌∷◌, ◌==◌,
  ◌&&◌, ◌||◌, not, if◌then◌else◌, length,
}

abbrev pub slash : ℕ
slash = 47

-- `s[0] == '/' && s[1] == 0`
abbrev pub is_root : List ℕ → Bool
is_root (c ∷ []) = c == slash
is_root _ = false

-- `s[0] == '/'`
abbrev pub is_absolute : List ℕ → Bool
is_absolute [] = false
is_absolute (c ∷ cs) = c == slash

-- `!strchr(s, '/')`
unfoldable pub no_slash : List ℕ → Bool
no_slash [] = true
no_slash (c ∷ cs) = not (c == slash) && no_slash cs

-- `strncmp(path, prefix, strlen(prefix)) == 0`: what follows the prefix, if it is one
unfoldable pub behind : List ℕ → List ℕ → Option (List ℕ)
behind [] path = some path
behind (c ∷ cs) [] = none
behind (c ∷ cs) (d ∷ ds) = let rest = behind cs ds in if c == d then rest else none

-- the end of a path's component
abbrev pub at_boundary : List ℕ → Bool
at_boundary [] = true
at_boundary (c ∷ cs) = c == slash

-- lxp_path_under
unfoldable pub path_under : List ℕ → List ℕ → ℕ
path_under path prefix =
    if is_root prefix then (if is_absolute path then 1 else 0) else elim (behind prefix path) [
      | none ↦ 0
      | some rest ↦ if at_boundary rest then length prefix else 0
    ]

-- `*name && !strchr(name, '/') ? name : NULL`
abbrev pub one_name : List ℕ → Option (List ℕ)
one_name [] = none
one_name (c ∷ cs) = if no_slash (c ∷ cs) then some (c ∷ cs) else none

abbrev pub past_slash : List ℕ → Option (List ℕ)
past_slash [] = none
past_slash (c ∷ cs) = if c == slash then one_name cs else none

-- lxp_path_child_name; `none` is NULL
unfoldable pub path_child_name : List ℕ → List ℕ → Option (List ℕ)
path_child_name dir path =
    if is_root dir
    then past_slash path
    else elim (behind dir path) [ none ↦ none | some rest ↦ past_slash rest ]

-- lxp_path_hash, a 32-bit word
unfoldable pub path_hash : ℕ → List ℕ → ℕ
path_hash hash [] = hash
path_hash hash (c ∷ cs) = path_hash (bit_xor hash c * 16777619 % 2 ^ 32) cs
