-- ===== src/Path/Normal.antt =====
-- normalize_abs, resolve_from and their callers of src/fs/lxp_path.c. `out` is what has been written
-- to the output so far, the last byte first; the byte after it is the terminating zero. The fuel of
-- the loop is the length of the input, of which each round takes a byte or more.
use lxp.Common.{
  ℕ, zero, suc, ◌+◌, Bool, false, List, [], ◌∷◌, leb, ◌==◌, ◌&&◌, if◌then◌else◌, length, Result, ok,
  err,
}
use lxp.Errno.{efault, einval, enametoolong}
use lxp.Path.{slash, is_absolute}

abbrev pub dot : ℕ
dot = 46

-- LXP_PATH_MAX
abbrev pub path_max : ℕ
path_max = 256

unfoldable pub skip_slashes : List ℕ → List ℕ
skip_slashes [] = []
skip_slashes (c ∷ cs) = let rest = skip_slashes cs in if c == slash then rest else c ∷ cs

-- the component at the start of a path, and what is behind it
unfoldable pub segment : List ℕ → List ℕ
segment [] = []
segment (c ∷ cs) = let rest = segment cs in if c == slash then [] else c ∷ rest

unfoldable pub behind_segment : List ℕ → List ℕ
behind_segment [] = []
behind_segment (c ∷ cs) = let rest = behind_segment cs in if c == slash then c ∷ cs else rest

unfoldable pub is_dot : List ℕ → Bool
is_dot (c ∷ []) = c == dot
is_dot _ = false

unfoldable pub is_dot_dot : List ℕ → Bool
is_dot_dot (c ∷ d ∷ []) = c == dot && d == dot
is_dot_dot _ = false

-- `memcpy` of bytes to the end of the output
unfoldable pub onto : List ℕ → List ℕ → List ℕ
onto [] out = out
onto (c ∷ cs) out = onto cs (c ∷ out)

-- the last component is dropped, and then the slash before it
unfoldable pub drop_name : List ℕ → List ℕ
drop_name [] = []
drop_name (c ∷ out) = let rest = drop_name out in if c == slash then c ∷ out else rest

unfoldable pub drop_slash : List ℕ → List ℕ
drop_slash [] = []
drop_slash (c ∷ out) = out

-- what a round does with the component `seg`
unfoldable pub place : ℕ → List ℕ → List ℕ → Result (List ℕ)
unfolding is_dot is_dot_dot drop_name drop_slash onto
place outlen seg out =
    if is_dot seg
    then ok out
    else if is_dot_dot seg
    then ok (drop_slash (drop_name out))
    else if leb outlen (length out + 1 + length seg)
    then err enametoolong
    else ok (onto seg (slash ∷ out))

-- a round on a path without leading slashes: the rest of the path, and the output
unfoldable pub round : ℕ → List ℕ → List ℕ → Result (List ℕ × List ℕ)
unfolding place segment behind_segment
round outlen [] out = ok ([], out)
round outlen (c ∷ cs) out = elim (place outlen (segment (c ∷ cs)) out) [
  | err e ↦ err e
  | ok out' ↦ ok (behind_segment (c ∷ cs), out')
]

-- the loop of `normalize_abs`
unfoldable pub walk : ℕ → ℕ → List ℕ → List ℕ → Result (List ℕ)
unfolding round skip_slashes
walk zero outlen s out = ok out
walk (suc n) outlen s out = elim (round outlen (skip_slashes s) out) [
  | err e ↦ err e
  | ok (rest, out') ↦ walk n outlen rest out'
]

-- the string that the output holds in the end
unfoldable pub finished : List ℕ → List ℕ
unfolding onto
finished [] = slash ∷ []
finished (c ∷ out) = onto (c ∷ out) []

unfoldable pub normalize_abs : List ℕ → ℕ → Result (List ℕ)
unfolding walk finished
normalize_abs s outlen = elim (walk (length s) outlen s []) [
  | err e ↦ err e
  | ok out ↦ ok (finished out)
]

-- the copying loops of `resolve_from`, which leave room for `slack` bytes
unfoldable pub join : ℕ → List ℕ → List ℕ → Result (List ℕ)
join slack [] out = ok out
join slack (c ∷ cs) out =
    let rest = join slack cs (c ∷ out) in
    if leb path_max (length out + slack) then err enametoolong else rest

-- the base and a slash, before a relative path
abbrev pub prefixed : List ℕ → List ℕ → Result (List ℕ)
prefixed base s =
    if is_absolute s
    then ok []
    else elim (join 2 base []) [ err e ↦ err e | ok out ↦ ok (slash ∷ out) ]

unfoldable pub resolve_from : List ℕ → List ℕ → ℕ → Result (List ℕ)
unfolding join normalize_abs onto
resolve_from base s outlen = elim (prefixed base s) [
  | err e ↦ err e
  | ok out ↦ elim (join 1 s out) [
    | err e ↦ err e
    | ok joined ↦ normalize_abs (onto joined []) outlen
  ]
]

-- lxp_resolve_path; `readable` is whether the guest's string is one (`lxp_guest_strnlen`)
unfoldable pub resolve_path : Bool → List ℕ → List ℕ → ℕ → Result (List ℕ)
unfolding resolve_from
resolve_path readable cwd s outlen = if readable then resolve_from cwd s outlen else err efault

-- lxp_resolve_path_trusted
unfoldable pub resolve_path_trusted : List ℕ → ℕ → Result (List ℕ)
unfolding normalize_abs
resolve_path_trusted s outlen = if is_absolute s then normalize_abs s outlen else err einval
