-- ===== src/Script.antt =====
-- src/proc/lxp_script.c: the parser of a script's first line. The bytes of the file are a list; a
-- token is its characters, without the closing zero, and `room` is the size of the array it goes to.
mod RoundTrip
mod Tests
use lxp.Common.{
  ℕ, zero, suc, ◌+◌, Bool, true, false, Option, none, some, List, [], ◌∷◌, leb, ◌==◌, ◌||◌, ◌&&◌,
  if◌then◌else◌,
}

-- lxp_script_parse's answers: LXP_SCRIPT_NOT_PRESENT, -ENOEXEC, and LXP_SCRIPT_PRESENT with the
-- interpreter and the argument
pub data Parsed : Type 0 where
  not_present not_executable : Parsed
  present : List ℕ → Option (List ℕ) → Parsed

abbrev pub is_blank : ℕ → Bool
is_blank c = c == 32 || c == 9

abbrev pub ends_token : ℕ → Bool
ends_token c = is_blank c || c == 10

unfoldable pub skip_blanks : List ℕ → List ℕ
skip_blanks [] = []
skip_blanks (c ∷ cs) = let rest = skip_blanks cs in if is_blank c then rest else c ∷ cs

abbrev pub prepend : ℕ → Option (List ℕ × List ℕ) → Option (List ℕ × List ℕ)
prepend c none = none
prepend c (some (token, rest)) = some (c ∷ token, rest)

-- the loop of `copy_token`: the token and the bytes behind it, or `none` if the array is too small
unfoldable pub copy_loop : ℕ → ℕ → List ℕ → Option (List ℕ × List ℕ)
copy_loop room used [] = some ([], [])
copy_loop room used (c ∷ cs) =
    let rest = copy_loop room (used + 1) cs in
    if ends_token c then some ([], c ∷ cs) else if leb room (used + 1) then none else prepend c rest

abbrev pub nonempty : Option (List ℕ × List ℕ) → Option (List ℕ × List ℕ)
nonempty none = none
nonempty (some ([], rest)) = none
nonempty (some (c ∷ token, rest)) = some (c ∷ token, rest)

-- copy_token; `none` is -ENOEXEC
unfoldable pub copy_token : ℕ → List ℕ → Option (List ℕ × List ℕ)
unfolding copy_loop
copy_token room bytes = nonempty (copy_loop room 0 bytes)

-- what follows the interpreter
unfoldable pub parse_argument : ℕ → List ℕ → List ℕ → Parsed
parse_argument room interpreter [] = present interpreter none
parse_argument room interpreter (c ∷ cs) =
    if c == 10 then present interpreter none else elim (copy_token room (c ∷ cs)) [
      | none ↦ not_executable
      | some (argument, rest) ↦ present interpreter (some argument)
    ]

-- lxp_script_parse, with the sizes of the two arrays
unfoldable pub parse : ℕ → ℕ → List ℕ → Parsed
parse room_interpreter room_argument (a ∷ b ∷ cs) =
    if a == 35 && b == 33
    then elim (copy_token room_interpreter (skip_blanks cs)) [
      | none ↦ not_executable
      | some (interpreter, rest) ↦ parse_argument room_argument interpreter (skip_blanks rest)
    ]
    else not_present
parse room_interpreter room_argument _ = not_present
