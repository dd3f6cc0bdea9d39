-- ===== src/Script/Tests.antt =====
-- Witnesses and runs of src/proc/lxp_script.c.
use lxp.Common.{ℕ, ◌≡◌, refl, arith, some, List, [], ◌∷◌, ◌++◌, inl, inr}
use lxp.Script.{
  not_present, not_executable, present, parse, copy_token, copy_loop, skip_blanks, parse_argument,
}
use lxp.Script.RoundTrip.{Word, parse_line}

-- `/sh` and `-e`
abbrev shell : List ℕ
shell = 47 ∷ 115 ∷ 104 ∷ []

abbrev flag : List ℕ
flag = 45 ∷ 101 ∷ []

shell-Word : Word shell
unfolding Word
shell-Word = (refl, (refl, (refl, tt)))

flag-Word : Word flag
unfolding Word
flag-Word = (refl, (refl, tt))

-- a space before the interpreter, and a tab and a space behind it
parse_line_example :
    parse 128 128 (35 ∷ 33 ∷ 32 ∷ (shell ++ 9 ∷ 32 ∷ (flag ++ 10 ∷ 120 ∷ [])))
    ≡ present shell (some flag)
parse_line_example =
    parse_line 128 128 9 (32 ∷ []) (32 ∷ []) shell flag (120 ∷ []) (inl refl, tt) (inr refl)
      (inl refl, tt) shell-Word flag-Word (omega arith) (omega arith)

no_interpreter : parse 128 128 (35 ∷ 33 ∷ 32 ∷ 10 ∷ []) ≡ not_executable
unfolding parse copy_token copy_loop skip_blanks parse_argument
no_interpreter = refl

no_line : parse 128 128 (35 ∷ 47 ∷ 10 ∷ []) ≡ not_present
unfolding parse
no_line = refl
