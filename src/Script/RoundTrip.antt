-- ===== src/Script/RoundTrip.antt =====
-- A line that is written as src/proc/lxp_script.c reads it is parsed to what it was written from.
use lxp.Common.{
  ℕ, ◌+◌, ◌<◌, ◌≡◌, refl, ap, true, false, some, List, [], ◌∷◌, ◌++◌, arith, leb, ◌==◌, length, All,
  ◌⊎◌, inl, inr,
}
use lxp.Script.{
  present, is_blank, ends_token, skip_blanks, prepend, copy_loop, nonempty, copy_token,
  parse_argument, parse,
}

-- A word: characters that end no token, of which there is one at least.
unfoldable pub Word : List ℕ → Type 0
Word [] = ⊥
Word (c ∷ cs) = All (λ x. ends_token x ≡ false) (c ∷ cs)

-- What stands behind a word ends it.
Ends : List ℕ → Type 0
Ends [] = Unit
Ends (c ∷ cs) = ends_token c ≡ true

copy_loop_word :
    (room used : ℕ) (w rest : List ℕ)
    → All (λ x. ends_token x ≡ false) w
    → used + length w < room
    → Ends rest
    → copy_loop room used (w ++ rest) ≡ some (w, rest)
unfolding copy_loop Ends
copy_loop_word room used [] [] h lt e = refl
copy_loop_word room used [] (c ∷ cs) h lt e = rw e refl
copy_loop_word room used (c ∷ w) rest h lt e = rw h.0 (
    let small : leb room (used + 1) ≡ false = ground arith in
    rw small (ap (prepend c) (copy_loop_word room (used + 1) w rest h.1 (omega arith) e)))

copy_token-Word :
    (room : ℕ) (w rest : List ℕ)
    → Word w
    → length w < room
    → Ends rest
    → copy_token room (w ++ rest) ≡ some (w, rest)
unfolding copy_token Word
copy_token-Word room [] rest h lt e = absurd h
copy_token-Word room (c ∷ w) rest h lt e =
    ap nonempty (copy_loop_word room 0 (c ∷ w) rest h (omega arith) e)

-- A space or a tab.
abbrev pub Blank : ℕ → Type 0
Blank c = (c ≡ 32) ⊎ (c ≡ 9)

is_blank-Blank : (c : ℕ) → Blank c → is_blank c ≡ true
is_blank-Blank c (inl e) = ground (arith, e)
is_blank-Blank c (inr e) = ground (arith, e)

ends_token-Blank : (c : ℕ) → Blank c → ends_token c ≡ true
ends_token-Blank c (inl e) = ground (arith, e)
ends_token-Blank c (inr e) = ground (arith, e)

skip_blanks-Word :
    (gap w rest : List ℕ) → All Blank gap → Word w → skip_blanks (gap ++ (w ++ rest)) ≡ w ++ rest
unfolding skip_blanks Word
skip_blanks-Word [] [] rest b h = absurd h
skip_blanks-Word [] (c ∷ w) rest b h = ground (arith, h.0)
skip_blanks-Word (c ∷ gap) w rest b h =
    rw (is_blank-Blank c b.0) (skip_blanks-Word gap w rest b.1 h)

parse_argument-Word :
    (room : ℕ) (interpreter w rest : List ℕ)
    → Word w
    → length w < room
    → Ends rest
    → parse_argument room interpreter (w ++ rest) ≡ present interpreter (some w)
unfolding parse_argument Word
parse_argument-Word room interpreter [] rest h lt e = absurd h
parse_argument-Word room interpreter (c ∷ w) rest h lt e =
    let not_end : (c == 10) ≡ false = ground (arith, h.0) in
    rw not_end (rw (copy_token-Word room (c ∷ w) rest h lt e) refl)

-- `#!`, spaces and tabs, an interpreter, one or more spaces and tabs and an argument, each shorter than
-- its array and with no blank or line end inside, and then the end of the line: the parser answers this
-- interpreter and this argument, whatever stands on the lines below.
pub parse_line :
    (room room' c : ℕ) (lead gap interpreter argument below : List ℕ)
    → All Blank lead
    → Blank c
    → All Blank gap
    → Word interpreter
    → Word argument
    → length interpreter < room
    → length argument < room'
    → parse room room' (35 ∷ 33 ∷ (lead ++ (interpreter ++ c ∷ (gap ++ (argument ++ 10 ∷ below)))))
      ≡ present interpreter (some argument)
unfolding parse Ends
parse_line room room' c lead gap interpreter argument below bl bc bg hi ha li la =
    let tail = c ∷ (gap ++ (argument ++ 10 ∷ below)) in
    let first = skip_blanks-Word lead interpreter tail bl hi in
    let token = copy_token-Word room interpreter tail hi li (ends_token-Blank c bc) in
    let second : skip_blanks tail ≡ argument ++ 10 ∷ below =
      skip_blanks-Word (c ∷ gap) argument (10 ∷ below) (bc, bg) ha in
    rw first (
      rw token (rw second (parse_argument-Word room' interpreter argument (10 ∷ below) ha la refl)))
