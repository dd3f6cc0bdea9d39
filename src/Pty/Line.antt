-- ===== src/Pty/Line.antt =====
-- The canonical line of src/pty/lxp_pty.c: what is typed at the master reaches a program by lines.
use lxp.Common.{
  ℕ, ◌-◌, ◌≡◌, ◌≢◌, refl, sym, inl, inr, Bool, true, false, none, some, List, [], ◌∷◌, ◌++◌, arith,
  ltb, ◌==◌, ◌||◌, if◌then◌else◌, length, take, Bool-cases,
}
use lxp.Tty.{Tty, icanon, verase, veof, signal_for}
use lxp.Pty.{
  Pty, pty_canon, newline, carriage_return, backspace, blank, after_byte, translated, echoed,
  canonical_byte, input_byte, input_loop,
}
use lxp.Pty.Queue.{Queued}

-- A byte that edits the line: it raises no signal, is not the end of a line or of the input, and no
-- carriage return.
unfoldable pub IsEdit : Tty → ℕ → Type 0
IsEdit tty c =
    (signal_for tty c ≡ 0) × (c ≢ newline) × (c ≢ carriage_return) × (c ≢ tty.termios.cc veof)

unfoldable pub AllEdits : Tty → List ℕ → Type 0
AllEdits tty [] = Unit
AllEdits tty (c ∷ cs) = IsEdit tty c × AllEdits tty cs

abbrev pub erases : Tty → ℕ → Bool
erases tty c = c == tty.termios.cc verase || c == backspace

-- The line after the bytes: the erase character takes the last byte away, another one is added, but for
-- those beyond 256.
unfoldable pub edited : Tty → List ℕ → List ℕ → List ℕ
edited tty line [] = line
edited tty line (c ∷ cs) =
    edited tty
      (if erases tty c
        then take (length line - 1) line
        else if ltb (length line) pty_canon
        then line ++ (c ∷ [])
        else line)
      cs

-- A pty whose terminal is in canonical mode, with nothing for the program to read yet.
pub record Cooked (size : ℕ) (pt : Pty) (bs line : List ℕ) : Type 0 where
  pub mode : icanon pt.tty.termios ≡ true
  pub ready : signal_for pt.tty newline ≡ 0
  pub not_erase : newline ≢ pt.tty.termios.cc verase
  pub queued : Queued size pt.m2s bs
  pub unfinished : pt.canon ≡ line

-- The parts of a pty that typing a line leaves alone.
pub record Same (pt pt' : Pty) : Type 0 where
  pub m2s : pt'.m2s ≡ pt.m2s
  pub tty : pt'.tty ≡ pt.tty
  pub m2s_eof : pt'.m2s_eof ≡ pt.m2s_eof

pub input_canonical :
    (size : ℕ) (pt : Pty) (c : ℕ)
    → icanon pt.tty.termios ≡ true
    → signal_for pt.tty c ≡ 0
    → (c ≢ carriage_return)
    → input_byte size pt c
      ≡ (elim (canonical_byte size pt c) [ none ↦ none | some pt' ↦ some (pt', []) ])
unfolding input_byte
input_canonical size pt c mode quiet no_cr =
    let same : translated pt.tty c ≡ c = ground (arith, no_cr) in
    let test : (signal_for pt.tty c == 0) ≡ true = ground (arith, quiet) in
    rw same (rw test (rw mode refl))

-- the line after one byte more
abbrev pub one_edit : Tty → List ℕ → ℕ → List ℕ
one_edit tty line c =
    if erases tty c
    then take (length line - 1) line
    else if ltb (length line) pty_canon
    then line ++ (c ∷ [])
    else line

nothing_to_take : (xs : List ℕ) → ltb 0 (length xs) ≡ false → take (length xs - 1) xs ≡ xs
nothing_to_take [] e = refl
nothing_to_take (x ∷ xs) e = absurd (ground (arith, e))

-- what the line's byte `c` does to a pty
pub record Edited (pt : Pty) (c : ℕ) (pt' : Pty) : Type 0 where
  pub same : Same pt pt'
  pub line : pt'.canon ≡ one_edit pt.tty pt.canon c

pub edit_byte :
    (size : ℕ) (pt : Pty) (c : ℕ)
    → IsEdit pt.tty c
    → (pt' : Pty) × (canonical_byte size pt c ≡ some pt') × Edited pt c pt'
unfolding canonical_byte IsEdit
edit_byte size pt c (quiet, no_nl, no_cr, no_eof) =
    let nl : (c == newline) ≡ false = ground (arith, no_nl) in
    let eof : (c == pt.tty.termios.cc veof) ≡ false = ground (arith, no_eof) in
    let kept : Same pt pt = record { m2s = refl; tty = refl; m2s_eof = refl } in
    elim (Bool-cases (erases pt.tty c)) [
      | inl e ↦ elim (Bool-cases (ltb 0 (length pt.canon))) [
        | inl f ↦ (
          record pt {
            canon = take (length pt.canon - 1) pt.canon;
            s2m = echoed size pt (backspace ∷ blank ∷ backspace ∷ []);
          },
          rw e (rw f refl),
          record { same = record { m2s = refl; tty = refl; m2s_eof = refl }; line = rw e refl },
        )
        | inr f ↦ (
          pt,
          rw e (rw f refl),
          record { same = kept; line = rw e (sym (nothing_to_take pt.canon f)) },
        )
      ]
      | inr e ↦ elim (Bool-cases (ltb (length pt.canon) pty_canon)) [
        | inl f ↦ (
          record pt { canon = pt.canon ++ (c ∷ []); s2m = echoed size pt (c ∷ []) },
          rw e (rw nl (rw eof (rw f refl))),
          record {
            same = record { m2s = refl; tty = refl; m2s_eof = refl };
            line = rw e (rw f refl);
          },
        )
        | inr f ↦
            (pt, rw e (rw nl (rw eof (rw f refl))), record { same = kept; line = rw e (rw f refl) })
      ]
    ]

pub loop_edit :
    (size : ℕ) (pt pt' : Pty) (c : ℕ) (cs : List ℕ)
    → icanon pt.tty.termios ≡ true
    → IsEdit pt.tty c
    → canonical_byte size pt c ≡ some pt'
    → input_loop size pt (c ∷ cs) ≡ after_byte [] (input_loop size pt' cs)
unfolding input_loop IsEdit
loop_edit size pt pt' c cs mode (quiet, no_nl, no_cr, no_eof) e =
    rw (input_canonical size pt c mode quiet no_cr, input_loop) (rw e refl)
