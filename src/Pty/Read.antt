-- ===== src/Pty/Read.antt =====
-- A program's read of a line that was typed at the master's end of a pty (src/pty/lxp_pty.c).
use lxp.Common.{
  ℕ, zero, suc, ◌+◌, ◌-◌, ◌≤◌, ◌<◌, ◌≡◌, ◌≢◌, refl, ◌∙◌, ap, subst, inl, inr, true, false, List, [],
  ◌∷◌, ◌++◌, arith, ltb, ◌==◌, length, take, drop, length-append, Bool-cases, ok,
}
use lxp.Tty.{Tty, icanon}
use lxp.Pty.{Pty, pty_canon, newline, ring_read_line, Consumed, input_loop, count_of}
use lxp.Pty.Calls.{read_end, write_end, m2s_read}
use lxp.Pty.Queue.{Queued, ring_read_line-Queued, line_of}
use lxp.Pty.Line.{IsEdit, AllEdits, edited, erases, Cooked}
use lxp.Pty.Typed.{Ended, delivered, waiting, input_loop-Ended}

NoNewline : List ℕ → Type 0
NoNewline [] = Unit
NoNewline (c ∷ cs) = (c ≢ newline) × NoNewline cs

NoNewline-take : (n : ℕ) (cs : List ℕ) → NoNewline cs → NoNewline (take n cs)
unfolding NoNewline
NoNewline-take zero cs h = tt
NoNewline-take (suc n) [] h = tt
NoNewline-take (suc n) (c ∷ cs) (ne, h) = (ne, NoNewline-take n cs h)

NoNewline-append : (cs : List ℕ) (c : ℕ) → NoNewline cs → c ≢ newline → NoNewline (cs ++ (c ∷ []))
unfolding NoNewline
NoNewline-append [] c h ne = (ne, tt)
NoNewline-append (d ∷ cs) c (here, h) ne = (here, NoNewline-append cs c h ne)

edited-NoNewline :
    (keys : List ℕ) (tty : Tty) (line : List ℕ)
    → NoNewline line
    → AllEdits tty keys
    → NoNewline (edited tty line keys)
unfolding edited AllEdits IsEdit
edited-NoNewline [] tty line h edits = h
edited-NoNewline (c ∷ keys) tty line h ((quiet, no_nl, no_cr, no_eof), edits) =
    elim (Bool-cases (erases tty c)) [
      | inl e ↦
          rw e (
            edited-NoNewline keys tty (take (length line - 1) line) (NoNewline-take _ line h) edits)
      | inr e ↦ elim (Bool-cases (ltb (length line) pty_canon)) [
        | inl f ↦ rw e (
            rw f (
              edited-NoNewline keys tty (line ++ (c ∷ [])) (NoNewline-append line c h no_nl) edits))
        | inr f ↦ rw e (rw f (edited-NoNewline keys tty line h edits))
      ]
    ]

line_of_line :
    (line : List ℕ) (len : ℕ)
    → NoNewline line
    → length line < len
    → line_of len (line ++ (newline ∷ [])) ≡ line ++ (newline ∷ [])
unfolding line_of NoNewline
line_of_line line zero h lt = absurd (omega (arith, lt))
line_of_line [] (suc len) h lt = refl
line_of_line (c ∷ line) (suc len) (ne, h) lt =
    let test : (c == newline) ≡ false = ground (arith, ne) in
    rw test (ap (◌∷◌ c) (line_of_line line len h (omega (arith, lt))))

read_line :
    (size : ℕ) (pt : Pty) (len : ℕ)
    → 1 ≤ len
    → 1 ≤ pt.m2s.n
    → icanon pt.tty.termios ≡ true
    → read_end size pt false len ≡ m2s_read pt (ring_read_line size pt.m2s len)
unfolding read_end
read_line size pt len some_room some_byte mode =
    let room : (len == 0) ≡ false = ground (arith, some_room) in
    let byte : ltb 0 pt.m2s.n ≡ true = ground (arith, some_byte) in rw room (rw byte (rw mode refl))

drop_all : (cs : List ℕ) → drop (length cs) cs ≡ []
drop_all [] = refl
drop_all (c ∷ cs) = drop_all cs

all_dropped :
    (line : List ℕ) (len : ℕ)
    → line_of len (line ++ (newline ∷ [])) ≡ line ++ (newline ∷ [])
    → drop (length (line_of len (line ++ (newline ∷ [])))) (line ++ (newline ∷ [])) ≡ []
all_dropped line len whole =
    ap (λ z. drop (length z) (line ++ (newline ∷ []))) whole ∙ drop_all (line ++ (newline ∷ []))

-- what the program reads of a line that was delivered
read_delivered :
    (size : ℕ) (pt : Pty) (len : ℕ) (line : List ℕ)
    → Queued size pt.m2s (line ++ (newline ∷ []))
    → icanon pt.tty.termios ≡ true
    → NoNewline line
    → length line < len
    → (let (answer, bytes, pt') = read_end size pt false len in
        (answer ≡ ok (length line + 1)) × (bytes ≡ line ++ (newline ∷ [])) × Queued size pt'.m2s [])
read_delivered size pt len line q mode no_nl lt =
    let more = length-append line (newline ∷ []) in
    let (bytes, left) = ring_read_line-Queued len size pt.m2s (line ++ (newline ∷ [])) q in
    let whole = line_of_line line len no_nl lt in
    rw (read_line size pt len (omega (arith, lt)) (omega (arith, q.count, more)) mode) (
      ap ok (ap (λ z. length z) (bytes ∙ whole) ∙ omega (arith, more)),
      bytes ∙ whole,
      subst (Queued size (ring_read_line size pt.m2s len).1) (all_dropped line len whole) left,
    )

counted : (r : Consumed) (n : ℕ) → r.full ≡ false → r.consumed ≡ suc n → count_of r ≡ ok (n + 1)
counted r n full consumed = rw full (ap ok (omega (arith, consumed)))

-- the same after the loop that consumed the line
ended_read :
    (size : ℕ) (pt : Pty) (keys : List ℕ) (len : ℕ)
    → icanon pt.tty.termios ≡ true
    → NoNewline (edited pt.tty [] keys)
    → length (edited pt.tty [] keys) < size
    → length (edited pt.tty [] keys) < len
    → (r : Consumed) → Ended size pt [] (edited pt.tty [] keys) (length keys) r
    → (let line = edited pt.tty [] keys in
        let (answer', bytes, pt'') = read_end size r.pty false len in
        (count_of r ≡ ok (length keys + 1))
        × (answer' ≡ ok (length line + 1))
        × (bytes ≡ line ++ (newline ∷ []))
        × Queued size pt''.m2s [])
ended_read size pt keys len mode no_nl room wide _ (delivered r full consumed q canon tty) =
    let (answer, bytes, left) =
      read_delivered size r.pty len (edited pt.tty [] keys) q
        (ap (λ x. icanon x.termios) tty ∙ mode) no_nl wide in
    (counted r (length keys) full consumed, answer, bytes, left)
ended_read size pt keys len mode no_nl room wide _ (waiting r full consumed no_room m2s canon tty) =
    absurd (omega (arith, no_room, room))

-- A line typed at the master's end of a pty in canonical mode, with bytes that edit it and a newline at
-- its end, is consumed whole when the ring has room for it; a program whose buffer has room for it then
-- reads the edited line with its newline, and nothing is left. Here nothing was typed or waiting to be
-- read before.
pub typed_line_read :
    (size : ℕ) (pt : Pty) (keys : List ℕ) (len : ℕ)
    → Cooked size pt [] []
    → AllEdits pt.tty keys
    → length (edited pt.tty [] keys) < size
    → length (edited pt.tty [] keys) < len
    → (let line = edited pt.tty [] keys in
        let (answer, signals, pt') = write_end size pt true (keys ++ (newline ∷ [])) in
        let (answer', bytes, pt'') = read_end size pt' false len in
        (answer ≡ ok (length keys + 1))
        × (answer' ≡ ok (length line + 1))
        × (bytes ≡ line ++ (newline ∷ []))
        × Queued size pt''.m2s [])
unfolding write_end
typed_line_read size pt keys len k edits room wide =
    let some_byte : (length (keys ++ (newline ∷ [])) == 0) ≡ false =
      ground (arith, length-append keys (newline ∷ [])) in
    rw some_byte (
      ended_read size pt keys len k.mode
        (edited-NoNewline keys pt.tty [] (unfold NoNewline in tt) edits) room wide
        (input_loop size pt (keys ++ (newline ∷ []))) (input_loop-Ended keys size pt [] [] k edits))
