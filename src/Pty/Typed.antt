-- ===== src/Pty/Typed.antt =====
-- A line typed at the master's end of a pty (src/pty/lxp_pty.c) is read by the program as it was edited.
use lxp.Common.{
  ℕ, suc, ◌+◌, ◌≤◌, ◌<◌, ◌≡◌, refl, sym, ◌∙◌, ap, subst, inl, inr, true, false, List, [], ◌∷◌, ◌++◌,
  arith, ltb, ◌==◌, ◌||◌, length, length-append, append_assoc, Bool-cases,
}
use lxp.Tty.{icanon, verase, signal_for}
use lxp.Pty.{
  Pty, newline, backspace, ring_space, put_all, Consumed, after_byte, canonical_byte, input_loop,
}
use lxp.Pty.Queue.{Queued, put_all-Queued}
use lxp.Pty.Line.{
  AllEdits, edited, one_edit, Cooked, Same, Edited, input_canonical, edit_byte, loop_edit,
}

-- The pty after a line: it was delivered, or it waits since there is no room for all of it.
pub data Ended (size : ℕ) (pt : Pty) (bs line : List ℕ) (n : ℕ) : Consumed → Type 0 where
  delivered :
      (r : Consumed)
      → r.full ≡ false
      → r.consumed ≡ suc n
      → Queued size r.pty.m2s (bs ++ (line ++ (newline ∷ [])))
      → r.pty.canon ≡ []
      → r.pty.tty ≡ pt.tty
      → Ended size pt bs line n r
  waiting :
      (r : Consumed)
      → r.full ≡ true
      → r.consumed ≡ n
      → size < length bs + length line + 1
      → r.pty.m2s ≡ pt.m2s
      → r.pty.canon ≡ line
      → r.pty.tty ≡ pt.tty
      → Ended size pt bs line n r

newline_byte :
    (size : ℕ) (pt : Pty) (bs line : List ℕ)
    → Cooked size pt bs line
    → Ended size pt bs line 0 (input_loop size pt (newline ∷ []))
unfolding input_loop canonical_byte
newline_byte size pt bs line k =
    let erase : (newline == pt.tty.termios.cc verase || newline == backspace) ≡ false =
      ground (arith, k.not_erase) in
    elim (Bool-cases (ltb (ring_space size pt.m2s) (length pt.canon + 1))) [
      | inl e ↦
          rw (input_canonical size pt newline k.mode k.ready (λ z. ground (arith, z)), input_loop)
            (rw (erase, canonical_byte)
              (rw e (
                waiting _ refl refl
                  (ground (
                    arith,
                    e,
                    k.queued.count,
                    ap (λ x. length x) k.unfinished,
                    k.queued.holds.room,
                  ))
                  refl k.unfinished refl)))
      | inr e ↦
          let line_len = ap (λ x. length x) k.unfinished in
          let fits : length bs + length pt.canon + 1 ≤ size =
            ground (arith, e, k.queued.count, k.queued.holds.room) in
          let first = put_all-Queued size pt.canon pt.m2s bs k.queued (omega (arith, fits)) in
          let second =
            put_all-Queued size (newline ∷ []) _ (bs ++ pt.canon) first
              (omega (arith, fits, length-append bs pt.canon)) in
          let whole : (bs ++ pt.canon) ++ (newline ∷ []) ≡ bs ++ (line ++ (newline ∷ [])) =
            append_assoc bs pt.canon (newline ∷ [])
            ∙ ap (λ z. bs ++ (z ++ (newline ∷ []))) k.unfinished in
          rw (input_canonical size pt newline k.mode k.ready (λ z. ground (arith, z)), input_loop)
            (rw (erase, canonical_byte)
              (rw e (
                delivered _ refl refl
                  (subst (Queued size (put_all size (put_all size pt.m2s pt.canon) (newline ∷ [])))
                    whole second)
                  refl refl)))
    ]

after_one :
    (size : ℕ) (pt pt' : Pty) (bs line : List ℕ) (n : ℕ) (r : Consumed)
    → Same pt pt'
    → Ended size pt' bs line n r
    → Ended size pt bs line (suc n) (after_byte [] r)
after_one size pt pt' bs line n _ s (delivered r f c q l t) =
    delivered (after_byte [] r) f (ap suc c) q l (t ∙ s.tty)
after_one size pt pt' bs line n _ s (waiting r f c room m l t) =
    waiting (after_byte [] r) f (ap suc c) room (m ∙ s.m2s) l (t ∙ s.tty)

Cooked-edit :
    (size : ℕ) (pt pt' : Pty) (bs : List ℕ) (c : ℕ) (line : List ℕ)
    → Cooked size pt bs line
    → Edited pt c pt'
    → Cooked size pt' bs (one_edit pt.tty line c)
Cooked-edit size pt pt' bs c line k e =
    let t = e.same.tty in
    record {
      mode = ap (λ x. icanon x.termios) t ∙ k.mode;
      ready = ap (λ x. signal_for x newline) t ∙ k.ready;
      not_erase = λ z. k.not_erase (z ∙ ap (λ x. x.termios.cc verase) t);
      queued = subst (λ x. Queued size x bs) (sym e.same.m2s) k.queued;
      unfinished = e.line ∙ ap (λ l. one_edit pt.tty l c) k.unfinished;
    }

-- Editing keys and the end of a line, put into a terminal in canonical mode: the program gets the
-- line as it was edited, with what it had not read yet before it, and the line starts anew; but when
-- the ring has no room for the whole line, nothing of it is delivered, and all but its end is consumed.
pub input_loop-Ended :
    (keys : List ℕ) (size : ℕ) (pt : Pty) (bs line : List ℕ)
    → Cooked size pt bs line
    → AllEdits pt.tty keys
    → Ended size pt bs
        (edited pt.tty line keys)
        (length keys)
        (input_loop size pt (keys ++ (newline ∷ [])))
unfolding edited AllEdits
input_loop-Ended [] size pt bs line k edits = newline_byte size pt bs line k
input_loop-Ended (c ∷ keys) size pt bs line k (edit, edits) =
    let (pt', step, done) = edit_byte size pt c edit in
    let t = done.same.tty in
    let rest =
      input_loop-Ended keys size pt' bs (one_edit pt.tty line c)
        (Cooked-edit size pt pt' bs c line k done) (subst (λ x. AllEdits x keys) (sym t) edits) in
    rw (loop_edit size pt pt' c (keys ++ (newline ∷ [])) k.mode edit step) (
      after_one size pt pt' bs _ (length keys) _ done.same (
        subst
          (λ x.
            Ended size pt' bs (edited x (one_edit pt.tty line c) keys) (length keys)
              (input_loop size pt' (keys ++ (newline ∷ []))))
          t rest))
