-- ===== src/Pty/Output.antt =====
-- pty_output of src/pty/lxp_pty.c: what a program writes reaches the master's ring.
use lxp.Common.{
  ℕ, suc, ◌≤◌, ◌<◌, ◌≡◌, refl, sym, ap, subst, ◌⊎◌, inl, inr, true, false, none, some, List, [],
  ◌∷◌, ◌++◌, arith, ltb, ◌==◌, ◌&&◌, if◌then◌else◌, length, take, length-append, append-nil,
  append_assoc, Bool-cases, ok, err,
}
use lxp.Errno.{eagain}
use lxp.Tty.{Tty, opost, onlcr}
use lxp.Pty.{
  PtyRing, Pty, newline, carriage_return, ring_space, put_all, Consumed, after_byte, output_byte,
  output_loop,
}
use lxp.Pty.Calls.{write_end}
use lxp.Pty.Queue.{Queued, put_all-Queued}

-- What the terminal makes of the bytes that a program writes.
abbrev pub emitted : Tty → ℕ → List ℕ
emitted tty c =
    if opost tty.termios && onlcr tty.termios && c == newline
    then carriage_return ∷ newline ∷ []
    else c ∷ []

pub processed : Tty → List ℕ → List ℕ
processed tty [] = []
processed tty (c ∷ cs) = emitted tty c ++ processed tty cs

abbrev with_output : Pty → PtyRing → Pty
with_output pt q = record pt { s2m = q }

output_byte_lem :
    (size : ℕ) (pt : Pty) (c : ℕ)
    → output_byte size pt c ≡ (
        if ltb (ring_space size pt.s2m) (length (emitted pt.tty c))
        then none
        else some (with_output pt (put_all size pt.s2m (emitted pt.tty c))))
unfolding output_byte
output_byte_lem size pt c =
    elim (Bool-cases (opost pt.tty.termios && onlcr pt.tty.termios && c == newline)) [
      | inl e ↦ rw e refl
      | inr e ↦ elim (Bool-cases (ring_space size pt.s2m == 0)) [
        | inl f ↦
            let g : ltb (ring_space size pt.s2m) 1 ≡ true = ground (arith, f) in
            rw e (rw f (rw g refl))
        | inr f ↦
            let g : ltb (ring_space size pt.s2m) 1 ≡ false = ground (arith, f) in
            rw e (rw f (rw g refl))
      ]
    ]

-- What the loop comes to: a first part of the input was put through, and the next byte does not fit.
pub record Written (size : ℕ) (pt : Pty) (bs input : List ℕ) (r : Consumed) : Type 0 where
  pub queued : Queued size r.pty.s2m (bs ++ processed pt.tty (take r.consumed input))
  pub kept : r.pty ≡ with_output pt r.pty.s2m
  pub signals : r.signals ≡ []
  pub taken : r.consumed ≤ length input
  pub all : r.full ≡ false → r.consumed ≡ length input
  pub stuck :
      r.full ≡ true
      → (r.consumed < length input)
        × (size < length (bs ++ processed pt.tty (take (suc r.consumed) input)))

output_stuck :
    (size : ℕ) (pt : Pty) (c : ℕ) (cs : List ℕ)
    → ltb (ring_space size pt.s2m) (length (emitted pt.tty c)) ≡ true
    → output_loop size pt (c ∷ cs) ≡ record { pty = pt; signals = []; consumed = 0; full = true }
unfolding output_loop
output_stuck size pt c cs e = rw (output_byte_lem size pt c, output_loop) (rw e refl)

output_more :
    (size : ℕ) (pt : Pty) (c : ℕ) (cs : List ℕ)
    → ltb (ring_space size pt.s2m) (length (emitted pt.tty c)) ≡ false
    → output_loop size pt (c ∷ cs)
      ≡ after_byte []
          (output_loop size (with_output pt (put_all size pt.s2m (emitted pt.tty c))) cs)
unfolding output_loop
output_more size pt c cs e = rw (output_byte_lem size pt c, output_loop) (rw e refl)

pub output_loop-Written :
    (input : List ℕ) (size : ℕ) (pt : Pty) (bs : List ℕ)
    → Queued size pt.s2m bs
    → Written size pt bs input (output_loop size pt input)
unfolding processed output_loop
output_loop-Written [] size pt bs h = record {
  queued = subst (Queued size pt.s2m) (sym (append-nil bs)) h;
  kept = refl;
  signals = refl;
  taken = omega arith;
  all = λ z. refl;
  stuck = λ z. absurd (ground (arith, z));
}
output_loop-Written (c ∷ cs) size pt bs h =
    let out = emitted pt.tty c in
    elim (Bool-cases (ltb (ring_space size pt.s2m) (length out))) [
      | inl e ↦ rw (output_stuck size pt c cs e) (record {
        queued = subst (Queued size pt.s2m) (sym (append-nil bs)) h;
        kept = refl;
        signals = refl;
        taken = omega arith;
        all = λ z. absurd (ground (arith, z));
        stuck = λ z. (
          omega arith,
          ground
              (arith, e, h.count, h.holds.room, length-append bs (out ++ []), length-append out []),
        );
      })
      | inr e ↦
          let pt' = with_output pt (put_all size pt.s2m out) in
          let queued =
            put_all-Queued size out pt.s2m bs h (ground (arith, e, h.count, h.holds.room)) in
          let w = output_loop-Written cs size pt' (bs ++ out) queued in
          let r = output_loop size pt' cs in
          rw (output_more size pt c cs e) (record {
            queued =
                subst (Queued size r.pty.s2m)
                  (append_assoc bs out (processed pt.tty (take r.consumed cs))) w.queued;
            kept = w.kept;
            signals = w.signals;
            taken = omega (arith, w.taken);
            all = λ z. ap suc (w.all z);
            stuck = λ z.
                let (less, wide) = w.stuck z in
                (
                  omega (arith, less),
                  subst (λ b. size < length b)
                      (append_assoc bs out (processed pt.tty (take (suc r.consumed) cs))) wide,
                );
          })
    ]

-- A program's write to its end of an open pty: a first part of the bytes, of which the answer is the
-- number, is added to what the master can read, each newline with a carriage return before it where
-- the terminal is set so; it is the whole, or there is no room for the next byte. When that is the first
-- byte, the answer is EAGAIN. Nothing else of the pty changes, and no signal is raised.
pub write_end-Written :
    (size : ℕ) (pt : Pty) (bs input : List ℕ)
    → Queued size pt.s2m bs
    → 1 ≤ length input
    → (let (answer, signals, pt') = write_end size pt false input in
        (n : ℕ) × Queued size pt'.s2m (bs ++ processed pt.tty (take n input))
        × (pt' ≡ with_output pt pt'.s2m)
        × (signals ≡ [])
        × ((n ≡ length input)
            ⊎ ((n < length input) × (size < length (bs ++ processed pt.tty (take (suc n) input)))))
        × (answer ≡ (if n == 0 then err eagain else ok n)))
unfolding write_end
write_end-Written size pt bs input h some_byte =
    let r = output_loop size pt input in
    let w = output_loop-Written input size pt bs h in
    let test : (length input == 0) ≡ false = ground (arith, some_byte) in
    rw test (
      r.consumed,
      w.queued,
      w.kept,
      w.signals,
      elim (Bool-cases r.full) [ inl e ↦ inr (w.stuck e) | inr e ↦ inl (w.all e) ],
      elim (Bool-cases r.full) [
        | inl e ↦ rw e refl
        | inr e ↦
            let all = w.all e in
            let more : (r.consumed == 0) ≡ false = ground (arith, all, some_byte) in
            rw e (rw more refl)
      ],
    )
