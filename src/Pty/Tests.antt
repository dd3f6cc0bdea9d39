-- ===== src/Pty/Tests.antt =====
-- Witnesses and runs of src/pty/lxp_pty.c: a pty with rings of 8 bytes and the default terminal.
use lxp.Common.{
  ℕ, suc, ◌+◌, ◌<◌, ◌≡◌, ◌⊎◌, refl, arith, true, false, List, [], ◌∷◌, ◌++◌, length, take,
  if◌then◌else◌, ◌==◌, ok, err,
}
use lxp.Errno.{eagain}
use lxp.Ring.{read}
use lxp.Tty.{tty_defaults, signal_for}
use lxp.Pty.{
  Pty, newline, ring_putc, ring_read, ring_read_line, put_all, canonical_byte, input_byte,
  input_loop, output_byte, output_loop,
}
use lxp.Pty.Calls.{zeroed, zeroed_ring, read_end, write_end}
use lxp.Pty.Queue.{Queued}
use lxp.Pty.Output.{processed, write_end-Written}
use lxp.Pty.Line.{IsEdit, AllEdits, edited, Cooked}
use lxp.Pty.Read.{typed_line_read}

abbrev pty : Pty
pty = record (zeroed 8) { used = true; masters = 1; slaves = 1 }

empty-Queued : Queued 8 (zeroed_ring 8) []
empty-Queued = record {
  holds = record {
    size = refl;
    start = omega arith;
    room = omega arith;
    cells = λ i lt. absurd (omega (arith, lt));
  };
  write = refl;
  count = refl;
}

-- `a`, `b`, delete, `c`
abbrev keys : List ℕ
keys = 97 ∷ 98 ∷ 127 ∷ 99 ∷ []

keys-AllEdits : AllEdits tty_defaults keys
unfolding AllEdits IsEdit signal_for
keys-AllEdits = (
  (refl, (λ e. ground (arith, e)), (λ e. ground (arith, e)), λ e. ground (arith, e)),
  (
    (refl, (λ e. ground (arith, e)), (λ e. ground (arith, e)), λ e. ground (arith, e)),
    (
      (refl, (λ e. ground (arith, e)), (λ e. ground (arith, e)), λ e. ground (arith, e)),
      ((refl, (λ e. ground (arith, e)), (λ e. ground (arith, e)), λ e. ground (arith, e)), tt),
    ),
  ),
)

pty-Cooked : Cooked 8 pty [] []
unfolding signal_for
pty-Cooked = record {
  mode = refl;
  ready = refl;
  not_erase = λ e. ground (arith, e);
  queued = empty-Queued;
  unfinished = refl;
}

length-edited : length (edited tty_defaults [] keys) ≡ 2
unfolding edited
length-edited = refl

typed_line_read_example :
    (let line = edited tty_defaults [] keys in
      let (answer, signals, pt') = write_end 8 pty true (keys ++ (newline ∷ [])) in
      let (answer', bytes, pt'') = read_end 8 pt' false 64 in
      (answer ≡ ok 5)
      × (answer' ≡ ok (length line + 1))
      × (bytes ≡ line ++ (newline ∷ []))
      × Queued 8 pt''.m2s [])
typed_line_read_example =
    typed_line_read 8 pty keys 64 pty-Cooked keys-AllEdits (omega (arith, length-edited))
      (omega (arith, length-edited))

-- the program reads `ac` and the newline
ac_read :
    (let (answer, signals, pt') = write_end 8 pty true (keys ++ (newline ∷ [])) in
      (read_end 8 pt' false 64).1 ≡ 97 ∷ 99 ∷ 10 ∷ [])
unfolding write_end input_loop input_byte canonical_byte signal_for put_all ring_putc read_end
    ring_read_line
ac_read = refl

write_end-Written_example :
    (let (answer, signals, pt') = write_end 8 pty false (104 ∷ newline ∷ []) in
      (n : ℕ) × Queued 8 pt'.s2m ([] ++ processed pty.tty (take n (104 ∷ newline ∷ [])))
      × (pt' ≡ record pty { s2m = pt'.s2m })
      × (signals ≡ [])
      × ((n ≡ 2)
          ⊎ ((n < 2) × (8 < length ([] ++ processed pty.tty (take (suc n) (104 ∷ newline ∷ []))))))
      × (answer ≡ (if n == 0 then err eagain else ok n)))
write_end-Written_example =
    write_end-Written 8 pty [] (104 ∷ newline ∷ []) empty-Queued (omega arith)

-- the master reads `h`, a carriage return and the newline
hello_read :
    (let (answer, signals, pt') = write_end 8 pty false (104 ∷ newline ∷ []) in
      (read_end 8 pt' true 64).1 ≡ 104 ∷ 13 ∷ 10 ∷ [])
unfolding write_end output_loop output_byte put_all ring_putc read_end ring_read read
hello_read = refl
