-- ===== src/Pty.antt =====
-- src/pty/lxp_pty.c: the pool of pseudo-terminals. `size` is LXP_PTY_BUF, the bytes of each ring, and
-- the number of ptys is the length of the pool. The unfinished line `canon` is the list of its
-- `canon_n` bytes. A read hands out the bytes that go to the caller's buffer, and a write is handed
-- those that stand there. The master's end is `true`.
mod Calls
mod Queue
mod Output
mod Line
mod Typed
mod Read
mod Tests
use lxp.Common.{
  ℕ, zero, suc, ◌+◌, ◌-◌, ◌%◌, Bool, true, false, Option, none, some, List, [], ◌∷◌, ◌++◌, ltb, leb,
  ◌==◌, ◌&&◌, ◌||◌, not, if◌then◌else◌, length, get_or, set, take, replicate, map, Result, ok, err,
}
use lxp.Common.Int.{ℤ, pos, negsuc}
use lxp.Errno.{eagain, ebadf, einval, emfile, enoent}
use lxp.Proc.{Proc, Wait, WaitKind, io_data, wait_park}
use lxp.Ring.{read}
use lxp.Tty.{Tty, icanon, echo, icrnl, opost, onlcr, verase, veof, tty_defaults, signal_for}

-- pty_ring_t
pub record PtyRing : Type 0 where
  pub buf : List ℕ
  pub r : ℕ
  pub w : ℕ
  pub n : ℕ

-- lxp_pty_t
pub record Pty : Type 0 where
  pub m2s : PtyRing
  pub s2m : PtyRing
  pub canon : List ℕ
  pub tty : Tty
  pub masters : ℕ
  pub slaves : ℕ
  pub used : Bool
  pub locked : ℕ
  pub m2s_eof : Bool
  pub m_nb : Bool
  pub s_nb : Bool

-- LXP_PTY_CANON
abbrev pub pty_canon : ℕ
pty_canon = 256

abbrev pub newline : ℕ
newline = 10

abbrev pub carriage_return : ℕ
carriage_return = 13

abbrev pub backspace : ℕ
backspace = 8

abbrev pub blank : ℕ
blank = 32

abbrev pub ring_space : ℕ → PtyRing → ℕ
ring_space size q = size - q.n

unfoldable pub ring_putc : ℕ → PtyRing → ℕ → PtyRing
ring_putc size q c =
    if ltb q.n size
    then record q { buf = set q.buf q.w c; w = (q.w + 1) % size; n = q.n + 1 }
    else q

-- the bytes read, and the ring
unfoldable pub ring_read : ℕ → PtyRing → ℕ → List ℕ × PtyRing
unfolding read
ring_read size q len =
    let (n, bytes, q') = read (record { buf = q.buf; cap = size; at = q.r; count = q.n }) len in
    (bytes, record q { r = q'.at; n = q'.count })

unfoldable pub ring_read_line : ℕ → PtyRing → ℕ → List ℕ × PtyRing
ring_read_line size q zero = ([], q)
ring_read_line size q (suc len) =
    let c = get_or q.buf q.r 0 in
    let q' = record q { r = (q.r + 1) % size; n = q.n - 1 } in
    let (bytes, q'') = ring_read_line size q' len in
    if q.n == 0 then ([], q) else if c == newline then (c ∷ [], q') else (c ∷ bytes, q'')

-- `ring_putc` of each byte in turn
unfoldable pub put_all : ℕ → PtyRing → List ℕ → PtyRing
unfolding ring_putc
put_all size q [] = q
put_all size q (c ∷ cs) = put_all size (ring_putc size q c) cs

-- the same to the other ring, where the terminal echoes
abbrev pub echoed : ℕ → Pty → List ℕ → PtyRing
echoed size pt cs = if echo pt.tty.termios then put_all size pt.s2m cs else pt.s2m

-- pty_signal_foreground: the process group and the signal
abbrev pub raised : Tty → ℕ → List (ℕ × ℕ)
raised tty sig = elim tty.fg_pgrp [ pos g ↦ if ltb 0 g then (g, sig) ∷ [] else [] | negsuc g ↦ [] ]

-- an input byte after ICRNL
abbrev pub translated : Tty → ℕ → ℕ
translated tty c = if icrnl tty.termios && c == carriage_return then newline else c

-- a byte of a canonical line; `none` is where there is no room
unfoldable pub canonical_byte : ℕ → Pty → ℕ → Option Pty
unfolding put_all
canonical_byte size pt c =
    let line = pt.canon in
    if c == pt.tty.termios.cc verase || c == backspace
    then some (
        if ltb 0 (length line)
        then record pt {
          canon = take (length line - 1) line;
          s2m = echoed size pt (backspace ∷ blank ∷ backspace ∷ []);
        }
        else pt)
    else if c == newline
    then (if ltb (ring_space size pt.m2s) (length line + 1)
        then none
        else some (record pt {
          m2s = put_all size (put_all size pt.m2s line) (newline ∷ []);
          canon = [];
          s2m = echoed size pt (carriage_return ∷ newline ∷ []);
        }))
    else if c == pt.tty.termios.cc veof
    then (if ltb (ring_space size pt.m2s) (length line)
        then none
        else some (record pt {
          m2s = put_all size pt.m2s line;
          m2s_eof = (length line == 0) || pt.m2s_eof;
          canon = [];
        }))
    else some (
        if ltb (length line) pty_canon
        then record pt { canon = line ++ (c ∷ []); s2m = echoed size pt (c ∷ []) }
        else pt)

-- what a round of `pty_input` does with a byte: the pty and the signals raised
unfoldable pub input_byte : ℕ → Pty → ℕ → Option (Pty × List (ℕ × ℕ))
unfolding canonical_byte signal_for
input_byte size pt c0 =
    let c = translated pt.tty c0 in
    let sig = signal_for pt.tty c in
    if not (sig == 0)
    then some (pt, raised pt.tty sig)
    else if not (icanon pt.tty.termios)
    then (if ring_space size pt.m2s == 0
        then none
        else some
            (record pt { m2s = put_all size pt.m2s (c ∷ []); s2m = echoed size pt (c ∷ []) }, []))
    else elim (canonical_byte size pt c) [ none ↦ none | some pt' ↦ some (pt', []) ]

-- A loop's outcome: the pty, the signals raised, the bytes consumed and whether room was missing.
pub record Consumed : Type 0 where
  pub pty : Pty
  pub signals : List (ℕ × ℕ)
  pub consumed : ℕ
  pub full : Bool

abbrev pub after_byte : List (ℕ × ℕ) → Consumed → Consumed
after_byte sigs r = record r { signals = sigs ++ r.signals; consumed = suc r.consumed }

-- the loop of `pty_input`
unfoldable pub input_loop : ℕ → Pty → List ℕ → Consumed
unfolding input_byte
input_loop size pt [] = record { pty = pt; signals = []; consumed = 0; full = false }
input_loop size pt (c ∷ cs) = elim (input_byte size pt c) [
  | none ↦ record { pty = pt; signals = []; consumed = 0; full = true }
  | some (pt', sigs) ↦ after_byte sigs (input_loop size pt' cs)
]

-- a round of `pty_output`
unfoldable pub output_byte : ℕ → Pty → ℕ → Option Pty
unfolding put_all
output_byte size pt c =
    if opost pt.tty.termios && onlcr pt.tty.termios && c == newline
    then (if ltb (ring_space size pt.s2m) 2
        then none
        else some (record pt { s2m = put_all size pt.s2m (carriage_return ∷ newline ∷ []) }))
    else if ring_space size pt.s2m == 0
    then none
    else some (record pt { s2m = put_all size pt.s2m (c ∷ []) })

-- the loop of `pty_output`
unfoldable pub output_loop : ℕ → Pty → List ℕ → Consumed
unfolding output_byte
output_loop size pt [] = record { pty = pt; signals = []; consumed = 0; full = false }
output_loop size pt (c ∷ cs) = elim (output_byte size pt c) [
  | none ↦ record { pty = pt; signals = []; consumed = 0; full = true }
  | some pt' ↦ after_byte [] (output_loop size pt' cs)
]

-- `consumed ? (long)consumed : -LXP_EAGAIN` where room was missing
abbrev pub count_of : Consumed → Result ℕ
count_of r = if r.full && r.consumed == 0 then err eagain else ok r.consumed
