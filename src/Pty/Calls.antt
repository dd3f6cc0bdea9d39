-- ===== src/Pty/Calls.antt =====
-- src/pty/lxp_pty.c: the calls of the pool of ptys and the file operations of its ends.
use lxp.Common.{
  ℕ, ◌+◌, Bool, true, false, Option, none, some, List, [], ◌∷◌, ◌++◌, ltb, ◌==◌, ◌&&◌, ◌||◌, not,
  if◌then◌else◌, length, get_or, set, replicate, map, Result, ok, err,
}
use lxp.Errno.{eagain, ebadf, efault, einval, emfile, enoent}
use lxp.Pipe.{Ofd, pollin, pollout, up, down}
use lxp.Proc.{Proc, Wait, WaitKind, io_data, wait_park}
use lxp.Tty.{Command, Told, nothing, number, icanon, tty_defaults, tty_ioctl, stored}
use lxp.Pty.{PtyRing, Pty, ring_space, ring_read, ring_read_line, input_loop, output_loop, count_of}

abbrev pub zeroed_ring : ℕ → PtyRing
zeroed_ring size = record { buf = replicate size 0; r = 0; w = 0; n = 0 }

-- `memset(pt, 0, sizeof(*pt))`, but for the terminal, which an open sets
abbrev pub zeroed : ℕ → Pty
zeroed size = record {
  m2s = zeroed_ring size;
  s2m = zeroed_ring size;
  canon = [];
  tty = tty_defaults;
  masters = 0;
  slaves = 0;
  used = false;
  locked = 0;
  m2s_eof = false;
  m_nb = false;
  s_nb = false;
}

abbrev pub at : List Pty → ℕ → Pty
at ptys i = get_or ptys i (zeroed 0)

-- `idx < 0 || idx >= LXP_NPTY || !g_ptys[idx].used` fails for `i`
abbrev pub is_open : List Pty → ℕ → Bool
is_open ptys i = ltb i (length ptys) && (at ptys i).used

-- A read's answer: what is returned, the bytes that go to the buffer, and the pty.
abbrev pub ReadAnswer : Type 0
ReadAnswer = Result ℕ × List ℕ × Pty

abbrev pub s2m_read : Pty → List ℕ × PtyRing → ReadAnswer
s2m_read pt (bytes, q) = (ok (length bytes), bytes, record pt { s2m = q })

abbrev pub m2s_read : Pty → List ℕ × PtyRing → ReadAnswer
m2s_read pt (bytes, q) = (ok (length bytes), bytes, record pt { m2s = q })

-- lxp_pty_read of an open pty
unfoldable pub read_end : ℕ → Pty → Bool → ℕ → ReadAnswer
unfolding ring_read ring_read_line
read_end size pt is_master len =
    if len == 0
    then (ok 0, [], pt)
    else if is_master
    then (if ltb 0 pt.s2m.n
        then s2m_read pt (ring_read size pt.s2m len)
        else if pt.slaves == 0
        then (ok 0, [], pt)
        else (err eagain, [], pt))
    else if ltb 0 pt.m2s.n
    then m2s_read pt (
        if icanon pt.tty.termios then ring_read_line size pt.m2s len else ring_read size pt.m2s len)
    else if pt.masters == 0
    then (ok 0, [], pt)
    else if pt.m2s_eof
    then (ok 0, [], record pt { m2s_eof = false })
    else (err eagain, [], pt)

-- lxp_pty_write of an open pty: the answer, the signals raised and the pty
unfoldable pub write_end : ℕ → Pty → Bool → List ℕ → Result ℕ × List (ℕ × ℕ) × Pty
unfolding input_loop output_loop
write_end size pt is_master bytes =
    let r = if is_master then input_loop size pt bytes else output_loop size pt bytes in
    if length bytes == 0 then (ok 0, [], pt) else (count_of r, r.signals, r.pty)

-- lxp_pty_poll
unfoldable pub poll : ℕ → List Pty → ℕ → Bool → ℕ
poll size ptys i is_master =
    let pt = at ptys i in
    if not (is_open ptys i)
    then 0
    else if is_master
    then (if ltb 0 pt.s2m.n || pt.slaves == 0 then pollin else 0)
      + (if ltb 0 (ring_space size pt.m2s) then pollout else 0)
    else (if ltb 0 pt.m2s.n || pt.masters == 0 || pt.m2s_eof then pollin else 0)
      + (if ltb 0 (ring_space size pt.s2m) then pollout else 0)

-- The ptys, and the signals that calls have raised, the last call's first.
pub record World : Type 0 where
  pub ptys : List Pty
  pub signals : List (ℕ × ℕ)

-- lxp_pty_read and lxp_pty_write
unfoldable pub read : ℕ → World → ℕ → Bool → ℕ → World × Result ℕ × List ℕ
unfolding read_end
read size w i is_master len =
    let (r, bytes, pt) = read_end size (at w.ptys i) is_master len in
    if is_open w.ptys i then (record w { ptys = set w.ptys i pt }, r, bytes) else (w, err ebadf, [])

unfoldable pub write : ℕ → World → ℕ → Bool → List ℕ → World × Result ℕ
unfolding write_end
write size w i is_master bytes =
    let (r, sigs, pt) = write_end size (at w.ptys i) is_master bytes in
    if is_open w.ptys i
    then (record { ptys = set w.ptys i pt; signals = sigs ++ w.signals }, r)
    else (w, err ebadf)

-- lxp_pty_nonblock and lxp_pty_setfl; `nb` is `flags & LXP_O_NONBLOCK`
unfoldable pub nonblock : List Pty → ℕ → Bool → Bool
nonblock ptys i is_master =
    is_open ptys i && (if is_master then (at ptys i).m_nb else (at ptys i).s_nb)

unfoldable pub setfl : List Pty → ℕ → Bool → Bool → List Pty
setfl ptys i is_master nb =
    if not (is_open ptys i)
    then ptys
    else set ptys i
        (if is_master then record (at ptys i) { m_nb = nb } else record (at ptys i) { s_nb = nb })

-- lxp_pty_open_master: the first free pty from the index `i` on
unfoldable pub open_master_from : ℕ → ℕ → List Pty → Bool → List Pty × Option ℕ
open_master_from size i [] nb = ([], none)
open_master_from size i (p ∷ ps) nb =
    let (ps', found) = open_master_from size (i + 1) ps nb in
    if p.used then (p ∷ ps', found) else (
      record (zeroed size) { used = true; locked = 1; m_nb = nb; tty = tty_defaults } ∷ ps,
      some i,
    )

unfoldable pub open_master : ℕ → List Pty → Bool → List Pty × Result ℕ
unfolding open_master_from
open_master size ptys nb =
    let (ptys', found) = open_master_from size 0 ptys nb in
    (ptys', elim found [ none ↦ err emfile | some i ↦ ok i ])

-- lxp_pty_open_slave
unfoldable pub open_slave : List Pty → ℕ → Bool → List Pty × Result ℕ
open_slave ptys i nb =
    if is_open ptys i
    then (set ptys i (record (at ptys i) { s_nb = nb }), ok i)
    else (ptys, err enoent)

-- lxp_pty_end_open, lxp_pty_end_close, lxp_pty_discard and lxp_pty_runtime_reset
unfoldable pub end_open : List Pty → ℕ → Bool → List Pty
end_open ptys i is_master =
    let pt = at ptys i in
    if not (is_open ptys i)
    then ptys
    else set ptys i (
        if is_master
        then record pt { masters = up pt.masters }
        else record pt { slaves = up pt.slaves })

abbrev pub drop_unused : ℕ → Pty → Pty
drop_unused size pt = if pt.masters == 0 && pt.slaves == 0 then zeroed size else pt

unfoldable pub end_close : ℕ → List Pty → ℕ → Bool → List Pty
end_close size ptys i is_master =
    let pt = at ptys i in
    if not (is_open ptys i)
    then ptys
    else set ptys i (
        drop_unused size (
          if is_master
          then record pt { masters = down pt.masters }
          else record pt { slaves = down pt.slaves }))

unfoldable pub discard : ℕ → List Pty → ℕ → List Pty
discard size ptys i =
    let pt = at ptys i in
    if ltb i (length ptys) && pt.masters == 0 && pt.slaves == 0
    then set ptys i (zeroed size)
    else ptys

unfoldable pub runtime_reset : ℕ → List Pty → List Pty
runtime_reset size = map (λ pt. zeroed size)

-- the number in the terminal's name, or a command of the terminal
pub data PtyCommand : Type 0 where
  get_number : PtyCommand
  set_lock : Option ℕ → PtyCommand
  terminal : Command → PtyCommand

-- lxp_pty_ioctl of the open pty `i`
unfoldable pub ioctl_end : Bool → ℕ → ℕ → Pty → PtyCommand → Pty × Result ℕ × Told
unfolding tty_ioctl
ioctl_end writable pid i pt get_number = stored writable pt (number i)
ioctl_end writable pid i pt (set_lock none) = (pt, err efault, nothing)
ioctl_end writable pid i pt (set_lock (some n)) = (record pt { locked = n }, ok 0, nothing)
ioctl_end writable pid i pt (terminal c) =
    let (tty, r, t) = tty_ioctl writable pid pt.tty c in (record pt { tty = tty }, r, t)

unfoldable pub ioctl : Bool → ℕ → List Pty → ℕ → PtyCommand → List Pty × Result ℕ × Told
unfolding ioctl_end
ioctl writable pid ptys i c =
    let (pt, r, t) = ioctl_end writable pid i (at ptys i) c in
    if is_open ptys i then (set ptys i pt, r, t) else (ptys, err ebadf, nothing)

abbrev pub is_master_end : Ofd → Bool
is_master_end s = not (s.rw == 0)

abbrev pub wait_on : ℕ → ℕ → ℕ → ℕ → Wait
wait_on op i buffer len = record {
  kind = WaitKind.pty;
  op = op;
  enqueued_us = 0;
  payload = io_data i buffer len;
}

abbrev pub is_eagain : Result ℕ → Bool
is_eagain (ok n) = false
is_eagain (err e) = e == eagain

-- fop_read_pty: the task, the ptys, the answer and the bytes read
unfoldable pub fop_read :
    ℕ → Option ℕ → Proc → World → Ofd → ℕ → ℕ → Proc × World × Result ℕ × List ℕ
unfolding read nonblock
fop_read size now p w s buffer len =
    let m = is_master_end s in
    let (w', r, bytes) = read size w s.file_idx m len in
    let (p', r') = wait_park now p (wait_on (if m then 2 else 1) s.file_idx buffer len) in
    if is_eagain r && not (nonblock w.ptys s.file_idx m)
    then (p', w', r', [])
    else (p, w', r, bytes)

-- fop_write_pty of the bytes at `buffer`
unfoldable pub fop_write : ℕ → Option ℕ → Proc → World → Ofd → ℕ → List ℕ → Proc × World × Result ℕ
unfolding write nonblock
fop_write size now p w s buffer bytes =
    let m = is_master_end s in
    let (w', r) = write size w s.file_idx m bytes in
    let (p', r') =
      wait_park now p (wait_on (if m then 4 else 3) s.file_idx buffer (length bytes)) in
    if is_eagain r && not (nonblock w.ptys s.file_idx m) then (p', w', r') else (p, w', r)

-- `lxp_pty_retry` of a wait: `fetched` are the bytes that stand in the task's buffer
unfoldable pub retry_io : ℕ → World → ℕ → ℕ → ℕ → List ℕ → World × Result ℕ × List ℕ
unfolding read write
retry_io size w op i len fetched =
    let (w', r) = write size w i (op == 4) fetched in
    if op == 1
    then read size w i false len
    else if op == 2
    then read size w i true len
    else if op == 3 || op == 4
    then (w', r, [])
    else (w, ok 0, [])

-- lxp_pty_retry
unfoldable pub retry : ℕ → World → Proc → List ℕ → World × Result ℕ × List ℕ
unfolding retry_io
retry size w p fetched = elim p.wait.kind [
  | WaitKind.pty ↦ elim p.wait.payload [
    | io_data i buffer len ↦ retry_io size w p.wait.op i len fetched
    | _ ↦ (w, ok 0, [])
  ]
  | _ ↦ (w, err einval, [])
]
