-- ===== src/Pipe.antt =====
-- src/fs/lxp_pipe.c: the pool of pipes. The number of pipes is the length of the pool, and `size`
-- is LXP_PIPE_BUF, the bytes of each ring; guest memory is the byte memory that a buffer pointer
-- points into.
mod Queue
mod Transfer
mod Pool
mod Wake
mod Tests
use lxp.Common.{
  ℕ, zero, suc, ◌+◌, ◌-◌, Bool, true, false, Option, none, some, List, [], ◌∷◌, ltb, leb, ◌==◌,
  ◌&&◌, ◌||◌, not, if◌then◌else◌, length, get_or, set, replicate, map, Result, ok, err,
}
use lxp.Common.Bytes.{Memory, bytes_at, store}
use lxp.Common.Int.{ℤ, pos, negsuc}
use lxp.Errno.{eagain, einval, ebadf, epipe}
use lxp.Proc.{Proc, Wait, WaitKind, io_data, wait_park}
use lxp.Ring.{Ring, read, write}
use lxp.Signal.{sig_ign, sigpipe, reason_signal, handler_get, terminate}

-- lxp_pipe_t
pub record Pipe : Type 0 where
  pub buf : List ℕ
  pub rpos : ℕ
  pub wpos : ℕ
  pub count : ℕ
  pub readers : ℕ
  pub writers : ℕ
  pub used : Bool

abbrev pub u16_max : ℕ
u16_max = 65535

-- `(lxp_pipe_t){0}`
abbrev pub zeroed : ℕ → Pipe
zeroed size = record {
  buf = replicate size 0;
  rpos = 0;
  wpos = 0;
  count = 0;
  readers = 0;
  writers = 0;
  used = false;
}

-- `g_pipes[i]`
abbrev pub at : List Pipe → ℕ → Pipe
at pool i = get_or pool i (zeroed 0)

-- lxp_pipe_alloc: the first free pipe from index `i` on, and the pool
unfoldable pub alloc_from : ℕ → ℕ → List Pipe → Option ℕ × List Pipe
alloc_from size i [] = (none, [])
alloc_from size i (p ∷ rest) =
    let (found, rest') = alloc_from size (i + 1) rest in
    if p.used then (found, p ∷ rest') else (some i, record (zeroed size) { used = true } ∷ rest)

unfoldable pub alloc : ℕ → List Pipe → Option ℕ × List Pipe
unfolding alloc_from
alloc size pool = alloc_from size 0 pool

-- `if (*ends != UINT16_MAX) (*ends)++` and `if (*ends > 0) (*ends)--`
abbrev pub up : ℕ → ℕ
up ends = if ends == u16_max then ends else ends + 1

abbrev pub down : ℕ → ℕ
down ends = ends - 1

unfoldable pub end_open : List Pipe → ℤ → Bool → List Pipe
end_open pool (negsuc i) write_end = pool
end_open pool (pos i) write_end =
    let p = at pool i in
    if leb (length pool) i || not p.used
    then pool
    else set pool i (
        if write_end
        then record p { writers = up p.writers }
        else record p { readers = up p.readers })

-- a pipe whose last endpoint is gone is cleared
abbrev pub drop_unused : ℕ → Pipe → Pipe
drop_unused size p = if p.readers == 0 && p.writers == 0 then zeroed size else p

unfoldable pub end_close : ℕ → List Pipe → ℤ → Bool → List Pipe
end_close size pool (negsuc i) write_end = pool
end_close size pool (pos i) write_end =
    let p = at pool i in
    if leb (length pool) i || not p.used
    then pool
    else set pool i (
        drop_unused size (
          if write_end
          then record p { writers = down p.writers }
          else record p { readers = down p.readers }))

unfoldable pub discard : ℕ → List Pipe → ℤ → List Pipe
discard size pool (negsuc i) = pool
discard size pool (pos i) =
    let p = at pool i in
    if ltb i (length pool) && p.readers == 0 && p.writers == 0
    then set pool i (zeroed size)
    else pool

unfoldable pub runtime_reset : ℕ → List Pipe → List Pipe
runtime_reset size = map (λ p. zeroed size)

-- lxp_pipe_try_read of one pipe: the answer, the bytes that go to the buffer, and the pipe
unfoldable pub try_read : ℕ → Pipe → ℕ → Result ℕ × List ℕ × Pipe
try_read size p len =
    let (n, bytes, r) =
      read (record { buf = p.buf; cap = size; at = p.rpos; count = p.count }) len in
    if p.count == 0
    then (if ltb 0 p.writers then err eagain else ok 0, [], p)
    else (ok n, bytes, record p { rpos = r.at; count = r.count })

-- lxp_pipe_try_write of the bytes `src`
unfoldable pub try_write : ℕ → Pipe → List ℕ → Result ℕ × Pipe
try_write size p src =
    let (n, r) = write (record { buf = p.buf; cap = size; at = p.wpos; count = p.count }) src in
    if p.readers == 0
    then (err epipe, p)
    else if p.count == size
    then (err eagain, p)
    else (ok n, record p { buf = r.buf; wpos = r.at; count = r.count })

-- The pool and the guest memory, which the calls of a task change.
pub record World : Type 0 where
  pub pool : List Pipe
  pub memory : Memory

-- `lxp_pipe_try_read(i, buffer, len)`, the bytes stored at `buffer`
unfoldable pub read_into : ℕ → World → ℕ → ℕ → ℕ → World × Result ℕ
unfolding try_read
read_into size w i buffer len =
    let (r, bytes, p) = try_read size (at w.pool i) len in
    (record { pool = set w.pool i p; memory = store w.memory buffer bytes }, r)

-- `lxp_pipe_try_write(i, buffer, len)`, the bytes taken from `buffer`
unfoldable pub write_from : ℕ → World → ℕ → ℕ → ℕ → World × Result ℕ
unfolding try_write
write_from size w i buffer len =
    let (r, p) = try_write size (at w.pool i) (bytes_at w.memory buffer len) in
    (record w { pool = set w.pool i p }, r)

abbrev pub wait_on : ℕ → ℕ → ℕ → ℕ → Wait
wait_on op i buffer len = record {
  kind = WaitKind.pipe;
  op = op;
  enqueued_us = 0;
  payload = io_data i buffer len;
}

retry_io : ℕ → World → Wait → World × Result ℕ
retry_io size w wait = elim wait.payload [
  | io_data i buffer len ↦
      if wait.op == 1
      then read_into size w i buffer len
      else if wait.op == 2
      then write_from size w i buffer len
      else (w, ok 0)
  | _ ↦ (w, ok 0)
]

-- lxp_pipe_retry, of a task that is parked on a pipe
unfoldable pub retry : ℕ → World → Proc → World × Result ℕ
unfolding retry_io
retry size w p = elim p.wait.kind [ WaitKind.pipe ↦ retry_io size w p.wait | _ ↦ (w, err einval) ]

-- POLLIN and POLLOUT
abbrev pub pollin : ℕ
pollin = 1

abbrev pub pollout : ℕ
pollout = 4

unfoldable pub poll : ℕ → Pipe → ℕ → ℕ
poll size p rw =
    if rw == 0
    then (if ltb 0 p.count || p.writers == 0 then pollin else 0)
    else (if ltb p.count size || p.readers == 0 then pollout else 0)

-- lxp_ofd_t, as the pipe code reads it
pub record Ofd : Type 0 where
  pub rw : ℕ
  pub nonblock : Bool
  pub file_idx : ℕ

-- A file operation's answer, with the task and the world afterwards.
abbrev pub Answer : Type 0
Answer = Proc × World × Result ℕ

-- the answer of the park: 0 or -EAGAIN
parked : World → Proc × Result ℕ → Answer
parked w (p, r) = (p, w, r)

is_eagain : Result ℕ → Bool
is_eagain (ok n) = false
is_eagain (err e) = e == eagain

is_epipe : Result ℕ → Bool
is_epipe (ok n) = false
is_epipe (err e) = e == epipe

unfoldable pub fop_read : ℕ → Option ℕ → Proc → World → Ofd → ℕ → ℕ → Answer
unfolding read_into parked is_eagain
fop_read size now p w s buffer len =
    let (w', r) = read_into size w s.file_idx buffer len in
    if not (s.rw == 0)
    then (p, w, err ebadf)
    else if is_eagain r
    then (if s.nonblock
        then (p, w', err eagain)
        else parked w' (wait_park now p (wait_on 1 s.file_idx buffer len)))
    else (p, w', r)

unfoldable pub fop_write : ℕ → Option ℕ → Proc → World → Ofd → ℕ → ℕ → Answer
unfolding write_from parked is_eagain is_epipe
fop_write size now p w s buffer len =
    let (w', r) = write_from size w s.file_idx buffer len in
    if not (s.rw == 1)
    then (p, w, err ebadf)
    else if is_eagain r
    then (if s.nonblock
        then (p, w', err eagain)
        else parked w' (wait_park now p (wait_on 2 s.file_idx buffer len)))
    else if is_epipe r && not (handler_get p sigpipe == sig_ign)
    then (terminate p sigpipe reason_signal 0 0, w', r)
    else (p, w', r)

unfoldable pub fop_close : ℕ → World → Ofd → World
fop_close size w s = record w { pool = end_close size w.pool (pos s.file_idx) (s.rw == 1) }

unfoldable pub fop_poll : ℕ → World → Ofd → ℕ
unfolding poll
fop_poll size w s = poll size (at w.pool s.file_idx) s.rw
