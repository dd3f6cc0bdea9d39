-- ===== src/Pipe/Wake.antt =====
-- Waiting on a pipe: what a task is parked with, when `poll` calls an end ready, and what a write
-- without readers does to the writer.
use lxp.Common.{ℕ, ◌≤◌, ◌≡◌, ◌↔◌, true, false, Option, List, not, arith, ok, err}
use lxp.Errno.{eagain}
use lxp.Proc.{Proc, WaitKind, is_idle, is_waiting, same_kind, wait_park}
use lxp.Pipe.{
  Pipe, World, Ofd, try_read, try_write, read_into, write_from, retry, poll, fop_read, fop_write,
  wait_on,
}

-- The task can be parked: it waits for nothing and asks for nothing.
abbrev pub IsRunning : Proc → Type 0
IsRunning p = (is_waiting p.wait ≡ false) × (is_idle p.intent ≡ true)

park_lem :
    (now : Option ℕ) (p : Proc) (op i buffer len : ℕ)
    → IsRunning p
    → let (p', r) = wait_park now p (wait_on op i buffer len) in
      (r ≡ ok 0)
      × (p'.wait.kind ≡ WaitKind.pipe)
      × (p'.wait.op ≡ op)
      × (p'.wait.payload ≡ (wait_on op i buffer len).payload)
unfolding wait_park
park_lem now p op i buffer len h = ground arith

is_waiting_pipe : (k : WaitKind) → k ≡ WaitKind.pipe → not (same_kind k WaitKind.idle) ≡ true
unfolding same_kind
is_waiting_pipe k e = ground arith

retry_reads :
    (size i buffer len : ℕ) (p : Proc) (w : World)
    → p.wait.kind ≡ WaitKind.pipe
    → p.wait.op ≡ 1
    → p.wait.payload ≡ (wait_on 1 i buffer len).payload
    → retry size w p ≡ read_into size w i buffer len
unfolding retry
retry_reads size i buffer len p w k o d = ground arith

retry_writes :
    (size i buffer len : ℕ) (p : Proc) (w : World)
    → p.wait.kind ≡ WaitKind.pipe
    → p.wait.op ≡ 2
    → p.wait.payload ≡ (wait_on 2 i buffer len).payload
    → retry size w p ≡ write_from size w i buffer len
unfolding retry
retry_writes size i buffer len p w k o d = ground arith

fop_read_parks :
    (size : ℕ) (now : Option ℕ) (p : Proc) (w : World) (s : Ofd) (buffer len : ℕ)
    → s.rw ≡ 0
    → s.nonblock ≡ false
    → (read_into size w s.file_idx buffer len).1 ≡ err eagain
    → let q = wait_park now p (wait_on 1 s.file_idx buffer len) in
      fop_read size now p w s buffer len ≡ (q.0, (read_into size w s.file_idx buffer len).0, q.1)
unfolding fop_read
fop_read_parks size now p w s buffer len e n a = ground arith

fop_write_parks :
    (size : ℕ) (now : Option ℕ) (p : Proc) (w : World) (s : Ofd) (buffer len : ℕ)
    → s.rw ≡ 1
    → s.nonblock ≡ false
    → (write_from size w s.file_idx buffer len).1 ≡ err eagain
    → let q = wait_park now p (wait_on 2 s.file_idx buffer len) in
      fop_write size now p w s buffer len ≡ (q.0, (write_from size w s.file_idx buffer len).0, q.1)
unfolding fop_write
fop_write_parks size now p w s buffer len e n a = ground arith

-- A read by a running task of a blocking read end, where the pipe is empty with a writer open,
-- parks the task; and whatever the world is later, the coordinator's retry of the parked task is
-- then the very read that was asked for, of the same pipe into the same buffer.
pub blocked_read_resumes :
    (size : ℕ) (now : Option ℕ) (p : Proc) (w w' : World) (s : Ofd) (buffer len : ℕ)
    → IsRunning p
    → s.rw ≡ 0
    → s.nonblock ≡ false
    → (read_into size w s.file_idx buffer len).1 ≡ err eagain
    → let (p', v, r) = fop_read size now p w s buffer len in
      (r ≡ ok 0)
      × (is_waiting p'.wait ≡ true)
      × (retry size w' p' ≡ read_into size w' s.file_idx buffer len)
blocked_read_resumes size now p w w' s buffer len h e n a =
    let l = park_lem now p 1 s.file_idx buffer len h in
    rw (fop_read_parks size now p w s buffer len e n a)
      (l.0, is_waiting_pipe _ l.1, retry_reads size s.file_idx buffer len _ w' l.1 l.2 l.3)

-- The same of a write to a blocking write end, where the pipe is full with a reader open.
pub blocked_write_resumes :
    (size : ℕ) (now : Option ℕ) (p : Proc) (w w' : World) (s : Ofd) (buffer len : ℕ)
    → IsRunning p
    → s.rw ≡ 1
    → s.nonblock ≡ false
    → (write_from size w s.file_idx buffer len).1 ≡ err eagain
    → let (p', v, r) = fop_write size now p w s buffer len in
      (r ≡ ok 0)
      × (is_waiting p'.wait ≡ true)
      × (retry size w' p' ≡ write_from size w' s.file_idx buffer len)
blocked_write_resumes size now p w w' s buffer len h e n a =
    let l = park_lem now p 2 s.file_idx buffer len h in
    rw (fop_write_parks size now p w s buffer len e n a)
      (l.0, is_waiting_pipe _ l.1, retry_writes size s.file_idx buffer len _ w' l.1 l.2 l.3)

-- `poll` finds nothing to do at an end exactly when a read, or a write of these bytes, would have
-- to wait, so long as the count of the pipe is within its ring.
pub poll_iff_blocked :
    (size : ℕ) (p : Pipe) (len : ℕ) (src : List ℕ)
    → p.count ≤ size
    → ((poll size p 0 ≡ 0) ↔ ((try_read size p len).0 ≡ err eagain))
      × ((poll size p 1 ≡ 0) ↔ ((try_write size p src).0 ≡ err eagain))
unfolding poll try_read try_write
poll_iff_blocked size p len src h =
    ((λ e. ground arith, λ e. ground arith), (λ e. ground arith, λ e. ground arith))
