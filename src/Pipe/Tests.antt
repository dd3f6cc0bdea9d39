-- ===== src/Pipe/Tests.antt =====
-- Pipes of four bytes.
use lxp.Common.{
  ℕ, zero, suc, ◌+◌, ◌%◌, ◌<◌, get_or, ◌≡◌, ◌↔◌, refl, true, false, none, List, [], ◌∷◌, arith,
  length, ok, err,
}
use lxp.Common.Mask.{empty}
use lxp.Errno.{eagain}
use lxp.Proc.{Proc, Intent, no_wait, is_waiting, is_idle, same_kind}
use lxp.Pipe.{Pipe, World, Ofd, zeroed, try_read, try_write, read_into, retry, poll, fop_read}
use lxp.Pipe.Queue.{Channel, Op, reads, writes, opens, closes}
use lxp.Pipe.Queue
use lxp.Pipe.Transfer
use lxp.Pipe.Transfer.{Sim, run_refines}
use lxp.Pipe.Wake.{IsRunning, blocked_read_resumes, poll_iff_blocked}

-- 8 and 9, round the end of the ring, with both ends open
abbrev wrapped : Pipe
wrapped = record {
  buf = 9 ∷ 0 ∷ 0 ∷ 8 ∷ [];
  rpos = 3;
  wpos = 1;
  count = 2;
  readers = 1;
  writers = 1;
  used = true;
}

abbrev held : Channel
held = record { bytes = 8 ∷ 9 ∷ []; readers = 1; writers = 1; used = true }

cells_held :
    (i : ℕ) → i < length held.bytes → get_or wrapped.buf ((3 + i) % 4) 0 ≡ get_or held.bytes i 0
cells_held zero h = refl
cells_held (suc zero) h = refl
cells_held (suc (suc i)) h = absurd (omega arith)

wrapped-Sim : Sim 4 wrapped held
wrapped-Sim = record {
  ring = record { size = refl; start = omega arith; room = omega arith; cells = cells_held };
  count = refl;
  end = refl;
  readers = refl;
  writers = refl;
  used = refl;
}

abbrev pool : List Pipe
pool = zeroed 4 ∷ wrapped ∷ []

abbrev script : List Op
script = writes (5 ∷ 6 ∷ 7 ∷ []) ∷ reads 3 ∷ closes true ∷ reads 9 ∷ reads 1 ∷ []

script_replies :
    Queue.run 4 held script
    ≡ (ok 2, []) ∷ (ok 3, 8 ∷ 9 ∷ 5 ∷ []) ∷ (ok 0, []) ∷ (ok 1, 6 ∷ []) ∷ (ok 0, []) ∷ []
unfolding Queue.run Queue.step
script_replies = refl

run_refines_example : Transfer.run 4 pool 1 script ≡ Queue.run 4 held script
run_refines_example = run_refines 4 pool 1 held script (omega arith) (omega arith) wrapped-Sim

abbrev task : Proc
task = record {
  intent = Intent.idle;
  wait = no_wait;
  sighand = none;
  sig_blocked = empty;
  sigsuspend_saved_mask = empty;
  sigsuspend_active = false;
  pending_sigs = empty;
  stopped = false;
  stop_kind = 0;
  stop_sig = 0;
  stop_r0 = 0;
  is_fdpic = false;
  exit_status = 0;
  exit_reason = 0;
  exit_signal = 0;
  exit_detail = 0;
  exit_address = 0;
}

task-IsRunning : IsRunning task
unfolding is_idle same_kind
task-IsRunning = (refl, refl)

-- an empty pipe with both ends open, and a full one
abbrev dry : World
dry = record {
  pool = record (zeroed 4) { readers = 1; writers = 1; used = true } ∷ [];
  memory = λ a. a;
}

abbrev full : World
full = record dry {
  pool = record (zeroed 4) { count = 4; readers = 1; writers = 1; used = true } ∷ [];
}

abbrev read_end : Ofd
read_end = record { rw = 0; nonblock = false; file_idx = 0 }

abbrev write_end : Ofd
write_end = record { rw = 1; nonblock = false; file_idx = 0 }

blocked_read_resumes_example :
    let (p', v, r) = fop_read 4 none task dry read_end 64 2 in
    (r ≡ ok 0) × (is_waiting p'.wait ≡ true) × (retry 4 full p' ≡ read_into 4 full 0 64 2)
unfolding read_into try_read
blocked_read_resumes_example =
    blocked_read_resumes 4 none task dry full read_end 64 2 task-IsRunning refl refl refl

poll_iff_blocked_example :
    ((poll 4 wrapped 0 ≡ 0) ↔ ((try_read 4 wrapped 2).0 ≡ err eagain))
    × ((poll 4 wrapped 1 ≡ 0) ↔ ((try_write 4 wrapped (1 ∷ [])).0 ≡ err eagain))
poll_iff_blocked_example = poll_iff_blocked 4 wrapped 2 (1 ∷ []) (omega arith)
