-- ===== src/Signal/Tests.antt =====
-- Signals at a concrete task: SIGUSR1 (10) is caught, SIGTERM (15) is at its default.
use lxp.Common.{
  ℕ, ◌+◌, ◌≡◌, ◌≢◌, refl, true, false, none, some, arith, ◌==◌, ◌&&◌, ◌||◌, not, if◌then◌else◌,
}
use lxp.Common.Mask.{empty, union, is_zero_below}
use lxp.Proc.{Proc, Intent, no_wait}
use lxp.Signal.{
  nsig, sigcont, sigtstp, has, is_stop, sig_bit, pending_deliverable, pending_take, latch,
  sig_blocked, handler_get, restorer_get, stops_proc, swallowed,
}
use lxp.Signal.Pending.{First, pending_deliverable-First, latch_lem}
use lxp.Signal.Deliver.{Guest, Frame, Save, Stack, saved, resumes, deliver, prepare, restore}
use lxp.Signal.Dispose.{Disposed, prepare-Disposed}
use lxp.Signal.Return.{Target, Delivered, deliver-Delivered, Resumed, restore-Resumed, mask_before}

abbrev task : Proc
task = record {
  intent = Intent.idle;
  wait = no_wait;
  sighand = some (record {
    handler = λ sig. if sig == 10 then 0x8001 else 0;
    restorer = 0x9001;
    restart = empty;
  });
  sig_blocked = empty;
  sigsuspend_saved_mask = empty;
  sigsuspend_active = false;
  pending_sigs = union (sig_bit 15) (sig_bit 10);
  stopped = false;
  stop_kind = 0;
  stop_sig = 0;
  stop_r0 = 0;
  is_fdpic = false;
  exit_status = 0;
  exit_reason = 0;
  exit_signal = 0;
  exit_detail = 0;
  exit_address = 0;
}

abbrev guest : Guest
guest = record { word = λ a. none; pair = λ a. none }

abbrev zeros : Save
zeros = record {
  r0 = 0;
  r1 = 0;
  r2 = 0;
  r3 = 0;
  r7 = 0;
  r9 = 0;
  r12 = 0;
  lr = 0;
  pc = 0;
  xpsr = 0;
  saved_mask = empty;
}

abbrev unused : Stack
unused = record { frame = λ k. zeros; depth = 0 }

abbrev registers : Frame
registers = record { r = λ k. 100 + k; xpsr = 0x1000000 }

next_is_usr1 : (pending_take task).1 ≡ 10
unfolding pending_take pending_deliverable is_zero_below
next_is_usr1 = refl

pending_deliverable-First_example : First task 1 nsig (pending_deliverable task)
pending_deliverable-First_example = pending_deliverable-First task

latch_lem_example :
    (has (latch task sigcont).pending_sigs sigcont ≡ true)
    × (sigtstp ≢ sigcont
        → has (latch task sigcont).pending_sigs sigtstp ≡ (
            has task.pending_sigs sigtstp
            && not
                (sigcont == sigcont && is_stop sigtstp || is_stop sigcont && sigtstp == sigcont)))
latch_lem_example = latch_lem task sigcont sigtstp (omega arith) (omega arith)

prepare-Disposed_example :
    let (a, p', s') = prepare guest 2 task unused 15 in Disposed guest 2 task unused 15 a p' s'
prepare-Disposed_example = prepare-Disposed guest 2 task unused 15 (omega arith) (omega arith)

deliver-Delivered_example :
    let (o, p', s') = deliver guest 2 registers task unused 10 7 in
    (f' : Frame) × (entry : ℕ) × (got : ℕ) × (back : ℕ) × (o ≡ resumes f')
    × Target guest task 10 entry got back
    × Delivered 2 registers task unused 10 7 entry got back f' p' s'
unfolding prepare sig_blocked stops_proc swallowed handler_get restorer_get
deliver-Delivered_example =
    deliver-Delivered guest 2 registers task unused 10 7 refl (0x8001, 0, 0x9001, 0, refl)

abbrev in_handler : Stack
in_handler = record { frame = λ k. saved registers 7 (mask_before task); depth = 1 }

restore-Resumed_example :
    let (f', p', s') = restore (record registers { xpsr = 0 }) task in_handler in
    Resumed registers 7 task unused f' p' s' × ((k : ℕ) → s'.frame k ≡ in_handler.frame k)
restore-Resumed_example =
    restore-Resumed registers (record registers { xpsr = 0 }) 7 task task unused in_handler refl
      refl
