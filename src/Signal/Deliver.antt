-- ===== src/Signal/Deliver.antt =====
-- src/lxp_signal.c: delivery of a signal over the trap frame, and the return from its handler,
-- built without LXP_ENABLE_FPU_CONTEXT. The task stands in a valid slot, whose save stack is an
-- argument, with LXP_SIGNAL_NEST_MAX as `nest`. What `lxp_copy_from_guest` lets a task read is an
-- argument too.
use lxp.Common.{
  ℕ, ◌+◌, ◌-◌, ◌/◌, ◌%◌, ◌^◌, Bool, true, false, Option, none, some, ◌==◌, leb, ◌||◌, if◌then◌else◌,
}
use lxp.Common.Mask.{Mask, union}
use lxp.Proc.{Proc}
use lxp.Signal.{
  nsig, sig_dfl, sigsegv, reason_signal, reason_signal_depth, reason_memory_fault, sig_bit,
  sig_blocked, handler_get, restorer_get, swallowed, stops_proc, latch, terminate,
}

-- struct lxp_frame: registers 0 to 15 and the status word
pub record Frame : Type 0 where
  pub r : ℕ → ℕ
  pub xpsr : ℕ

-- struct sig_save_s
pub record Save : Type 0 where
  pub r0 : ℕ
  pub r1 : ℕ
  pub r2 : ℕ
  pub r3 : ℕ
  pub r7 : ℕ
  pub r9 : ℕ
  pub r12 : ℕ
  pub lr : ℕ
  pub pc : ℕ
  pub xpsr : ℕ
  pub saved_mask : Mask

-- struct sig_save_stack_s
pub record Stack : Type 0 where
  pub frame : ℕ → Save
  pub depth : ℕ

-- The words that the task may read: `none` where the copy fails.
pub record Guest : Type 0 where
  pub word : ℕ → Option ℕ
  pub pair : ℕ → Option (ℕ × ℕ)

-- enum lxp_signal_action, with what HANDLER delivers: entry, got, restorer and the index of the
-- save frame
pub data Action : Type 0 where
  invalid ignore stop terminated : Action
  handler : ℕ → ℕ → ℕ → ℕ → Action

abbrev pub set_reg : (ℕ → ℕ) → ℕ → ℕ → ℕ → ℕ
set_reg r n v k = if k == n then v else r k

abbrev pub put {ℓ} : {A : Type ℓ} → (ℕ → A) → ℕ → A → ℕ → A
put f i a k = if k == i then a else f k

-- `x & ~1u`, `x | 1u` and `x | (1u << 24)`
abbrev pub clear_thumb : ℕ → ℕ
clear_thumb x = x - x % 2

abbrev pub set_thumb : ℕ → ℕ
set_thumb x = x - x % 2 + 1

abbrev pub set_t_bit : ℕ → ℕ
set_t_bit x = if x / 2 ^ 24 % 2 == 1 then x else x + 2 ^ 24

-- `(uint32_t)-LXP_EINVAL`
abbrev pub minus_einval : ℕ
minus_einval = 2 ^ 32 - 22

-- entry, got and restorer, or `none` for -EFAULT
unfoldable pub resolve_handler : Guest → Proc → ℕ → Option (ℕ × ℕ × ℕ)
resolve_handler g p sig =
    let h = handler_get p sig in
    let r = restorer_get p in
    if p.is_fdpic
    then elim (g.pair h) [
      | none ↦ none
      | some (entry, got) ↦ elim (g.word r) [ none ↦ none | some back ↦ some (entry, got, back) ]
    ]
    else some (h, 0, r)

-- the index of the reserved frame, the task and the stack, or `none` if the stack is full
unfoldable pub save_push : ℕ → Proc → Stack → ℕ → Option (ℕ × Proc × Stack)
save_push nest p s sig =
    let mask = if p.sigsuspend_active then p.sigsuspend_saved_mask else p.sig_blocked in
    if leb nest s.depth
    then none
    else some (
      s.depth,
      record p { sigsuspend_active = false; sig_blocked = union p.sig_blocked (sig_bit sig) },
      record {
        frame = put s.frame s.depth (record (s.frame s.depth) { saved_mask = mask });
        depth = s.depth + 1;
      },
    )

unfoldable pub prepare : Guest → ℕ → Proc → Stack → ℕ → Action × Proc × Stack
unfolding resolve_handler save_push
prepare g nest p s sig =
    let h = handler_get p sig in
    if sig == 0 || leb nsig sig
    then (invalid, p, s)
    else if stops_proc p sig
    then (stop, p, s)
    else if swallowed p sig
    then (ignore, p, s)
    else if h == sig_dfl
    then (terminated, terminate p sig reason_signal 0 0, s)
    else elim (resolve_handler g p sig) [
      | none ↦ (terminated, terminate p sigsegv reason_memory_fault 0 h, s)
      | some (entry, got, back) ↦ elim (save_push nest p s sig) [
        | none ↦ (terminated, terminate p sigsegv reason_signal_depth 0 0, s)
        | some (i, p', s') ↦ (handler entry got back i, p', s')
      ]
    ]

-- what `deliver` keeps of the interrupted context
abbrev pub saved : Frame → ℕ → Mask → Save
saved f ret mask = record {
  r0 = ret;
  r1 = f.r 1;
  r2 = f.r 2;
  r3 = f.r 3;
  r7 = f.r 7;
  r9 = f.r 9;
  r12 = f.r 12;
  lr = f.r 14;
  pc = f.r 15;
  xpsr = f.xpsr;
  saved_mask = mask;
}

-- the frame on which the handler starts
abbrev pub entered : Bool → Frame → ℕ → ℕ → ℕ → ℕ → Frame
entered fdpic f sig entry got back =
    let r9 = if fdpic then set_reg f.r 9 got else f.r in
    record {
      r = set_reg (set_reg (set_reg r9 15 (clear_thumb entry)) 0 sig) 14 (set_thumb back);
      xpsr = set_t_bit f.xpsr;
    }

-- What a delivery does with the frame: the guest resumes on it, or it is parked by `lxp_park_frame`.
pub data Outcome : Type 0 where
  resumes parks : Frame → Outcome

abbrev pub answers : Frame → ℕ → Outcome
answers f v = resumes (record f { r = set_reg f.r 0 v })

unfoldable pub act : Frame → ℕ → ℕ → Action × Proc × Stack → Outcome × Proc × Stack
act f sig ret (invalid, p, s) = (answers f minus_einval, p, s)
act f sig ret (ignore, p, s) = (answers f ret, p, s)
-- LXP_STOP_READY is 2
act f sig ret (stop, p, s) =
    (parks f, record p { stopped = true; stop_kind = 2; stop_sig = sig; stop_r0 = ret }, s)
act f sig ret (terminated, p, s) = (parks f, p, s)
act f sig ret (handler entry got back i, p, s) = (
  resumes (entered p.is_fdpic f sig entry got back),
  p,
  record s { frame = put s.frame i (saved f ret (s.frame i).saved_mask) },
)

-- lxp_deliver_signal; `ret` is the interrupted call's result as a 32-bit word
unfoldable pub deliver : Guest → ℕ → Frame → Proc → Stack → ℕ → ℕ → Outcome × Proc × Stack
unfolding prepare act
deliver g nest f p s sig ret =
    if sig == 0 || leb nsig sig
    then (answers f minus_einval, p, s)
    else if sig_blocked p sig
    then (answers f ret, latch p sig, s)
    else act f sig ret (prepare g nest p s sig)

-- lxp_sig_restore
unfoldable pub restore : Frame → Proc → Stack → Frame × Proc × Stack
restore f p s =
    let sv = s.frame (s.depth - 1) in
    let low = set_reg (set_reg (set_reg (set_reg f.r 0 sv.r0) 1 sv.r1) 2 sv.r2) 3 sv.r3 in
    let high = set_reg (set_reg (set_reg low 7 sv.r7) 9 sv.r9) 12 sv.r12 in
    if s.depth == 0 then (f, p, s) else (
      record { r = set_reg (set_reg high 14 sv.lr) 15 (clear_thumb sv.pc); xpsr = sv.xpsr },
      record p { sig_blocked = sv.saved_mask },
      record s { depth = s.depth - 1 },
    )
