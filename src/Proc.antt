-- ===== src/Proc.antt =====
-- src/proc/lxp_proc.h and src/proc/lxp_process.c: a Linux task as far as its signals, its one
-- pending coordinator action and its one wait go. The address space, the descriptor table and the
-- thread group are modelled where they are used.
mod Exclusive
mod Tests
use lxp.Common.{
  ℕ, Bool, true, false, Option, none, some, ◌==◌, ◌&&◌, ◌||◌, not, if◌then◌else◌, Result, ok, err,
}
use lxp.Common.Mask.{Mask}
use lxp.Errno.{einval, eagain}

-- lxp_intent_t: its kind with the payload of that kind. `idle` is LXP_INTENT_NONE.
pub data Intent : Type 0 where
  idle deferred_syscall : Intent
  fork : ℕ → ℕ → Intent
  exec : Intent
  exit : Bool → Intent

-- lxp_wait_kind_t without LXP_WAIT_COUNT. `idle` is LXP_WAIT_NONE.
pub data WaitKind : Type 0 where
  idle timer child futex pipe console device socket netfs hostfs pty sigsuspend poll : WaitKind

-- The payload union of lxp_wait_t, as far as modelled waits use it; `cleared` is all zeros.
pub data Payload : Type 0 where
  cleared : Payload
  -- deadline_us
  timer_data : ℕ → Payload
  -- uaddr, deadline_us, woken
  futex_data : ℕ → ℕ → Bool → Payload
  -- object, buffer, length
  io_data : ℕ → ℕ → ℕ → Payload

-- lxp_wait_t
pub record Wait : Type 0 where
  pub kind : WaitKind
  pub op : ℕ
  pub enqueued_us : ℕ
  pub payload : Payload

-- lxp_sighand_t; its reference count belongs to the resource pools
pub record Sighand : Type 0 where
  pub handler : ℕ → ℕ
  pub restorer : ℕ
  pub restart : Mask

-- lxp_proc_t
pub record Proc : Type 0 where
  pub intent : Intent
  pub wait : Wait
  pub sighand : Option Sighand
  pub sig_blocked : Mask
  pub sigsuspend_saved_mask : Mask
  pub sigsuspend_active : Bool
  pub pending_sigs : Mask
  pub stopped : Bool
  pub stop_kind : ℕ
  pub stop_sig : ℕ
  pub stop_r0 : ℕ
  pub is_fdpic : Bool
  pub exit_status : ℕ
  pub exit_reason : ℕ
  pub exit_signal : ℕ
  pub exit_detail : ℕ
  pub exit_address : ℕ

abbrev pub no_wait : Wait
no_wait = record { kind = WaitKind.idle; op = 0; enqueued_us = 0; payload = cleared }

unfoldable pub is_idle : Intent → Bool
is_idle Intent.idle = true
is_idle _ = false

unfoldable pub same_kind : WaitKind → WaitKind → Bool
same_kind WaitKind.idle WaitKind.idle = true
same_kind timer timer = true
same_kind child child = true
same_kind futex futex = true
same_kind pipe pipe = true
same_kind console console = true
same_kind device device = true
same_kind socket socket = true
same_kind netfs netfs = true
same_kind hostfs hostfs = true
same_kind pty pty = true
same_kind sigsuspend sigsuspend = true
same_kind poll poll = true
same_kind _ _ = false

abbrev pub is_waiting : Wait → Bool
is_waiting w = not (same_kind w.kind WaitKind.idle)

-- The answer 0.
abbrev pub done : Result ℕ
done = ok 0

unfoldable pub intent_begin : Proc → Intent → Proc × Result ℕ
unfolding is_idle same_kind
intent_begin p i =
    if is_idle i
    then (p, err einval)
    else if not (is_idle p.intent) || is_waiting p.wait
    then (p, err eagain)
    else (record p { intent = i }, done)

-- the kind of an intent, to compare with the one that a caller expects
unfoldable pub same_intent : Intent → Intent → Bool
same_intent deferred_syscall deferred_syscall = true
same_intent (fork f s) (fork g t) = true
same_intent exec exec = true
same_intent (exit g) (exit h) = true
same_intent _ _ = false

-- `expected` is given by an intent of its kind
unfoldable pub intent_complete : Proc → Intent → Proc × Result ℕ
unfolding same_intent
intent_complete p expected =
    if same_intent p.intent expected
    then (record p { intent = Intent.idle }, done)
    else (p, err einval)

unfoldable pub intent_exit : Proc → Bool → Proc × Result ℕ
intent_exit p group = (record p { intent = exit group }, done)

-- `now` is what `lxp_time_us` stores, `none` where the host's clock fails
unfoldable pub wait_begin : Option ℕ → Proc → Wait → Proc × Result ℕ
unfolding is_idle same_kind
wait_begin now p w =
    if not (is_waiting w)
    then (p, err einval)
    else if is_waiting p.wait || not (is_idle p.intent)
    then (p, err eagain)
    else (record p { wait = elim now [ none ↦ w | some t ↦ record w { enqueued_us = t } ] }, done)

unfoldable pub wait_park : Option ℕ → Proc → Wait → Proc × Result ℕ
unfolding wait_begin
wait_park now p w =
    let (p', r) = wait_begin now p w in (p', elim r [ ok z ↦ ok 0 | err e ↦ err eagain ])

-- wait_finish, which complete, interrupt and timeout call
unfoldable pub wait_finish : Proc → WaitKind → Proc × Result ℕ
unfolding same_kind
wait_finish p expected =
    if same_kind expected WaitKind.idle || not (same_kind p.wait.kind expected)
    then (p, err einval)
    else (record p { wait = no_wait }, done)

unfoldable pub wait_cancel : Proc → Proc × Result ℕ
wait_cancel p = (record p { wait = no_wait }, done)
