-- ===== src/Proc/Tests.antt =====
-- Intents and waits of a concrete task.
use lxp.Common.{◌≡◌, refl, ◌⊎◌, inl, inr, false, none, some}
use lxp.Common.Mask.{empty}
use lxp.Proc.{Proc, exec, Wait, WaitKind, no_wait, done, is_idle, same_kind}
use lxp.Proc.Exclusive.{IsExclusive, parks, step, step-IsExclusive}

-- a task that asks for an exec
abbrev task : Proc
task = record {
  intent = exec;
  wait = no_wait;
  sighand = none;
  sig_blocked = empty;
  sigsuspend_saved_mask = empty;
  sigsuspend_active = false;
  pending_sigs = empty;
  stopped = false;
  stop_kind = 0;
  stop_sig = 0;
  stop_r0 = 0;
  is_fdpic = false;
  exit_status = 0;
  exit_reason = 0;
  exit_signal = 0;
  exit_detail = 0;
  exit_address = 0;
}

abbrev on_child : Wait
on_child = record no_wait { kind = WaitKind.child }

step-IsExclusive_example :
    let call = parks (some 5) on_child in
    IsExclusive (step task call).0 × (((step task call).1 ≡ done) ⊎ ((step task call).0 ≡ task))
unfolding is_idle same_kind
step-IsExclusive_example = step-IsExclusive task (parks (some 5) on_child) (inr (inl refl))
