-- ===== src/Signal.antt =====
-- src/signal/lxp_signal_policy.c with the signal accessors of src/proc/lxp_proc.h: which pending
-- signal is next, and what a disposition means. Signal numbers are at most LXP_NSIG - 1 = 64; a
-- negative `int` number, which every function treats as it treats 0, is 0 here.
pub mod Deliver
mod Pending
mod Dispose
mod Return
mod Tests
use lxp.Common.{
  ℕ, zero, suc, ◌+◌, ◌-◌, ◌%◌, Bool, true, false, Option, none, some, ◌==◌, ltb, leb, ◌&&◌, ◌||◌,
  not, if◌then◌else◌,
}
use lxp.Common.Mask.{Mask, empty, bit, union, without, is_zero}
use lxp.Proc.{Proc, Sighand, intent_exit}

abbrev pub nsig : ℕ
nsig = 65

-- SIG_DFL and SIG_IGN
abbrev pub sig_dfl : ℕ
sig_dfl = 0

abbrev pub sig_ign : ℕ
sig_ign = 1

abbrev pub sigkill : ℕ
sigkill = 9

abbrev pub sigsegv : ℕ
sigsegv = 11

abbrev pub sigpipe : ℕ
sigpipe = 13

abbrev pub sigchld : ℕ
sigchld = 17

abbrev pub sigcont : ℕ
sigcont = 18

abbrev pub sigstop : ℕ
sigstop = 19

abbrev pub sigtstp : ℕ
sigtstp = 20

abbrev pub sigttin : ℕ
sigttin = 21

abbrev pub sigttou : ℕ
sigttou = 22

abbrev pub sigurg : ℕ
sigurg = 23

abbrev pub sigwinch : ℕ
sigwinch = 28

-- LXP_EXIT_REASON_SIGNAL, _SIGNAL_DEPTH and _MEMORY_FAULT
abbrev pub reason_signal : ℕ
reason_signal = 2

abbrev pub reason_signal_depth : ℕ
reason_signal_depth = 3

abbrev pub reason_memory_fault : ℕ
reason_memory_fault = 4

abbrev pub sig_bit : ℕ → Mask
sig_bit sig = if leb 1 sig && leb sig 64 then bit (sig - 1) else empty

-- `(mask & lxp_sig_bit(sig)) != 0`
abbrev pub has : Mask → ℕ → Bool
has m sig = if leb 1 sig && leb sig 64 then m (sig - 1) else false

unfoldable pub sig_blocked : Proc → ℕ → Bool
sig_blocked p sig = if sig == sigkill || sig == sigstop then false else has p.sig_blocked sig

unfoldable pub handler_get : Proc → ℕ → ℕ
handler_get p sig = elim p.sighand [
  | none ↦ sig_dfl
  | some h ↦ if ltb sig nsig then h.handler sig else sig_dfl
]

unfoldable pub restorer_get : Proc → ℕ
restorer_get p = elim p.sighand [ none ↦ 0 | some h ↦ h.restorer ]

-- the loop of `pending_deliverable`: `rounds` signals are left, from `sig` on
unfoldable pub scan : ℕ → ℕ → Proc → ℕ
unfolding sig_blocked
scan zero sig p = 0
scan (suc rounds) sig p =
    let rest = scan rounds (sig + 1) p in
    if has p.pending_sigs sig && not (sig_blocked p sig) then sig else rest

unfoldable pub pending_deliverable : Proc → ℕ
unfolding scan
pending_deliverable p = if is_zero p.pending_sigs then 0 else scan 64 1 p

unfoldable pub pending_take : Proc → Proc × ℕ
pending_take p =
    let sig = pending_deliverable p in
    (if sig == 0 then p else record p { pending_sigs = without p.pending_sigs (sig_bit sig) }, sig)

unfoldable pub default_ignore : ℕ → Bool
default_ignore sig = sig == sigchld || sig == sigcont || sig == sigurg || sig == sigwinch

unfoldable pub swallowed : Proc → ℕ → Bool
unfolding default_ignore
swallowed p sig =
    let h = handler_get p sig in if h == sig_ign then true else h == sig_dfl && default_ignore sig

unfoldable pub is_stop : ℕ → Bool
is_stop sig = sig == sigstop || sig == sigtstp || sig == sigttin || sig == sigttou

unfoldable pub stops_proc : Proc → ℕ → Bool
unfolding is_stop
stops_proc p sig =
    if not (is_stop sig)
    then false
    else if sig == sigstop
    then true
    else handler_get p sig == sig_dfl

abbrev pub stop_mask : Mask
stop_mask =
    union (sig_bit sigstop) (union (sig_bit sigtstp) (union (sig_bit sigttin) (sig_bit sigttou)))

unfoldable pub latch : Proc → ℕ → Proc
unfolding is_stop
latch p sig =
    if sig == 0 || leb nsig sig
    then p
    else let kept =
        if sig == sigcont
        then without p.pending_sigs stop_mask
        else if is_stop sig
        then without p.pending_sigs (sig_bit sigcont)
        else p.pending_sigs in
      record p { pending_sigs = union kept (sig_bit sig) }

-- `exit_signal` is a byte
unfoldable pub terminate : Proc → ℕ → ℕ → ℕ → ℕ → Proc
unfolding intent_exit
terminate p sig reason detail address = record ((intent_exit p false).0) {
  exit_status = 128 + sig;
  exit_reason = reason;
  exit_signal = sig % 256;
  exit_detail = detail;
  exit_address = address;
}
