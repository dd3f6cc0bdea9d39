-- ===== src/Futex/Sleep.antt =====
-- FUTEX_WAIT of src/run/lxp_futex.c parks a task so that a wake finds it.
use lxp.Common.{
  ℕ, ◌≡◌, ◌≢◌, List, Bool, true, false, Option, none, some, ◌||◌, not, Result, ok, err,
}
use lxp.Errno.{eagain, efault}
use lxp.Proc.{Proc, Wait, is_idle, is_waiting, futex, futex_data}
use lxp.Futex.Waiters.{WaitsOn, CoRunner}
use lxp.Futex.{Slot, Waited, answered, parked, Timeout, infinite, unreadable, after, wait}

abbrev slot_of : Slot → Proc → Slot
slot_of q p = record q { proc = p }

-- Another task that can wake the one in the slot `self`.
pub CanWake : ℕ → Option ℕ → Option ℕ → List Slot → Type 0
CanWake self mm vfork_parent slots = (m : ℕ) × (mm ≡ some m) × CoRunner self m vfork_parent 0 slots

-- The deadline that a timeout comes to: 0 without one.
pub DeadlineOf : Bool → ℕ → Timeout → ℕ → Type 0
DeadlineOf relative now infinite d = d ≡ 0
DeadlineOf relative now unreadable d = ⊥
DeadlineOf relative now (after sec nsec) d = d ≢ 0

-- What a wait comes to: an answer, with the reason for it and with the task as it was, or the task is
-- parked, with only its wait changed, so that it is a waiter on the address.
pub data Slept (relative : Bool) (now : ℕ) (slots : List Slot) (self : ℕ) (vfork_parent : Option ℕ)
    (q : Slot) (observed : Option ℕ) (val : ℕ) (timeout : Timeout) (uaddr : ℕ) (p' : Proc)
    : Waited → Type 0 where
  unmapped :
      observed ≡ none
      → p' ≡ q.proc
      → Slept relative now slots self vfork_parent q observed val timeout uaddr p' (answered efault)
  moved :
      (v : ℕ)
      → observed ≡ some v
      → v ≢ val
      → p' ≡ q.proc
      → Slept relative now slots self vfork_parent q observed val timeout uaddr p' (answered eagain)
  alone :
      observed ≡ some val
      → (CanWake self q.mm vfork_parent slots → ⊥)
      → p' ≡ q.proc
      → Slept relative now slots self vfork_parent q observed val timeout uaddr p' (answered eagain)
  no_timeout :
      observed ≡ some val
      → CanWake self q.mm vfork_parent slots
      → timeout ≡ unreadable
      → p' ≡ q.proc
      → Slept relative now slots self vfork_parent q observed val timeout uaddr p' (answered efault)
  busy :
      observed ≡ some val
      → CanWake self q.mm vfork_parent slots
      → (is_waiting q.proc.wait || not (is_idle q.proc.intent)) ≡ true
      → p' ≡ q.proc
      → Slept relative now slots self vfork_parent q observed val timeout uaddr p' (answered eagain)
  asleep :
      (deadline : ℕ)
      → observed ≡ some val
      → CanWake self q.mm vfork_parent slots
      → DeadlineOf relative now timeout deadline
      → WaitsOn uaddr deadline (slot_of q p')
      → p' ≡ record q.proc { wait = p'.wait }
      → Slept relative now slots self vfork_parent q observed val timeout uaddr p' parked

abbrev futex_wait : ℕ → ℕ → Wait
futex_wait uaddr deadline = record {
  kind = futex;
  op = 0;
  enqueued_us = 0;
  payload = futex_data uaddr deadline false;
}

abbrev stamped : Option ℕ → Wait → Wait
stamped none w = w
stamped (some t) w = record w { enqueued_us = t }

-- the end of `park`
abbrev settled : Proc × Result ℕ → Proc × Waited
settled (p, ok n) = (p, parked)
settled (p, err e) = (p, answered eagain)

module _ (clock : Option ℕ) (now : ℕ) (relative : Bool) (slots : List Slot) (self : ℕ)
    (vfork_parent : Option ℕ) (q : Slot) (val uaddr : ℕ) (live : q.alive ≡ true) where
  abbrev Outcome : Option ℕ → Timeout → Proc × Waited → Type 0
  Outcome observed timeout (p', r) =
      Slept relative now slots self vfork_parent q observed val timeout uaddr p' r
