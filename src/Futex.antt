-- ===== src/Futex.antt =====
-- src/run/lxp_futex.c: the waits and wakes on an address among the tasks of the slot table. A slot's
-- address space is an index, `none` where it has none, and a word of the guest, a timeout of the guest
-- and the host's clock are arguments, `none` where the read fails. The event that wakes the
-- coordinator is the Boolean of `wake`.
mod Waiters
mod Wake
mod Sleep
mod Tests
use lxp.Common.{
  ℕ, zero, suc, ◌+◌, ◌-◌, ◌*◌, ◌/◌, ◌%◌, ◌^◌, Bool, true, false, Option, none, some, List, [], ◌∷◌,
  ltb, ◌==◌, ◌&&◌, ◌||◌, not, if◌then◌else◌, Result, ok, err,
}
use lxp.Errno.{eagain, efault}
use lxp.Proc.{
  Proc, Wait, WaitKind, futex, futex_data, Payload, cleared, timer_data, io_data, same_kind,
  wait_begin,
}

-- what a wait or a wake reads of a slot of `g_lxp_rt.slots`
pub record Slot : Type 0 where
  pub alive : Bool
  pub mm : Option ℕ
  pub proc : Proc

abbrev pub same_space : Option ℕ → Option ℕ → Bool
same_space (some a) (some b) = a == b
same_space _ _ = false

-- the loop of `lxp_futex_has_corunner` from the slot `s` on, for the task in the slot `self`
unfoldable pub corunner_from : ℕ → ℕ → Option ℕ → Option ℕ → List Slot → Bool
corunner_from s self mm vfork_parent [] = false
corunner_from s self mm vfork_parent (q ∷ qs) =
    let rest = corunner_from (suc s) self mm vfork_parent qs in
    not (s == self) && q.alive && same_space q.mm mm && not (same_space (some s) vfork_parent)
    || rest

-- lxp_futex_has_corunner
abbrev pub has_corunner : ℕ → Option ℕ → Option ℕ → List Slot → Bool
has_corunner self mm vfork_parent slots = elim mm [
  | none ↦ false
  | some m ↦ corunner_from 0 self (some m) vfork_parent slots
]

-- whether the futex wait `p` is on the address `uaddr` and not marked yet
abbrev pub unmarked_at : ℕ → Payload → Bool
unmarked_at uaddr (futex_data a deadline woken) = not woken && a == uaddr
unmarked_at uaddr _ = false

unfoldable pub matches : ℕ → Slot → Bool
unfolding same_kind
matches uaddr q =
    q.alive && same_kind q.proc.wait.kind futex && unmarked_at uaddr q.proc.wait.payload

abbrev pub marked : Payload → Payload
marked (futex_data a deadline woken) = futex_data a deadline true
marked p = p

abbrev pub mark : Slot → Slot
mark q = record q {
  proc = record q.proc { wait = record q.proc.wait { payload = marked q.proc.wait.payload } };
}

-- the loop of FUTEX_WAKE: the slots and how many waiters it marked, with `n` left to mark
unfoldable pub wake_from : ℕ → ℕ → List Slot → List Slot × ℕ
unfolding matches
wake_from n uaddr [] = ([], 0)
wake_from zero uaddr (q ∷ qs) = (q ∷ qs, 0)
wake_from (suc n) uaddr (q ∷ qs) =
    let (ps, woken) = wake_from n uaddr qs in
    let (ps', woken') = wake_from (suc n) uaddr qs in
    if matches uaddr q then (mark q ∷ ps, suc woken) else (q ∷ ps', woken')

-- FUTEX_WAKE: the slots, the answer and whether the coordinator is notified
unfoldable pub wake : ℕ → ℕ → List Slot → List Slot × ℕ × Bool
unfolding wake_from
wake val uaddr slots =
    let (slots', woken) = wake_from val uaddr slots in (slots', woken, ltb 0 woken)

-- the timeout argument of FUTEX_WAIT
pub data Timeout : Type 0 where
  infinite unreadable : Timeout
  after : ℕ → ℕ → Timeout

-- `sec * 1000000ull + nsec / 1000ull`, and what becomes of it; `relative` is FUTEX_WAIT
abbrev pub deadline_of : Bool → ℕ → ℕ → ℕ → ℕ
deadline_of relative now sec nsec =
    let ts = (sec * 1000000 + nsec / 1000) % 2 ^ 64 in
    let deadline = if relative then (now + ts) % 2 ^ 64 else ts in
    if deadline == 0 then 1 else deadline

-- What the guest gets at once, or that it is parked.
pub data Waited : Type 0 where
  answered : ℕ → Waited
  parked : Waited

-- the end of FUTEX_WAIT; `clock` is what `lxp_time_us` stores
unfoldable pub park : Option ℕ → Proc → ℕ → ℕ → Proc × Waited
unfolding wait_begin
park clock p uaddr deadline =
    let (p', r) = wait_begin clock p (record {
      kind = futex;
      op = 0;
      enqueued_us = 0;
      payload = futex_data uaddr deadline false;
    }) in
    elim r [ err e ↦ (p', answered eagain) | ok n ↦ (p', parked) ]

-- the end of FUTEX_WAIT once the word has the expected value and there is another runner or none
unfoldable pub wait_unless_alone : Option ℕ → ℕ → Bool → Proc → Bool → Timeout → ℕ → Proc × Waited
unfolding park
wait_unless_alone clock now relative p corunner timeout uaddr =
    if not corunner then (p, answered eagain) else elim timeout [
      | infinite ↦ park clock p uaddr 0
      | unreadable ↦ (p, answered efault)
      | after sec nsec ↦ park clock p uaddr (deadline_of relative now sec nsec)
    ]

-- FUTEX_WAIT and FUTEX_WAIT_BITSET of the task `q`, which stands at `self` among the slots;
-- `answered e` is the error `e`, and `now` what the first of the two readings of the clock leaves
unfoldable pub wait :
    Option ℕ
    → ℕ
    → Bool
    → List Slot
    → ℕ
    → Option ℕ
    → Slot
    → Option ℕ
    → ℕ
    → Timeout
    → ℕ
    → Proc × Waited
unfolding wait_unless_alone corunner_from
wait clock now relative slots self vfork_parent q observed val timeout uaddr = elim observed [
  | none ↦ (q.proc, answered efault)
  | some v ↦
      let corunner = has_corunner self q.mm vfork_parent slots in
      if not (v == val)
      then (q.proc, answered eagain)
      else wait_unless_alone clock now relative q.proc corunner timeout uaddr
]
