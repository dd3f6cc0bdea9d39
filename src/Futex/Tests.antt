-- ===== src/Futex/Tests.antt =====
-- Witnesses and runs of src/run/lxp_futex.c: three waiters on the address 64, of which one is marked.
use lxp.Common.{ℕ, ◌-◌, ◌≡◌, refl, Bool, true, false, none, some, List, [], ◌∷◌, ltb}
use lxp.Common.Mask.{empty}
use lxp.Proc.{Intent, futex, futex_data, same_kind, is_idle, wait_begin}
use lxp.Futex.{Slot, matches, wake_from, wake}
use lxp.Proc.{no_wait}
use lxp.Futex.{infinite, parked, park, corunner_from, wait_unless_alone, wait}
use lxp.Futex.Wake.{Waiters, Woken, fewer, wake-Woken}

abbrev waiter : Bool → Slot
waiter woken = record {
  alive = true;
  mm = some 0;
  proc = record {
    intent = Intent.idle;
    wait = record { kind = futex; op = 0; enqueued_us = 0; payload = futex_data 64 0 woken };
    sighand = none;
    sig_blocked = empty;
    sigsuspend_saved_mask = empty;
    sigsuspend_active = false;
    pending_sigs = empty;
    stopped = false;
    stop_kind = 0;
    stop_sig = 0;
    stop_r0 = 0;
    is_fdpic = false;
    exit_status = 0;
    exit_reason = 0;
    exit_signal = 0;
    exit_detail = 0;
    exit_address = 0;
  };
}

abbrev slots : List Slot
slots = waiter false ∷ waiter true ∷ waiter false ∷ []

wake-Woken_example :
    let (slots', woken, notify) = wake 5 64 slots in
    Woken 64 5 slots slots' woken
    × (notify ≡ ltb 0 woken)
    × ((m : ℕ) × Waiters 64 slots m × (woken ≡ fewer 5 m) × Waiters 64 slots' (m - woken))
wake-Woken_example = wake-Woken 5 64 slots

one_only : wake 1 64 slots ≡ (waiter true ∷ waiter true ∷ waiter false ∷ [], 1, true)
unfolding wake wake_from matches same_kind
one_only = refl

-- a task that does not wait yet
abbrev runner : Slot
runner = record (waiter false) { proc = record (waiter false).proc { wait = no_wait } }

falls_asleep :
    (wait (some 9) 9 true (runner ∷ waiter false ∷ []) 0 none runner (some 3) 3 infinite 64).1
    ≡ parked
unfolding wait wait_unless_alone park wait_begin is_idle same_kind corunner_from
falls_asleep = refl
