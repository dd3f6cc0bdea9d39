-- ===== src/Gate.antt =====
-- src/lxp_async_gate.c and include/lxp/lxp_async_gate.h: the completion gate between the
-- coordinator and one provider worker. Each function takes the gate that it is handed and returns
-- it as it leaves it; a call through a null gate pointer, which every function answers without
-- touching anything, is not modelled. `Machine` cuts the calls into their atomic accesses.
mod Machine
mod Inv
mod Safety
mod Cancel
mod Calls
mod Tests
use lxp.Common.{ℕ, zero, suc, Bool, true, false, Option, none, some, ◌==◌, ◌&&◌, not, if◌then◌else◌}

-- enum lxp_async_gate_state
pub data State : Type 0 where
  idle active complete retiring : State

-- lxp_async_gate_t; an owner and a tag are only compared
pub record Gate : Type 0 where
  pub selected_owner : ℕ
  pub request_owner : ℕ
  pub request_tag : ℕ
  pub state : State

-- lxp_async_gate_action_t
pub data Action : Type 0 where
  sync submit block collect : Action

-- lxp_async_gate_publish_t
pub data Publish : Type 0 where
  drop wake : Publish

-- lxp_async_gate_cancel_t
pub data Cancelled : Type 0 where
  cancel_none cancel_active cancel_complete : Cancelled

abbrev pub same : State → State → Bool
same idle idle = true
same active active = true
same complete complete = true
same retiring retiring = true
same _ _ = false

-- __atomic_compare_exchange_n on the state word: the gate afterwards, and whether it was swapped
pub cas : Gate → State → State → Gate × Bool
cas g expected desired =
    if same g.state expected then (record g { state = desired }, true) else (g, false)

pub gate_retire : Gate → Gate
gate_retire g = record g { request_owner = 0; request_tag = 0; state = idle }

pub init : Gate
init = record { selected_owner = 0; request_owner = 0; request_tag = 0; state = idle }

pub select : Gate → ℕ → Gate
select g owner = record g { selected_owner = owner }

-- the test that `enter` makes of a completion
pub is_mine : Gate → ℕ → Bool
is_mine g tag = g.request_owner == g.selected_owner && g.request_tag == tag

pub enter_state : State → Gate → ℕ → Gate × Action
unfolding is_mine
enter_state complete g tag = (g, if is_mine g tag then collect else block)
enter_state idle g tag =
    (record g { request_owner = g.selected_owner; request_tag = tag; state = active }, submit)
enter_state _ g tag = (g, block)

pub enter : Gate → ℕ → Gate × Action
unfolding enter_state
enter g tag = if g.selected_owner == 0 then (g, sync) else enter_state g.state g tag

pub abort : Gate → Gate
unfolding cas gate_retire
abort g = let (g', swapped) = cas g active retiring in if swapped then gate_retire g' else g'

pub publish : Gate → Gate × Publish
unfolding cas
publish g = let (g', swapped) = cas g active complete in (g', if swapped then wake else drop)

pub dropped : Gate → Gate
unfolding gate_retire
dropped g = if same g.state retiring then gate_retire g else g

pub collected : Gate → Gate
unfolding cas gate_retire
collected g = let (g', swapped) = cas g complete retiring in if swapped then gate_retire g' else g'

-- the state that a round of `cancel` loads, if it goes on to swap it
pub cancel_load : Gate → ℕ → Option State
cancel_load g owner =
    if not (same g.state active) && not (same g.state complete)
    then none
    else if g.request_owner == owner
    then some g.state
    else none

-- the answer to a swap of the state `seen`
pub cancel_answer : State → Cancelled
cancel_answer complete = cancel_complete
cancel_answer _ = cancel_active

-- The loop of `lxp_async_gate_cancel`. `others k` is what the worker does to the gate between the
-- load and the swap of the round with `k` rounds left; `none` means that the rounds ran out.
pub cancel_loop : ℕ → (ℕ → Gate → Gate) → Gate → ℕ → Option (Gate × Cancelled)
unfolding cancel_load cancel_answer cas
cancel_loop zero others g owner = none
cancel_loop (suc n) others g owner = elim (cancel_load g owner) [
  | none ↦ some (g, cancel_none)
  | some seen ↦
      let (g', swapped) = cas (others n g) seen retiring in
      let rest = cancel_loop n others g' owner in
      if swapped then some (g', cancel_answer seen) else rest
]

-- Two rounds are enough, as `Cancel` shows.
pub cancel : (ℕ → Gate → Gate) → Gate → ℕ → Option (Gate × Cancelled)
unfolding cancel_loop
cancel others g owner = if owner == 0 then some (g, cancel_none) else cancel_loop 2 others g owner
