-- ===== src/Gate/Calls.antt =====
-- The functions of the gate against the machine's steps: a call that nothing interrupts is a run
-- of the coordinator's steps.
use lxp.Common.{ℕ, suc, ◌≡◌, ◌≢◌, ◌⊎◌, Bool, true, false}
use lxp.Gate.{State, idle, complete, Gate, Action, sync, submit, block, collect}
use lxp.Gate.Machine.{Coord, ready, submitting, collecting, store_owner, CoordStep}

-- A run of as many accesses as the number says.
pub data Run (c : Coord) (g : Gate) : ℕ → Coord → Gate → Type 0 where
  done : Run c g 0 c g
  then :
      {n : ℕ} {d e : Coord} {h k : Gate} → Run c g n d h → CoordStep d h e k → Run c g (suc n) e k

abbrev cleared : Gate → Gate
cleared g = record g { request_owner = 0; request_tag = 0; state = idle }

-- A call from `c` that swaps the state `s` to RETIRING and clears the request in four accesses, or does
-- nothing in one.
pub Clears : Coord → State → Gate → Gate → Type 0
Clears c s g g' =
    ((g.state ≡ s) × Run c g 4 ready g') ⊎ ((g.state ≢ s) × (g' ≡ g) × Run c g 1 ready g')

is_idle : State → Bool
is_idle idle = true
is_idle _ = false

is_complete : State → Bool
is_complete complete = true
is_complete _ = false

-- What `enter` comes to with a tag: nothing is stored without an owner or for another's completion, a
-- completion of the own request is seen in one access, and a submission sees an idle gate and stores
-- this tag and the owner in three more.
pub data Enters (g : Gate) (tag : ℕ) (g' : Gate) : Action → Type 0 where
  unowned : g.selected_owner ≡ 0 → g' ≡ g → Enters g tag g' sync
  submits :
      CoordStep ready g (store_owner tag) g
      → Run (store_owner tag) g 3 submitting g'
      → Enters g tag g' submit
  collects : CoordStep ready g collecting g → g' ≡ g → Enters g tag g' collect
  blocks :
      g.selected_owner ≢ 0
      → g.state ≢ idle
      → ((g.state ≡ complete) × (g.request_owner ≡ g.selected_owner) × (g.request_tag ≡ tag) → ⊥)
      → g' ≡ g
      → Enters g tag g' block
