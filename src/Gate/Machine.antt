-- ===== src/Gate/Machine.antt =====
-- The coordinator and the worker of src/lxp_async_gate.c, interleaved at every atomic access. A
-- call that stores several fields takes one step for each; the coordinator and the worker are
-- each one thread, which makes one call at a time.
use lxp.Common.{ℕ, ◌≡◌, ◌≢◌, true, Option, none, some}
use lxp.Gate.{
  State, idle, active, complete, retiring, Gate, is_mine, init, cancel_load, cancel_answer,
  cancel_active, cancel_complete,
}

-- Where the coordinator stands in its calls.
pub data Coord : Type 0 where
  -- between two calls
  ready : Coord
  -- in `enter`, which has loaded IDLE: before each of its three stores
  store_owner store_tag store_active : ℕ → Coord
  -- `enter` has answered SUBMIT, and the request is not queued yet
  submitting : Coord
  -- `enter` has answered COLLECT
  collecting : Coord
  -- in `cancel`, at the top of the loop, and before the swap of the state that it loaded
  cancel_top : ℕ → Coord
  cancel_swap : ℕ → State → Coord
  -- `cancel` has answered CANCEL_COMPLETE, and the provider cleans up before `dropped`
  cleaning : Coord
  -- in `gate_retire`, before each of its three stores
  retire_owner retire_tag retire_state : Coord

-- Where the worker stands. A job is the owner and the tag that it was queued with.
pub data Worker : Type 0 where
  waiting : Worker
  working : ℕ → ℕ → Worker
  -- `complete` has answered DROP
  dropping : Worker
  drop_owner drop_tag drop_state : Worker

-- The gate, both threads, and the job whose result the provider keeps for collection.
pub record System : Type 0 where
  pub gate : Gate
  pub coord : Coord
  pub worker : Worker
  pub result : Option (ℕ × ℕ)

abbrev pub start : System
start = record { gate = init; coord = ready; worker = waiting; result = none }

-- One access of the coordinator to the gate: where it stands and the gate, before and after.
pub data CoordStep : Coord → Gate → Coord → Gate → Type 0 where
  choose : (g : Gate) (o : ℕ) → CoordStep ready g ready (record g { selected_owner = o })
  see_idle :
      (g : Gate) (t : ℕ)
      → g.selected_owner ≢ 0
      → g.state ≡ idle
      → CoordStep ready g (store_owner t) g
  put_owner :
      (g : Gate) (t : ℕ)
      → CoordStep (store_owner t) g (store_tag t) (record g { request_owner = g.selected_owner })
  put_tag :
      (g : Gate) (t : ℕ) → CoordStep (store_tag t) g (store_active t) (record g { request_tag = t })
  put_active :
      (g : Gate) (t : ℕ) → CoordStep (store_active t) g submitting (record g { state = active })
  -- `enter` answers COLLECT
  see_mine :
      (g : Gate) (t : ℕ)
      → g.selected_owner ≢ 0
      → g.state ≡ complete
      → is_mine g t ≡ true
      → CoordStep ready g collecting g
  -- `abort` of a request that could not be queued; `collected` of a result that was copied
  abort_swap :
      (g : Gate)
      → g.state ≡ active
      → CoordStep submitting g retire_owner (record g { state = retiring })
  collect_swap :
      (g : Gate)
      → g.state ≡ complete
      → CoordStep collecting g retire_owner (record g { state = retiring })
  abort_fails : (g : Gate) → g.state ≢ active → CoordStep submitting g ready g
  collect_fails : (g : Gate) → g.state ≢ complete → CoordStep collecting g ready g
  -- `dropped` after CANCEL_COMPLETE
  clean_skips : (g : Gate) → g.state ≢ retiring → CoordStep cleaning g ready g
  clean : (g : Gate) → g.state ≡ retiring → CoordStep cleaning g retire_owner g
  ret_owner : (g : Gate) → CoordStep retire_owner g retire_tag (record g { request_owner = 0 })
  ret_tag : (g : Gate) → CoordStep retire_tag g retire_state (record g { request_tag = 0 })
  ret_state : (g : Gate) → CoordStep retire_state g ready (record g { state = idle })
  -- `cancel`
  call_cancel : (g : Gate) (o : ℕ) → o ≢ 0 → CoordStep ready g (cancel_top o) g
  load_none : (g : Gate) (o : ℕ) → cancel_load g o ≡ none → CoordStep (cancel_top o) g ready g
  load_some :
      (g : Gate) (o : ℕ) (seen : State)
      → cancel_load g o ≡ some seen
      → CoordStep (cancel_top o) g (cancel_swap o seen) g
  swap_fails :
      (g : Gate) (o : ℕ) (seen : State)
      → g.state ≢ seen
      → CoordStep (cancel_swap o seen) g (cancel_top o) g
  swap_active :
      (g : Gate) (o : ℕ) (seen : State)
      → g.state ≡ seen
      → cancel_answer seen ≡ cancel_active
      → CoordStep (cancel_swap o seen) g ready (record g { state = retiring })
  swap_complete :
      (g : Gate) (o : ℕ) (seen : State)
      → g.state ≡ seen
      → cancel_answer seen ≡ cancel_complete
      → CoordStep (cancel_swap o seen) g cleaning (record g { state = retiring })

-- One access of the worker: where it stands, the gate and the kept result, before and after.
pub data WorkerStep : Worker → Gate → Option (ℕ × ℕ) → Worker → Gate → Option (ℕ × ℕ) → Type 0 where
  wakes :
      (g : Gate) (r : Option (ℕ × ℕ)) (o t : ℕ)
      → g.state ≡ active
      → WorkerStep (working o t) g r waiting (record g { state = complete }) (some (o, t))
  drops :
      (g : Gate) (r : Option (ℕ × ℕ)) (o t : ℕ)
      → g.state ≢ active
      → WorkerStep (working o t) g r dropping g r
  begins_drop :
      (g : Gate) (r : Option (ℕ × ℕ)) → g.state ≡ retiring → WorkerStep dropping g r drop_owner g r
  skips_drop :
      (g : Gate) (r : Option (ℕ × ℕ)) → g.state ≢ retiring → WorkerStep dropping g r waiting g r
  clears_owner :
      (g : Gate) (r : Option (ℕ × ℕ))
      → WorkerStep drop_owner g r drop_tag (record g { request_owner = 0 }) r
  clears_tag :
      (g : Gate) (r : Option (ℕ × ℕ))
      → WorkerStep drop_tag g r drop_state (record g { request_tag = 0 }) r
  clears_state :
      (g : Gate) (r : Option (ℕ × ℕ))
      → WorkerStep drop_state g r waiting (record g { state = idle }) r

-- A step of the whole: either thread, or the request changes hands.
pub data Step : System → System → Type 0 where
  coord_step :
      (s : System) (c : Coord) (g : Gate)
      → CoordStep s.coord s.gate c g
      → Step s (record s { coord = c; gate = g })
  worker_step :
      (s : System) (w : Worker) (g : Gate) (r : Option (ℕ × ℕ))
      → WorkerStep s.worker s.gate s.result w g r
      → Step s (record s { worker = w; gate = g; result = r })
  -- the coordinator queues the request that `enter` answered SUBMIT for
  queued :
      (s : System)
      → s.coord ≡ submitting
      → Step s
          (record s { coord = ready; worker = working s.gate.request_owner s.gate.request_tag })

pub data Reach : System → Type 0 where
  here : Reach start
  next : {s t : System} → Reach s → Step s t → Reach t
