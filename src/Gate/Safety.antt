-- ===== src/Gate/Safety.antt =====
-- What no interleaving of the coordinator and the worker can do.
use lxp.Common.{ℕ, ◌≡◌, ◌⊎◌, Option, some, arith}
use lxp.Gate.{retiring, Gate, enter, publish, collect, submit, wake, drop}
use lxp.Gate.Machine.{Coord, ready, Worker, waiting, working, System, Reach}
use lxp.Gate.Inv.{Fits, Reach-Inv}

collect-Fits :
    (c : Coord) (w : Worker) (g : Gate) (r : Option (ℕ × ℕ)) (tag : ℕ)
    → Fits c w g r
    → c ≡ ready
    → (enter g tag).1 ≡ collect
    → (w ≡ waiting) × (r ≡ some (g.selected_owner, tag))
unfolding enter
collect-Fits c w g r tag f e h = ground arith

submit-Fits :
    (c : Coord) (w : Worker) (g : Gate) (r : Option (ℕ × ℕ)) (tag : ℕ)
    → Fits c w g r
    → c ≡ ready
    → (enter g tag).1 ≡ submit
    → w ≡ waiting
unfolding enter
submit-Fits c w g r tag f e h = ground arith

-- Whenever `lxp_async_gate_enter` answers COLLECT, between two calls of the coordinator in a state
-- that the coordinator and the worker can reach by any interleaving of their accesses to the gate,
-- the worker has no job, and what the provider keeps is the result of a job that was queued
-- with exactly the selected owner and the given tag.
pub collect_own_result :
    (s : System) (tag : ℕ)
    → Reach s
    → s.coord ≡ ready
    → (enter s.gate tag).1 ≡ collect
    → (s.worker ≡ waiting) × (s.result ≡ some (s.gate.selected_owner, tag))
collect_own_result s tag r e h = collect-Fits s.coord s.worker s.gate s.result tag (Reach-Inv r) e h

-- Whenever `lxp_async_gate_enter` answers SUBMIT, between two calls of the coordinator in a
-- reachable state, the worker has neither a job nor a cancelled result left to drop.
pub submit_worker_waits :
    (s : System) (tag : ℕ)
    → Reach s
    → s.coord ≡ ready
    → (enter s.gate tag).1 ≡ submit
    → s.worker ≡ waiting
submit_worker_waits s tag r e h = submit-Fits s.coord s.worker s.gate s.result tag (Reach-Inv r) e h

publish-Fits :
    (c : Coord) (w : Worker) (g : Gate) (r : Option (ℕ × ℕ)) (o t : ℕ)
    → Fits c w g r
    → w ≡ working o t
    → ((publish g).1 ≡ wake) × (g.request_owner ≡ o) × (g.request_tag ≡ t)
      ⊎ ((publish g).1 ≡ drop) × (g.state ≡ retiring) × ((publish g).0 ≡ g)
unfolding publish
publish-Fits c w g r o t f e = ground arith

-- When the worker publishes the completion of the job that it was queued with, in a reachable
-- state, either the gate wakes the guest, and still names that very job, or the job was cancelled:
-- then the completion is dropped and the gate is left as it is.
pub publish_own_request :
    (s : System) (o t : ℕ)
    → Reach s
    → s.worker ≡ working o t
    → ((publish s.gate).1 ≡ wake) × (s.gate.request_owner ≡ o) × (s.gate.request_tag ≡ t)
      ⊎ ((publish s.gate).1 ≡ drop) × (s.gate.state ≡ retiring) × ((publish s.gate).0 ≡ s.gate)
publish_own_request s o t r e = publish-Fits s.coord s.worker s.gate s.result o t (Reach-Inv r) e
