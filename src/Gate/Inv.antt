-- ===== src/Gate/Inv.antt =====
-- Which states of the gate go with which places in the calls of the two threads, and that every
-- access of either thread keeps it so.
use lxp.Common.{ℕ, ◌≡◌, refl, ◌⊎◌, inl, Option, some, arith}
use lxp.Gate.{idle, active, complete, retiring, Gate, is_mine, init, cancel_load, cancel_answer}
use lxp.Gate.Machine.{
  Coord, ready, store_owner, store_tag, store_active, submitting, collecting, cancel_top,
  cancel_swap, Worker, waiting, working, System, CoordStep, WorkerStep, Step, Reach,
}

-- A completion is published, and what the provider keeps is the result of this very request.
abbrev pub Published : Gate → Option (ℕ × ℕ) → Type 0
Published g r = (g.state ≡ complete) × (r ≡ some (g.request_owner, g.request_tag))

-- With no job at the worker.
abbrev pub Alone : Coord → Gate → Option (ℕ × ℕ) → Type 0
Alone ready g r = (g.state ≡ idle) ⊎ Published g r
Alone (cancel_top o) g r = (g.state ≡ idle) ⊎ Published g r
Alone (cancel_swap o seen) g r = Published g r × ((seen ≡ active) ⊎ (seen ≡ complete))
Alone collecting g r = Published g r
Alone (store_owner t) g r = g.state ≡ idle
Alone (store_tag t) g r = g.state ≡ idle
Alone (store_active t) g r = g.state ≡ idle
Alone submitting g r = g.state ≡ active
Alone _ g r = g.state ≡ retiring

-- With the job of `o` and `t` at the worker: either it is live, or a cancellation owns the gate.
abbrev pub Busy : Coord → ℕ → ℕ → Gate → Type 0
Busy ready o t g =
    ((g.state ≡ active) × (g.request_owner ≡ o) × (g.request_tag ≡ t)) ⊎ (g.state ≡ retiring)
Busy (cancel_top c) o t g =
    ((g.state ≡ active) × (g.request_owner ≡ o) × (g.request_tag ≡ t)) ⊎ (g.state ≡ retiring)
Busy (cancel_swap c seen) o t g =
    (g.state ≡ active) × (g.request_owner ≡ o) × (g.request_tag ≡ t) × (seen ≡ active)
Busy _ o t g = ⊥

-- While the worker drops a cancelled result.
abbrev pub Dropping : Coord → Gate → Type 0
Dropping ready g = g.state ≡ retiring
Dropping (cancel_top o) g = g.state ≡ retiring
Dropping _ g = ⊥

abbrev pub Fits : Coord → Worker → Gate → Option (ℕ × ℕ) → Type 0
Fits c waiting g r = Alone c g r
Fits c (working o t) g r = Busy c o t g
Fits c _ g r = Dropping c g

CoordStep-Fits :
    {c c' : Coord} {g g' : Gate} (w : Worker) (r : Option (ℕ × ℕ))
    → CoordStep c g c' g'
    → Fits c w g r
    → Fits c' w g' r
unfolding cancel_load cancel_answer is_mine
CoordStep-Fits w r (CoordStep.choose g o) f = ground arith
CoordStep-Fits w r (CoordStep.see_idle g t n i) f = ground arith
CoordStep-Fits w r (CoordStep.put_owner g t) f = ground arith
CoordStep-Fits w r (CoordStep.put_tag g t) f = ground arith
CoordStep-Fits w r (CoordStep.put_active g t) f = ground arith
CoordStep-Fits w r (CoordStep.see_mine g t n i m) f = ground arith
CoordStep-Fits w r (CoordStep.abort_swap g i) f = ground arith
CoordStep-Fits w r (CoordStep.collect_swap g i) f = ground arith
CoordStep-Fits w r (CoordStep.abort_fails g i) f = ground arith
CoordStep-Fits w r (CoordStep.collect_fails g i) f = ground arith
CoordStep-Fits w r (CoordStep.clean_skips g i) f = ground arith
CoordStep-Fits w r (CoordStep.clean g i) f = ground arith
CoordStep-Fits w r (CoordStep.ret_owner g) f = ground arith
CoordStep-Fits w r (CoordStep.ret_tag g) f = ground arith
CoordStep-Fits w r (CoordStep.ret_state g) f = ground arith
CoordStep-Fits w r (CoordStep.call_cancel g o n) f = ground arith
CoordStep-Fits w r (CoordStep.load_none g o e) f = ground arith
CoordStep-Fits w r (CoordStep.load_some g o seen e) f = ground arith
CoordStep-Fits w r (CoordStep.swap_fails g o seen e) f = ground arith
CoordStep-Fits w r (CoordStep.swap_active g o seen e a) f = ground arith
CoordStep-Fits w r (CoordStep.swap_complete g o seen e a) f = ground arith

WorkerStep-Fits :
    {w w' : Worker} {g g' : Gate} {r r' : Option (ℕ × ℕ)} (c : Coord)
    → WorkerStep w g r w' g' r'
    → Fits c w g r
    → Fits c w' g' r'
WorkerStep-Fits c (WorkerStep.wakes g r o t a) f = ground arith
WorkerStep-Fits c (WorkerStep.drops g r o t a) f = ground arith
WorkerStep-Fits c (WorkerStep.begins_drop g r a) f = ground arith
WorkerStep-Fits c (WorkerStep.skips_drop g r a) f = ground arith
WorkerStep-Fits c (WorkerStep.clears_owner g r) f = ground arith
WorkerStep-Fits c (WorkerStep.clears_tag g r) f = ground arith
WorkerStep-Fits c (WorkerStep.clears_state g r) f = ground arith

abbrev pub Inv : System → Type 0
Inv s = Fits s.coord s.worker s.gate s.result

queued-Inv :
    (c : Coord) (w : Worker) (g : Gate) (r : Option (ℕ × ℕ))
    → c ≡ submitting
    → Fits c w g r
    → Fits ready (working g.request_owner g.request_tag) g r
queued-Inv c w g r e f = ground arith

-- Every step of either thread keeps the invariant.
pub Step-Inv : {s t : System} → Step s t → Inv s → Inv t
Step-Inv (Step.coord_step s c g st) f = CoordStep-Fits s.worker s.result st f
Step-Inv (Step.worker_step s w g r st) f = WorkerStep-Fits s.coord st f
Step-Inv (Step.queued s e) f = queued-Inv s.coord s.worker s.gate s.result e f

-- It holds of every state that the two threads can reach from a fresh gate.
pub Reach-Inv : {s : System} → Reach s → Inv s
unfolding init
Reach-Inv Reach.here = inl refl
Reach-Inv (Reach.next r st) = Step-Inv st (Reach-Inv r)
