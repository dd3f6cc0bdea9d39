-- ===== src/Gate/Tests.antt =====
-- The gate at concrete requests.
use lxp.Common.{ℕ, ◌≡◌, refl, ◌⊎◌, inl, none, some, arith}
use lxp.Gate.{
  idle, active, complete, retiring, Gate, init, enter, publish, cancel, wake, drop, cancel_complete,
}
use lxp.Gate.Machine.{ready, working, waiting, System, start, Reach, CoordStep, WorkerStep, Step}
use lxp.Gate.Cancel.{Worker, Answered, cancel_total}
use lxp.Gate.Safety.{collect_own_result, submit_worker_waits, publish_own_request}

-- owner 7 with operation 3
abbrev live : Gate
live = record { selected_owner = 7; request_owner = 7; request_tag = 3; state = active }

abbrev chosen : System
chosen = record start { gate = record init { selected_owner = 7 } }

chosen_Reach : Reach (record {
  gate = record { selected_owner = 7; request_owner = 0; request_tag = 0; state = idle };
  coord = ready;
  worker = waiting;
  result = none;
})
unfolding init
chosen_Reach = Reach.next Reach.here (Step.coord_step start _ _ (CoordStep.choose init 7))

abbrev at_work : System
at_work = record { gate = live; coord = ready; worker = working 7 3; result = none }

at_work-Reach : Reach at_work
at_work-Reach =
    Reach.next
      (Reach.next
        (Reach.next
          (Reach.next
            (Reach.next chosen_Reach
              (Step.coord_step _ _ _ (CoordStep.see_idle _ 3 (omega arith) refl)))
            (Step.coord_step _ _ _ (CoordStep.put_owner _ 3)))
          (Step.coord_step _ _ _ (CoordStep.put_tag _ 3)))
        (Step.coord_step _ _ _ (CoordStep.put_active _ 3)))
      (Step.queued _ refl)

abbrev finished : System
finished = record {
  gate = record live { state = complete };
  coord = ready;
  worker = waiting;
  result = some (7, 3);
}

finished-Reach : Reach finished
finished-Reach =
    Reach.next at_work-Reach (Step.worker_step _ _ _ _ (WorkerStep.wakes live none 7 3 refl))

collect_own_result_example :
    (finished.worker ≡ waiting) × (finished.result ≡ some (finished.gate.selected_owner, 3))
unfolding enter
collect_own_result_example = collect_own_result finished 3 finished-Reach refl refl

submit_worker_waits_example : waiting ≡ waiting
unfolding enter
submit_worker_waits_example = submit_worker_waits _ 3 chosen_Reach refl refl

publish_own_request_example :
    ((publish live).1 ≡ wake) × (live.request_owner ≡ 7) × (live.request_tag ≡ 3)
    ⊎ ((publish live).1 ≡ drop) × (live.state ≡ retiring) × ((publish live).0 ≡ live)
publish_own_request_example = publish_own_request at_work 7 3 at_work-Reach refl

quiet : ℕ → Gate → Gate
quiet k g = g

quiet_Worker : Worker quiet
unfolding quiet
quiet_Worker k g = inl refl

cancel_total_example : Answered quiet live 7
cancel_total_example = cancel_total quiet live 7 quiet_Worker

-- The worker publishes between the load and the swap of the first round.
cancel_meets_completion :
    cancel (λ k g. (publish g).0) live 7 ≡ some (record live { state = retiring }, cancel_complete)
unfolding cancel publish
cancel_meets_completion = refl
