-- ===== src/Gate/Cancel.antt =====
-- The loop of `lxp_async_gate_cancel`: it ends, and what it answers.
use lxp.Common.{ℕ, ◌≡◌, ◌≢◌, ◌⊎◌, some, arith}
use lxp.Gate.{
  active, complete, retiring, Gate, publish, cancel, cancel_none, cancel_active, cancel_complete,
}

-- What a worker does to the gate while the coordinator is in `cancel`: nothing, or it publishes.
abbrev pub Worker : (ℕ → Gate → Gate) → Type 0
Worker others = (k : ℕ) (g : Gate) → (others k g ≡ g) ⊎ (others k g ≡ (publish g).0)

-- The four ways in which a cancellation of the request of `owner` can end.
abbrev pub Answered : (ℕ → Gate → Gate) → Gate → ℕ → Type 0
Answered others g owner =
    let taken = record g { state = retiring } in
    let mine = (owner ≢ 0) × (g.request_owner ≡ owner) in
    (mine
      × (g.state ≡ active)
      × (others 1 g ≡ g)
      × (cancel others g owner ≡ some (taken, cancel_active)))
    ⊎ (mine
        × (g.state ≡ active)
        × (others 1 g ≡ (publish g).0)
        × (cancel others g owner ≡ some (taken, cancel_complete)))
    ⊎ (mine × (g.state ≡ complete) × (cancel others g owner ≡ some (taken, cancel_complete)))
    ⊎ (¬ (mine × ((g.state ≡ active) ⊎ (g.state ≡ complete))))
      × (cancel others g owner ≡ some (g, cancel_none))

-- Against a worker that may publish at any moment, `lxp_async_gate_cancel` returns after at most
-- two rounds. A live or completed request of the (nonzero) owner is taken, the gate left RETIRING
-- with its identity: the answer is CANCEL_ACTIVE if the request is live and the worker does not
-- publish before the first swap, and CANCEL_COMPLETE if it does, or if the completion was there
-- already. In every other case nothing is changed and the answer is CANCEL_NONE.
pub cancel_total :
    (others : ℕ → Gate → Gate) (g : Gate) (owner : ℕ) → Worker others → Answered others g owner
unfolding cancel publish
cancel_total others g owner w = ground (arith, w 1 g, w 0 (record g { state = complete }))
