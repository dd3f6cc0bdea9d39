-- ===== src/Signal/Dispose.antt =====
-- What a signal's disposition decides, before anything of the task's context is touched.
use lxp.Common.{
  ℕ, ◌+◌, ◌%◌, ◌≤◌, ◌<◌, ◌≡◌, ◌≢◌, ◌⊎◌, inl, inr, true, false, none, some, arith, Bool-cases,
  Option-cases, leb, ◌==◌,
}
use lxp.Proc.{Proc, exit}
use lxp.Signal.{
  nsig, sig_dfl, sig_ign, handler_get, default_ignore, swallowed, stops_proc, is_stop, terminate,
}
use lxp.Signal.Deliver.{
  Guest, Stack, Action, ignore, stop, terminated, handler, prepare, resolve_handler,
}

-- The task asks to exit with the status of a signal's death.
pub record DiesOf (sig : ℕ) (p : Proc) : Type 0 where
  pub leaves : p.intent ≡ exit false
  pub status : p.exit_status ≡ 128 + sig
  pub signal : p.exit_signal ≡ sig % 256

-- SIGSTOP (19), and SIGTSTP (20), SIGTTIN (21) and SIGTTOU (22) at their default
pub Stops : Proc → ℕ → Type 0
Stops p sig = (sig ≡ 19) ⊎ (((sig ≡ 20) ⊎ (sig ≡ 21) ⊎ (sig ≡ 22)) × (handler_get p sig ≡ sig_dfl))

-- SIGCHLD (17), SIGCONT (18), SIGURG (23) and SIGWINCH (28)
pub Quiet : ℕ → Type 0
Quiet sig = (sig ≡ 17) ⊎ (sig ≡ 18) ⊎ (sig ≡ 23) ⊎ (sig ≡ 28)

stops_proc-Stops : (p : Proc) (sig : ℕ) → stops_proc p sig ≡ true → Stops p sig
unfolding stops_proc is_stop Stops
stops_proc-Stops p sig e = elim (Bool-cases (sig == 19)) [
  | inl f ↦ inl (ground (arith, f))
  | inr f ↦ elim (Bool-cases (sig == 20)) [
    | inl h ↦ inr (inl (ground (arith, h)), ground (arith, e, f))
    | inr h ↦ elim (Bool-cases (sig == 21)) [
      | inl k ↦ inr (inr (inl (ground (arith, k))), ground (arith, e, f))
      | inr k ↦ inr (inr (inr (ground (arith, e, f, h, k))), ground (arith, e, f))
    ]
  ]
]

Stops-refuted : (p : Proc) (sig : ℕ) → stops_proc p sig ≡ false → Stops p sig → ⊥
unfolding stops_proc is_stop Stops
Stops-refuted p sig e (inl at) = ground (arith, e, at)
Stops-refuted p sig e (inr (inl at, d)) = ground (arith, e, at, d)
Stops-refuted p sig e (inr (inr (inl at), d)) = ground (arith, e, at, d)
Stops-refuted p sig e (inr (inr (inr at), d)) = ground (arith, e, at, d)

default_ignore-Quiet : (sig : ℕ) → default_ignore sig ≡ true → Quiet sig
unfolding default_ignore Quiet
default_ignore-Quiet sig e = elim (Bool-cases (sig == 17)) [
  | inl f ↦ inl (ground (arith, f))
  | inr f ↦ elim (Bool-cases (sig == 18)) [
    | inl h ↦ inr (inl (ground (arith, h)))
    | inr h ↦ elim (Bool-cases (sig == 23)) [
      | inl k ↦ inr (inr (inl (ground (arith, k))))
      | inr k ↦ inr (inr (inr (ground (arith, e, f, h, k))))
    ]
  ]
]

Quiet-refuted : (sig : ℕ) → default_ignore sig ≡ false → Quiet sig → ⊥
unfolding default_ignore Quiet
Quiet-refuted sig e (inl at) = ground (arith, e, at)
Quiet-refuted sig e (inr (inl at)) = ground (arith, e, at)
Quiet-refuted sig e (inr (inr (inl at))) = ground (arith, e, at)
Quiet-refuted sig e (inr (inr (inr at))) = ground (arith, e, at)

swallowed-Quiet :
    (p : Proc) (sig : ℕ)
    → swallowed p sig ≡ true
    → (handler_get p sig ≡ sig_ign) ⊎ ((handler_get p sig ≡ sig_dfl) × Quiet sig)
unfolding swallowed
swallowed-Quiet p sig e = elim (Bool-cases (handler_get p sig == sig_ign)) [
  | inl f ↦ inl (ground (arith, f))
  | inr f ↦ inr (ground (arith, e, f), default_ignore-Quiet sig (ground (arith, e, f)))
]

-- The ways in which a signal is disposed of: the action, and the task and the stack afterwards.
pub data Disposed (g : Guest) (nest : ℕ) (p : Proc) (s : Stack) (sig : ℕ) (a : Action) (p' : Proc)
    (s' : Stack) : Type 0 where
  stops : Stops p sig → a ≡ stop → p' ≡ p → s' ≡ s → Disposed g nest p s sig a p' s'
  drops :
      (Stops p sig → ⊥)
      → (handler_get p sig ≡ sig_ign) ⊎ ((handler_get p sig ≡ sig_dfl) × Quiet sig)
      → a ≡ ignore
      → p' ≡ p
      → s' ≡ s
      → Disposed g nest p s sig a p' s'
  dies :
      (Stops p sig → ⊥)
      → (Quiet sig → ⊥)
      → handler_get p sig ≡ sig_dfl
      → a ≡ terminated
      → DiesOf sig p'
      → s' ≡ s
      → Disposed g nest p s sig a p' s'
  faults :
      (Stops p sig → ⊥)
      → handler_get p sig ≢ sig_dfl
      → handler_get p sig ≢ sig_ign
      → (resolve_handler g p sig ≡ none) ⊎ (nest ≤ s.depth)
      → a ≡ terminated
      → DiesOf 11 p'
      → s' ≡ s
      → Disposed g nest p s sig a p' s'
  runs :
      (entry got back : ℕ)
      → (Stops p sig → ⊥)
      → handler_get p sig ≢ sig_dfl
      → handler_get p sig ≢ sig_ign
      → resolve_handler g p sig ≡ some (entry, got, back)
      → s.depth < nest
      → a ≡ handler entry got back s.depth
      → Disposed g nest p s sig a p' s'

-- For a signal from 1 to 64: SIGSTOP, and a default SIGTSTP, SIGTTIN or SIGTTOU, stops the task; an
-- ignored signal, or a default one of SIGCHLD, SIGCONT, SIGURG and SIGWINCH, is dropped; neither
-- changes the task or the stack. Any other default disposition ends the task with the status
-- 128 + sig. A caught signal starts its handler, or ends the task by SIGSEGV (139) when the
-- handler's descriptor cannot be read or the handlers already nest as deep as they may.
pub prepare-Disposed :
    (g : Guest) (nest : ℕ) (p : Proc) (s : Stack) (sig : ℕ)
    → 1 ≤ sig
    → sig < nsig
    → let (a, p', s') = prepare g nest p s sig in Disposed g nest p s sig a p' s'
unfolding prepare swallowed terminate
prepare-Disposed g nest p s sig lo hi = elim (Bool-cases (stops_proc p sig)) [
  | inl halt ↦
      Disposed.stops (stops_proc-Stops p sig halt) (ground arith) (ground arith) (ground arith)
  | inr go ↦ elim (Bool-cases (swallowed p sig)) [
    | inl shut ↦
        Disposed.drops (Stops-refuted p sig go) (swallowed-Quiet p sig shut) (ground arith)
          (ground arith) (ground arith)
    | inr open_ ↦ elim (Bool-cases (handler_get p sig == sig_dfl)) [
      | inl default ↦
          Disposed.dies (Stops-refuted p sig go)
            (Quiet-refuted sig (ground (arith, open_, default))) (ground arith) (ground arith)
            (ground arith) (ground arith)
      | inr caught ↦ elim (Option-cases (resolve_handler g p sig)) [
        | inl bad ↦
            Disposed.faults (Stops-refuted p sig go) (ground arith) (ground arith) (inl bad)
              (ground arith) (ground arith) (ground arith)
        | inr ((entry, got, back), good) ↦ elim (Bool-cases (leb nest s.depth)) [
          | inl deep ↦
              Disposed.faults (Stops-refuted p sig go) (ground arith) (ground arith)
                (inr (ground arith)) (ground arith) (ground arith) (ground arith)
          | inr shallow ↦
              Disposed.runs entry got back (Stops-refuted p sig go) (ground arith) (ground arith)
                good (ground arith) (ground arith)
        ]
      ]
    ]
  ]
]
