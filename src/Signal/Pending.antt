-- ===== src/Signal/Pending.antt =====
-- What is pending, and which pending signal is next.
use lxp.Common.{
  ℕ, zero, suc, ◌+◌, ◌-◌, ◌≤◌, ◌<◌, ◌≡◌, ◌≢◌, refl, sym, subst, ◌⊎◌, ◌||◌, inl, inr, true, false,
  arith, Bool-cases, ◌==◌, not, ◌&&◌,
}
use lxp.Common.Mask.{is_zero_below, is_zero_below_lem}
use lxp.Proc.{Proc}
use lxp.Signal.{
  nsig, sigcont, has, sig_blocked, scan, pending_deliverable, pending_take, is_stop, latch,
}

split_le : (a b : ℕ) → a ≤ b → (a ≡ b) ⊎ (a < b)
split_le a b h = omega arith

-- `sig` could be delivered to `p` now.
abbrev pub Deliverable : Proc → ℕ → Type 0
Deliverable p sig = (has p.pending_sigs sig ≡ true) × (sig_blocked p sig ≡ false)

-- `r` is the first deliverable signal from `from` on and before `to`, or 0 if there is none.
pub data First (p : Proc) (from to r : ℕ) : Type 0 where
  nothing : r ≡ 0 → ((s : ℕ) → from ≤ s → s < to → ¬ Deliverable p s) → First p from to r
  found :
      from ≤ r
      → r < to
      → Deliverable p r
      → ((s : ℕ) → from ≤ s → s < r → ¬ Deliverable p s)
      → First p from to r

test_true :
    (p : Proc) (s : ℕ) → (has p.pending_sigs s && not (sig_blocked p s)) ≡ true → Deliverable p s
test_true p s e = ground arith

test_false :
    (p : Proc) (s : ℕ) → (has p.pending_sigs s && not (sig_blocked p s)) ≡ false → ¬ Deliverable p s
test_false p s e d = ground arith

First-skip :
    (p : Proc) (from to r : ℕ) → ¬ Deliverable p from → First p (from + 1) to r → First p from to r
First-skip p from to r n (First.nothing e none) = First.nothing e λ s lo hi d.
    elim (split_le from s lo) [
      | inl eq ↦ n (subst (Deliverable p) (sym eq) d)
      | inr lt ↦ none s (omega arith) hi d
    ]
First-skip p from to r n (First.found lo hi d before) = First.found (omega arith) hi d λ s l h e.
    elim (split_le from s l) [
      | inl eq ↦ n (subst (Deliverable p) (sym eq) e)
      | inr lt ↦ before s (omega arith) h e
    ]

scan-First : (rounds from : ℕ) (p : Proc) → First p from (from + rounds) (scan rounds from p)
unfolding scan
scan-First zero from p = First.nothing refl (λ s lo hi d. omega arith)
scan-First (suc rounds) from p =
    elim (Bool-cases (has p.pending_sigs from && not (sig_blocked p from))) [
      | inl hit ↦ rw hit (
          First.found (omega arith) (omega arith) (test_true p from hit) (λ s lo hi d. omega arith))
      | inr miss ↦ rw miss (
          First-skip p from _ _ (test_false p from miss) (
            subst (λ k. First p (from + 1) k (scan rounds (from + 1) p)) (omega arith)
              (scan-First rounds (from + 1) p)))
    ]

-- `lxp_pending_deliverable` answers the lowest signal that is pending and not blocked, or 0 when
-- no signal from 1 to 64 is.
pub pending_deliverable-First : (p : Proc) → First p 1 nsig (pending_deliverable p)
unfolding pending_deliverable
pending_deliverable-First p = elim (Bool-cases (is_zero_below 64 p.pending_sigs)) [
  | inl none ↦ rw none (
      First.nothing refl
        λ s lo hi d. ground (arith, is_zero_below_lem 64 p.pending_sigs (s - 1) none, d))
  | inr some ↦ rw some (scan-First 64 1 p)
]

-- Taking the next signal clears that signal and no other, and answers 0 without any change when
-- nothing is deliverable.
pub pending_take_lem :
    (p : Proc) (s : ℕ)
    → let (q, sig) = pending_take p in
      (sig ≡ pending_deliverable p)
      × (has q.pending_sigs s ≡ (has p.pending_sigs s && not (s == sig)))
      × (q ≡ record p { pending_sigs = q.pending_sigs })
unfolding pending_take
pending_take_lem p s = ground arith

-- After `lxp_signal_latch` of a signal from 1 to 64 the signal is pending, and any other signal is
-- pending exactly if it was and is not of the opposing kind: a stop signal where SIGCONT was
-- latched, SIGCONT where a stop signal was.
pub latch_lem :
    (p : Proc) (sig s : ℕ)
    → 1 ≤ sig
    → sig < nsig
    → (has (latch p sig).pending_sigs sig ≡ true)
      × (s ≢ sig
          → has (latch p sig).pending_sigs s ≡ (
              has p.pending_sigs s
              && not (sig == sigcont && is_stop s || is_stop sig && s == sigcont)))
unfolding latch
latch_lem p sig s lo hi = (ground arith, λ n. ground arith)
