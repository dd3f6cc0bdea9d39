-- ===== src/Futex/Wake.antt =====
-- FUTEX_WAKE of src/run/lxp_futex.c wakes the waiters that there are, up to the number asked for.
use lxp.Common.{
  ℕ, zero, suc, ◌-◌, ◌≡◌, refl, ap, subst, inl, inr, true, false, List, [], ◌∷◌, arith, ltb, leb,
  if◌then◌else◌, Bool-cases,
}
use lxp.Proc.{Payload, futex_data}
use lxp.Futex.{Slot, matches, marked, mark, wake_from, wake}
use lxp.Futex.Waiters.{WaitsOn, matches-WaitsOn, WaitsOn-matches}

-- The slot with another payload in its wait.
abbrev pub with_payload : Slot → Payload → Slot
with_payload q x = record q { proc = record q.proc { wait = record q.proc.wait { payload = x } } }

-- What a wake that may still mark `n` waiters does to the slots: in their order, a waiter on the address
-- gets its mark, with nothing else changed, and any other slot is as it was.
pub data Woken (uaddr : ℕ) : ℕ → List Slot → List Slot → ℕ → Type 0 where
  stop : (qs : List Slot) → Woken uaddr zero qs qs 0
  end_of : (n : ℕ) → Woken uaddr n [] [] 0
  pass :
      (n : ℕ) (q : Slot) (qs ps : List Slot) (k : ℕ)
      → ((d : ℕ) → WaitsOn uaddr d q → ⊥)
      → Woken uaddr n qs ps k
      → Woken uaddr n (q ∷ qs) (q ∷ ps) k
  take :
      (n d : ℕ) (q : Slot) (qs ps : List Slot) (k : ℕ)
      → WaitsOn uaddr d q
      → Woken uaddr n qs ps k
      → Woken uaddr (suc n) (q ∷ qs) (with_payload q (futex_data uaddr d true) ∷ ps) (suc k)

-- How many slots are waiters on the address.
pub data Waiters (uaddr : ℕ) : List Slot → ℕ → Type 0 where
  nobody : Waiters uaddr [] 0
  other :
      (q : Slot) (qs : List Slot) (k : ℕ)
      → ((d : ℕ) → WaitsOn uaddr d q → ⊥)
      → Waiters uaddr qs k
      → Waiters uaddr (q ∷ qs) k
  waiter :
      (d : ℕ) (q : Slot) (qs : List Slot) (k : ℕ)
      → WaitsOn uaddr d q
      → Waiters uaddr qs k
      → Waiters uaddr (q ∷ qs) (suc k)

not_waiting : (uaddr : ℕ) (q : Slot) → matches uaddr q ≡ false → (d : ℕ) → WaitsOn uaddr d q → ⊥
not_waiting uaddr q e d w = ground (arith, e, WaitsOn-matches uaddr d q w)

mark-with_payload :
    (uaddr d : ℕ) (q : Slot) → WaitsOn uaddr d q → mark q ≡ with_payload q (futex_data uaddr d true)
mark-with_payload uaddr d q w = ap (λ x. with_payload q (marked x)) w.payload

wake_from-Woken :
    (n uaddr : ℕ) (qs : List Slot)
    → Woken uaddr n qs (wake_from n uaddr qs).0 (wake_from n uaddr qs).1
unfolding wake_from
wake_from-Woken n uaddr [] = end_of n
wake_from-Woken zero uaddr (q ∷ qs) = stop (q ∷ qs)
wake_from-Woken (suc n) uaddr (q ∷ qs) = elim (Bool-cases (matches uaddr q)) [
  | inl e ↦
      let (d, w) = matches-WaitsOn uaddr q e in
      rw (e, wake_from)
        (rw (mark-with_payload uaddr d q w) (take n d q qs _ _ w (wake_from-Woken n uaddr qs)))
  | inr e ↦
      rw (e, wake_from)
        (pass (suc n) q qs _ _ (not_waiting uaddr q e) (wake_from-Woken (suc n) uaddr qs))
]

abbrev pub fewer : ℕ → ℕ → ℕ
fewer a b = if leb a b then a else b

unfoldable waiting : ℕ → List Slot → ℕ
unfolding matches
waiting uaddr [] = 0
waiting uaddr (q ∷ qs) = let k = waiting uaddr qs in if matches uaddr q then suc k else k

waiting-Waiters : (uaddr : ℕ) (qs : List Slot) → Waiters uaddr qs (waiting uaddr qs)
unfolding waiting
waiting-Waiters uaddr [] = nobody
waiting-Waiters uaddr (q ∷ qs) = elim (Bool-cases (matches uaddr q)) [
  | inl e ↦
      let (d, w) = matches-WaitsOn uaddr q e in rw e (waiter d q qs _ w (waiting-Waiters uaddr qs))
  | inr e ↦ rw e (other q qs _ (not_waiting uaddr q e) (waiting-Waiters uaddr qs))
]

-- A marked slot is no waiter.
marked_off :
    (uaddr d d' : ℕ) (q : Slot) → WaitsOn uaddr d' (with_payload q (futex_data uaddr d true)) → ⊥
marked_off uaddr d d' q w = ground (arith, w.payload)

Woken_count :
    (uaddr n : ℕ) (qs ps : List Slot) (k m : ℕ)
    → Woken uaddr n qs ps k
    → Waiters uaddr qs m
    → (k ≡ fewer n m) × Waiters uaddr ps (m - k)
Woken_count uaddr _ _ _ _ m (stop qs) w = (ground arith, subst (Waiters uaddr qs) (omega arith) w)
Woken_count uaddr _ _ _ _ _ (end_of n) nobody = (ground arith, nobody)
Woken_count uaddr _ _ _ _ _ (pass n q qs ps k no_wait v) (other _ _ m no_wait' w) =
    let (count, rest) = Woken_count uaddr n qs ps k m v w in
    (count, other q ps (m - k) no_wait rest)
Woken_count uaddr _ _ _ _ _ (pass n q qs ps k no_wait v) (waiter d _ _ m is w) =
    absurd (no_wait d is)
Woken_count uaddr _ _ _ _ _ (take n d q qs ps k is v) (other _ _ m no_wait w) =
    absurd (no_wait d is)
Woken_count uaddr _ _ _ _ _ (take n d q qs ps k is v) (waiter d' _ _ m is' w) =
    let (count, rest) = Woken_count uaddr n qs ps k m v w in
    (
      ground (arith, count),
      subst (Waiters uaddr (with_payload q (futex_data uaddr d true) ∷ ps)) (omega arith) (
          other (with_payload q (futex_data uaddr d true)) ps (m - k)
            (λ d'' off. marked_off uaddr d d'' q off) rest),
    )

-- A wake answers with the number asked for, or with that of the waiters on its address where they are
-- fewer. It marks as many of them, the first in the order of the slots, and changes nothing else, so
-- that those that are left are the waiters without the marked ones; a waiter is a live task that waits
-- on exactly this address and is not marked; the coordinator is notified when one was marked.
pub wake-Woken :
    (val uaddr : ℕ) (slots : List Slot)
    → (let (slots', woken, notify) = wake val uaddr slots in
        Woken uaddr val slots slots' woken
        × (notify ≡ ltb 0 woken)
        × ((m : ℕ) × Waiters uaddr slots m
            × (woken ≡ fewer val m)
            × Waiters uaddr slots' (m - woken)))
unfolding wake
wake-Woken val uaddr slots =
    let w = wake_from-Woken val uaddr slots in
    let there = waiting-Waiters uaddr slots in
    let (count, left) = Woken_count uaddr val slots _ _ (waiting uaddr slots) w there in
    (w, refl, (waiting uaddr slots, there, count, left))
