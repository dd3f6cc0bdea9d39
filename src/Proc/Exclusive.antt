-- ===== src/Proc/Exclusive.antt =====
-- A task never asks for two things at once.
use lxp.Common.{ℕ, ◌≡◌, refl, ◌⊎◌, inl, inr, Bool, true, false, Option, arith, Result}
use lxp.Proc.{
  Proc, Intent, exit, Wait, WaitKind, is_idle, is_waiting, done, intent_begin, intent_complete,
  intent_exit, wait_begin, wait_park, wait_finish, wait_cancel,
}

-- At most one record is live, but for an exit, which overrides a wait.
abbrev pub IsExclusive : Proc → Type 0
IsExclusive p =
    (is_idle p.intent ≡ true)
    ⊎ (is_waiting p.wait ≡ false)
    ⊎ ((group : Bool) × (p.intent ≡ exit group))

-- The operations on the two records.
pub data Call : Type 0 where
  begins_intent completes_intent : Intent → Call
  exits : Bool → Call
  begins_wait parks : Option ℕ → Wait → Call
  finishes : WaitKind → Call
  cancels : Call

unfoldable pub step : Proc → Call → Proc × Result ℕ
unfolding intent_begin intent_complete intent_exit wait_begin wait_park wait_finish wait_cancel
step p (begins_intent i) = intent_begin p i
step p (completes_intent i) = intent_complete p i
step p (exits group) = intent_exit p group
step p (begins_wait now w) = wait_begin now p w
step p (parks now w) = wait_park now p w
step p (finishes kind) = wait_finish p kind
step p cancels = wait_cancel p

-- Every operation on a task's intent and wait keeps it from having both live, unless the intent
-- is an exit; and an operation that fails leaves the task as it was.
pub step-IsExclusive :
    (p : Proc) (c : Call)
    → IsExclusive p
    → IsExclusive (step p c).0 × (((step p c).1 ≡ done) ⊎ ((step p c).0 ≡ p))
unfolding step
step-IsExclusive p (begins_intent i) h = ground arith
step-IsExclusive p (completes_intent i) h = ground arith
step-IsExclusive p (exits group) h = (inr (inr (group, refl)), inl refl)
step-IsExclusive p (begins_wait now w) h = ground arith
step-IsExclusive p (parks now w) h = ground arith
step-IsExclusive p (finishes kind) h = ground arith
step-IsExclusive p cancels h = (inr (inl refl), inl refl)
