-- ===== src/Futex/Waiters.antt =====
-- The tests of src/run/lxp_futex.c on slots, against what they are to find.
use lxp.Common.{
  ℕ, suc, ◌≡◌, ◌≢◌, refl, ap, inl, inr, Bool, true, false, Option, none, some, List, [], ◌∷◌, arith,
  ◌==◌, ==_self, ◌&&◌, ◌||◌, not, Bool-cases,
}
use lxp.Proc.{WaitKind, Payload, futex, futex_data, cleared, timer_data, io_data, same_kind}
use lxp.Futex.{Slot, same_space, corunner_from, unmarked_at, matches}

-- A live task that waits on the address, until the deadline, and was not woken.
pub record WaitsOn (uaddr deadline : ℕ) (q : Slot) : Type 0 where
  pub alive : q.alive ≡ true
  pub kind : q.proc.wait.kind ≡ futex
  pub payload : q.proc.wait.payload ≡ futex_data uaddr deadline false

same_kind_eq : (k : WaitKind) → same_kind k futex ≡ true → k ≡ futex
unfolding same_kind
same_kind_eq WaitKind.futex e = refl
same_kind_eq WaitKind.idle e = absurd (ground (arith, e))
same_kind_eq WaitKind.timer e = absurd (ground (arith, e))
same_kind_eq WaitKind.child e = absurd (ground (arith, e))
same_kind_eq WaitKind.pipe e = absurd (ground (arith, e))
same_kind_eq WaitKind.console e = absurd (ground (arith, e))
same_kind_eq WaitKind.device e = absurd (ground (arith, e))
same_kind_eq WaitKind.socket e = absurd (ground (arith, e))
same_kind_eq WaitKind.netfs e = absurd (ground (arith, e))
same_kind_eq WaitKind.hostfs e = absurd (ground (arith, e))
same_kind_eq WaitKind.pty e = absurd (ground (arith, e))
same_kind_eq WaitKind.sigsuspend e = absurd (ground (arith, e))
same_kind_eq WaitKind.poll e = absurd (ground (arith, e))

unmarked_data :
    (uaddr : ℕ) (p : Payload)
    → unmarked_at uaddr p ≡ true
    → (d : ℕ) × (p ≡ futex_data uaddr d false)
unmarked_data uaddr (futex_data a d true) e = absurd (ground (arith, e))
unmarked_data uaddr (futex_data a d false) e =
    (d, ap (λ x. futex_data x d false) (ground (arith, e)))
unmarked_data uaddr cleared e = absurd (ground (arith, e))
unmarked_data uaddr (timer_data d) e = absurd (ground (arith, e))
unmarked_data uaddr (io_data o b l) e = absurd (ground (arith, e))

pub matches-WaitsOn : (uaddr : ℕ) (q : Slot) → matches uaddr q ≡ true → (d : ℕ) × WaitsOn uaddr d q
unfolding matches
matches-WaitsOn uaddr q e =
    let (d, data_of) = unmarked_data uaddr q.proc.wait.payload (ground (arith, e)) in
    (
      d,
      record {
        alive = ground (arith, e);
        kind = same_kind_eq q.proc.wait.kind (ground (arith, e));
        payload = data_of;
      },
    )

pub WaitsOn-matches : (uaddr d : ℕ) (q : Slot) → WaitsOn uaddr d q → matches uaddr q ≡ true
unfolding matches same_kind
WaitsOn-matches uaddr d q w = rw (w.alive, w.kind, w.payload) (ground arith)

-- From the slot `s` on, a live task other than that in the slot `self`, in the same address space `mm`,
-- and not the parent that waits for a vfork.
pub data CoRunner (self mm : ℕ) (vfork_parent : Option ℕ) : ℕ → List Slot → Type 0 where
  here :
      (s : ℕ) (q : Slot) (qs : List Slot)
      → s ≢ self
      → q.alive ≡ true
      → q.mm ≡ some mm
      → vfork_parent ≢ some s
      → CoRunner self mm vfork_parent s (q ∷ qs)
  there :
      (s : ℕ) (q : Slot) (qs : List Slot)
      → CoRunner self mm vfork_parent (suc s) qs
      → CoRunner self mm vfork_parent s (q ∷ qs)

same_space_eq : (a : Option ℕ) (b : ℕ) → same_space a (some b) ≡ true → a ≡ some b
same_space_eq none b e = absurd (ground (arith, e))
same_space_eq (some a) b e = ap some (ground (arith, e))

same_space_ne : (a : ℕ) (b : Option ℕ) → same_space (some a) b ≡ false → b ≢ some a
same_space_ne a none e f = ground (arith, f)
same_space_ne a (some b) e f = ground (arith, e, f)

ne-same_space : (a : ℕ) (b : Option ℕ) → b ≢ some a → same_space (some a) b ≡ false
ne-same_space a none h = refl
ne-same_space a (some b) h = elim (Bool-cases (a == b)) [
  | inl e ↦ absurd (h (ap some (ground (arith, e))))
  | inr e ↦ e
]

or_right : (a b : Bool) → a ≡ false → (a || b) ≡ true → b ≡ true
or_right a b f e = ground (arith, f, e)

or_true : (a b : Bool) → b ≡ true → (a || b) ≡ true
or_true a b e = ground (arith, e)

pub corunner_from-CoRunner :
    (s self mm : ℕ) (vp : Option ℕ) (qs : List Slot)
    → corunner_from s self (some mm) vp qs ≡ true
    → CoRunner self mm vp s qs
unfolding corunner_from
corunner_from-CoRunner s self mm vp [] e = absurd (ground (arith, e))
corunner_from-CoRunner s self mm vp (q ∷ qs) e =
    let found =
      not (s == self) && q.alive && same_space q.mm (some mm) && not (same_space (some s) vp) in
    elim (Bool-cases found) [
      | inl f ↦
          here s q qs (ground (arith, f)) (ground (arith, f))
            (same_space_eq q.mm mm (ground (arith, f))) (same_space_ne s vp (ground (arith, f)))
      | inr f ↦ there s q qs (corunner_from-CoRunner (suc s) self mm vp qs (or_right found _ f e))
    ]

pub CoRunner-corunner_from :
    (self mm : ℕ) (vp : Option ℕ) (s : ℕ) (qs : List Slot)
    → CoRunner self mm vp s qs
    → corunner_from s self (some mm) vp qs ≡ true
unfolding corunner_from
CoRunner-corunner_from self mm vp s _ (here _ q qs ne live at not_parent) =
    let other : (s == self) ≡ false = ground (arith, ne) in
    rw (at, live, other) (rw (==_self mm, ne-same_space s vp not_parent) refl)
CoRunner-corunner_from self mm vp s _ (there _ q qs c) =
    or_true _ _ (CoRunner-corunner_from self mm vp (suc s) qs c)
