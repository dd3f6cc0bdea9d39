-- ===== src/Resource.antt =====
-- The pools of src/proc/lxp_process.c: objects with a reference count, where the count 0 means free.
-- `blank` is the object that memset leaves.
pub mod Counted
use lxp.Common.{
  ℕ, zero, suc, ◌+◌, ◌-◌, Bool, Option, none, some, List, [], ◌∷◌, ◌==◌, if◌then◌else◌, get_or, set,
}
use lxp.Fd.{u16_max, inc16}

pub record Item {ℓ} (A : Type ℓ) : Type ℓ where
  pub refs : ℕ
  pub value : A

-- What a task gets when it asks for an object: the object's index, or the reason why there is none.
pub data Acquired : Type 0 where
  got : ℕ → Acquired
  full exhausted : Acquired

module _ {ℓ} {A : Type ℓ} where
  unfoldable pub refs_at : List (Item A) → ℕ → ℕ
  refs_at [] i = 0
  refs_at (o ∷ os) zero = o.refs
  refs_at (o ∷ os) (suc i) = refs_at os i

  unfoldable pub with_refs : List (Item A) → ℕ → ℕ → List (Item A)
  with_refs [] i n = []
  with_refs (o ∷ os) zero n = record o { refs = n } ∷ os
  with_refs (o ∷ os) (suc i) n = o ∷ with_refs os i n

  abbrev pub value_at : A → List (Item A) → ℕ → A
  value_at blank os i = (get_or os i (record { refs = 0; value = blank })).value

  -- the index, from `i` on, of the first free object
  unfoldable pub free_item : ℕ → List (Item A) → Option ℕ
  free_item i [] = none
  free_item i (o ∷ os) = let rest = free_item (i + 1) os in if o.refs == 0 then some i else rest

  -- resource_new and what its caller stores into the object
  unfoldable pub resource_new : A → List (Item A) → List (Item A) × Acquired
  unfolding free_item
  resource_new v os = elim (free_item 0 os) [
    | none ↦ (os, exhausted)
    | some i ↦ (set os i (record { refs = 1; value = v }), got i)
  ]

  -- one more user of the object `i`, unless its count is full
  unfoldable pub share : List (Item A) → ℕ → List (Item A) × Acquired
  share os i =
      if refs_at os i == u16_max then (os, full) else (with_refs os i (inc16 (refs_at os i)), got i)

  -- the object `i` of the parent is shared, or a new one gets `v`
  unfoldable pub acquire : Bool → A → List (Item A) → ℕ → List (Item A) × Acquired
  unfolding resource_new share
  acquire shared v os i = if shared then share os i else resource_new v os

  -- one user less
  unfoldable pub put : A → List (Item A) → ℕ → List (Item A)
  put blank os i =
      let n = refs_at os i in
      if n == 0
      then os
      else if n - 1 == 0
      then set os i (record { refs = 0; value = blank })
      else with_refs os i (n - 1)

  abbrev pub put_held : A → List (Item A) → Option ℕ → List (Item A)
  put_held blank os none = os
  put_held blank os (some i) = put blank os i
