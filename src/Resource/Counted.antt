-- ===== src/Resource/Counted.antt =====
-- The reference counts of the pools of src/proc/lxp_process.c follow the users.
use lxp.Common.{
  ℕ, zero, suc, ◌+◌, ◌-◌, ◌<◌, ◌≡◌, ◌≢◌, refl, sym, ◌∙◌, ap, inl, inr, Bool, true, false, some,
  List, [], ◌∷◌, arith, ◌==◌, if◌then◌else◌, length, set, Bool-cases, Option-cases,
}
use lxp.Fd.{u16_max, inc16}
use lxp.Resource.{
  Item, Acquired, got, full, exhausted, refs_at, with_refs, free_item, resource_new, share, acquire,
  put,
}

-- one user of the object `i`
abbrev pub one_at : ℕ → ℕ → ℕ
one_at i j = if i == j then 1 else 0

-- what a request came to: a user more of the object got, or the pool as it was
abbrev pub users_after : (ℕ → ℕ) → Acquired → ℕ → ℕ
users_after h (got i) j = one_at i j + h j
users_after h full j = h j
users_after h exhausted j = h j

abbrev pub is_full : Acquired → Bool
is_full full = true
is_full _ = false

module _ {ℓ} {A : Type ℓ} where
  -- each object has as many references as `h` says
  unfoldable pub Counted : (ℕ → ℕ) → List (Item A) → Type 0
  Counted h os = (j : ℕ) → refs_at os j ≡ h j

  refs_at_live : (os : List (Item A)) (i : ℕ) → refs_at os i ≢ 0 → i < length os
  unfolding refs_at
  refs_at_live [] i live = absurd (live refl)
  refs_at_live (o ∷ os) zero live = omega arith
  refs_at_live (o ∷ os) (suc i) live = omega (arith, refs_at_live os i live)

  refs_at-set :
      (os : List (Item A)) (i : ℕ) (o : Item A) (j : ℕ)
      → i < length os
      → refs_at (set os i o) j ≡ (if i == j then o.refs else refs_at os j)
  unfolding refs_at
  refs_at-set [] i o j lt = absurd (omega arith)
  refs_at-set (x ∷ os) zero o zero lt = refl
  refs_at-set (x ∷ os) zero o (suc j) lt = ground arith
  refs_at-set (x ∷ os) (suc i) o zero lt = ground arith
  refs_at-set (x ∷ os) (suc i) o (suc j) lt = refs_at-set os i o j (omega arith) ∙ ground arith

  refs_at-with_refs :
      (os : List (Item A)) (i n j : ℕ)
      → i < length os
      → refs_at (with_refs os i n) j ≡ (if i == j then n else refs_at os j)
  unfolding refs_at with_refs
  refs_at-with_refs [] i n j lt = absurd (omega arith)
  refs_at-with_refs (x ∷ os) zero n zero lt = refl
  refs_at-with_refs (x ∷ os) zero n (suc j) lt = ground arith
  refs_at-with_refs (x ∷ os) (suc i) n zero lt = ground arith
  refs_at-with_refs (x ∷ os) (suc i) n (suc j) lt =
      refs_at-with_refs os i n j (omega arith) ∙ ground arith

  free_item-some :
      (os : List (Item A)) (i k : ℕ)
      → free_item i os ≡ some k
      → (d : ℕ) × (k ≡ i + d) × (d < length os) × (refs_at os d ≡ 0)
  unfolding free_item refs_at
  free_item-some [] i k e = absurd (ground (arith, e))
  free_item-some (o ∷ os) i k e = elim (Bool-cases (o.refs == 0)) [
    | inl f ↦ (0, ground (arith, e, f), omega arith, ground (arith, f))
    | inr f ↦
        let (d, at, lt, unused) = free_item-some os (i + 1) k (ground (arith, e, f)) in
        (suc d, omega (arith, at), omega arith, unused)
  ]

  resource_new-Counted :
      (h : ℕ → ℕ) (v : A) (os : List (Item A))
      → Counted h os
      → Counted (users_after h (resource_new v os).1) (resource_new v os).0
  unfolding resource_new Counted
  resource_new-Counted h v os c = elim (Option-cases (free_item 0 os)) [
    | inl e ↦ rw (e, resource_new) c
    | inr (k, e) ↦
        let (d, at, lt, unused) = free_item-some os 0 k e in
        let is : k ≡ d = omega (arith, at) in
        rw (e, resource_new)
          (rw is (λ j. refs_at-set os d _ j lt ∙ ground (arith, unused, c d, c j)))
  ]

  share-Counted :
      (h : ℕ → ℕ) (os : List (Item A)) (i : ℕ)
      → Counted h os
      → h i ≢ 0
      → h i < u16_max
      → ((share os i).1 ≡ got i) × Counted (users_after h (share os i).1) (share os i).0
  unfolding share Counted
  share-Counted h os i c live room =
      let lt = refs_at_live os i (λ z. live (sym (c i) ∙ z)) in
      let test : (refs_at os i == u16_max) ≡ false = ground (arith, c i, room) in
      rw test (
        refl,
        λ j. refs_at-with_refs os i (inc16 (refs_at os i)) j lt ∙ ground (arith, c i, c j, room),
      )

  pub put-Counted :
      (h : ℕ → ℕ) (blank : A) (os : List (Item A)) (i : ℕ)
      → Counted (λ j. one_at i j + h j) os
      → Counted h (put blank os i)
  unfolding put Counted
  put-Counted h blank os i c =
      let at_i : refs_at os i ≡ 1 + h i = ground (arith, c i) in
      let lt = refs_at_live os i (omega (arith, at_i)) in
      let some_user : (refs_at os i == 0) ≡ false = ground (arith, at_i) in
      elim (Bool-cases (refs_at os i - 1 == 0)) [
        | inl last ↦
            rw (some_user, put)
              (rw last (λ j. refs_at-set os i _ j lt ∙ ground (arith, at_i, c j, last)))
        | inr more ↦
            rw (some_user, put)
              (rw more (λ j. refs_at-with_refs os i _ j lt ∙ ground (arith, at_i, c j)))
      ]

  new_not_full : (v : A) (os : List (Item A)) → is_full (resource_new v os).1 ≡ false
  unfolding resource_new
  new_not_full v os = elim (Option-cases (free_item 0 os)) [
    | inl e ↦ rw (e, resource_new) refl
    | inr (k, e) ↦ rw (e, resource_new) refl
  ]

  pub acquire-Counted :
      (h : ℕ → ℕ) (shared : Bool) (v : A) (os : List (Item A)) (i : ℕ)
      → Counted h os
      → h i ≢ 0
      → h i < u16_max
      → (is_full (acquire shared v os i).1 ≡ false)
        × Counted (users_after h (acquire shared v os i).1) (acquire shared v os i).0
  unfolding acquire
  acquire-Counted h true v os i c live room =
      let (is, counted) = share-Counted h os i c live room in (ap is_full is, counted)
  acquire-Counted h false v os i c live room = (new_not_full v os, resource_new-Counted h v os c)

  pub acquire_shared :
      (h : ℕ → ℕ) (v : A) (os : List (Item A)) (i : ℕ)
      → Counted h os
      → h i < u16_max
      → acquire true v os i ≡ (with_refs os i (inc16 (refs_at os i)), got i)
  unfolding acquire share Counted
  acquire_shared h v os i c room =
      let test : (refs_at os i == u16_max) ≡ false = ground (arith, c i, room) in rw test refl
