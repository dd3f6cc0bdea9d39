-- ===== src/Region/Stale.antt =====
-- A reference of src/run/lxp_region.c that was given up as the last of its region stays refused.
use lxp.Common.{
  ℕ, ◌+◌, ◌-◌, ◌^◌, ◌≤◌, ◌<◌, ◌≡◌, refl, sym, ◌∙◌, ap, subst, ◌⊎◌, inl, inr, true, false, Option,
  none, some, List, [], ◌∷◌, arith, ltb, leb, ◌==◌, ◌&&◌, ◌||◌, not, length, set, get_or-set_cases,
  get_or-set_self, Bool-cases,
}
use lxp.Region.{
  SlotRef, RegionRef, Region, Slot, no_region, region_at, is_leased, is_owner, same_owner,
  generation_next, reserve, is_current, commit, get, released, put, release_if_owned, lease_matches,
  lease_reassign,
}
use lxp.Region.Held.{Action, reserves, commits, gets, puts, releases, reassigns, taken, act, run}
use lxp.Region.Keep.{current_parts}

-- The generations of the regions are as they were or one more, while they do not wrap.
pub Grown : List Region → List Region → Type 0
Grown rs rs' =
    (j : ℕ)
    → (region_at rs j).generation + 1 < 2 ^ 32
    → ((region_at rs j).generation ≤ (region_at rs' j).generation)
      × ((region_at rs' j).generation ≤ (region_at rs j).generation + 1)

Grown-same : (rs : List Region) → Grown rs rs
unfolding Grown
Grown-same rs j small = (omega arith, omega arith)

Grown-set :
    (rs : List Region) (r : ℕ) (g : Region)
    → (g.generation ≡ (region_at rs r).generation)
      ⊎ (g.generation ≡ generation_next (region_at rs r).generation)
    → Grown rs (set rs r g)
unfolding Grown
Grown-set rs r g e j small = elim (get_or-set_cases rs r j g no_region) [
  | inr old ↦ let same = ap (λ x. x.generation) old in (omega (arith, same), omega (arith, same))
  | inl (here, new) ↦
      let is = ap (λ x. x.generation) new in
      let at_r = ap (λ z. (region_at rs z).generation) here in
      elim e [
        | inl kept ↦ (omega (arith, is, kept, at_r), omega (arith, is, kept, at_r))
        | inr next ↦
            let step : generation_next (region_at rs r).generation
                ≡ (region_at rs r).generation + 1 =
              ground (arith, at_r, small) in
            (omega (arith, is, next, step, at_r), omega (arith, is, next, step, at_r))
      ]
]

put-Grown : (rs : List Region) (ref : RegionRef) → Grown rs (put rs ref).0
unfolding put
put-Grown rs ref = elim (Bool-cases (is_current rs ref)) [
  | inr e ↦ rw (e, put) (Grown-same rs)
  | inl e ↦
      rw (e, put)
        (Grown-set rs ref.index (released (region_at rs ref.index))
          (elim (Bool-cases ((region_at rs ref.index).refs - 1 == 0)) [
            | inl last ↦ inr (ground (arith, last))
            | inr more ↦ inl (ground (arith, more))
          ]))
]

taken_regions : (hs : List RegionRef) (r : List Region × Option RegionRef) → (taken hs r).0 ≡ r.0
taken_regions hs (rs, none) = refl
taken_regions hs (rs, some ref) = refl

reserve-Grown :
    (slots : List Slot) (rs : List Region) (r : ℕ) (owner : Option SlotRef)
    → Grown rs (reserve slots rs r owner).0
unfolding reserve
reserve-Grown slots rs r owner =
    elim (Bool-cases
      (leb (length rs) r || not (is_owner slots owner) || not ((region_at rs r).refs == 0))) [
        | inl e ↦ rw e (Grown-same rs)
        | inr e ↦ rw e (Grown-set rs r _ (inr refl))
      ]

get-Grown : (slots : List Slot) (rs : List Region) (ref : RegionRef) → Grown rs (get slots rs ref).0
unfolding get
get-Grown slots rs ref =
    let g = region_at rs ref.index in
    elim (Bool-cases
      (is_current rs ref && not (is_leased g.lease_owner) && ltb g.refs (length slots))) [
        | inl e ↦ rw (e, get) (Grown-set rs ref.index (record g { refs = g.refs + 1 }) (inl refl))
        | inr e ↦ rw (e, get) (Grown-same rs)
      ]

commit-Grown :
    (rs : List Region) (ref : RegionRef) (owner : Option SlotRef) → Grown rs (commit rs ref owner).0
unfolding commit
commit-Grown rs ref owner =
    let g = region_at rs ref.index in
    elim (Bool-cases (is_current rs ref && same_owner g.lease_owner owner)) [
      | inl e ↦ rw (e, commit) (Grown-set rs ref.index (record g { lease_owner = none }) (inl refl))
      | inr e ↦ rw (e, commit) (Grown-same rs)
    ]

release-Grown :
    (rs : List Region) (ref : RegionRef) (owner : Option SlotRef)
    → Grown rs (release_if_owned rs ref owner).0
unfolding release_if_owned
release-Grown rs ref owner =
    let g = region_at rs ref.index in
    elim (Bool-cases (
      leb (length rs) ref.index
      || not (same_owner g.lease_owner owner)
      || not (g.refs == 1)
      || not (g.generation == ref.generation))) [
        | inl e ↦ rw (e, release_if_owned) (Grown-same rs)
        | inr e ↦ rw (e, release_if_owned) (put-Grown rs ref)
      ]

reassign-Grown :
    (rs : List Region) (ref : RegionRef) (old new : Option SlotRef)
    → Grown rs (lease_reassign rs ref old new).0
unfolding lease_reassign
reassign-Grown rs ref old new = elim (Bool-cases (lease_matches rs ref old 1)) [
  | inl e ↦
      rw (e, lease_reassign)
        (Grown-set rs ref.index (record (region_at rs ref.index) { lease_owner = new }) (inl refl))
  | inr e ↦ rw (e, lease_reassign) (Grown-same rs)
]

act-Grown :
    (slots : List Slot) (rs : List Region) (hs : List RegionRef) (a : Action)
    → Grown rs (act slots (rs, hs) a).0
unfolding act
act-Grown slots rs hs (reserves r owner) =
    subst (Grown rs) (sym (taken_regions hs (reserve slots rs r owner)))
      (reserve-Grown slots rs r owner)
act-Grown slots rs hs (commits ref owner) = commit-Grown rs ref owner
act-Grown slots rs hs (gets ref) = get-Grown slots rs ref
act-Grown slots rs hs (puts ref) = put-Grown rs ref
act-Grown slots rs hs (releases ref owner) = release-Grown rs ref owner
act-Grown slots rs hs (reassigns ref old new) = reassign-Grown rs ref old new

run-grows :
    (slots : List Slot) (rs : List Region) (hs : List RegionRef) (acts : List Action) (j : ℕ)
    → (region_at rs j).generation + length acts < 2 ^ 32
    → (region_at rs j).generation ≤ (region_at (run slots (rs, hs) acts).0 j).generation
unfolding run Grown
run-grows slots rs hs [] j small = omega arith
run-grows slots rs hs (a ∷ acts) j small =
    let (rs', hs') = act slots (rs, hs) a in
    let (up, one) = act-Grown slots rs hs a j (omega (arith, small)) in
    omega (arith, up, run-grows slots rs' hs' acts j (omega (arith, small, one)))

old_refused :
    (rs : List Region) (ref : RegionRef)
    → ref.generation < (region_at rs ref.index).generation
    → is_current rs ref ≡ false
unfolding is_current
old_refused rs ref old = ground (arith, old)

refused :
    (slots : List Slot) (rs : List Region) (ref : RegionRef)
    → is_current rs ref ≡ false
    → (get slots rs ref ≡ (rs, false))
      × (put rs ref ≡ (rs, false))
      × ((owner : Option SlotRef) → commit rs ref owner ≡ (rs, false))
unfolding get put commit
refused slots rs ref e = (rw (e, get) refl, rw (e, put) refl, λ owner. rw (e, commit) refl)

put_last :
    (rs : List Region) (ref : RegionRef)
    → is_current rs ref ≡ true
    → (region_at rs ref.index).refs ≡ 1
    → ref.generation + 1 < 2 ^ 32
    → (region_at (put rs ref).0 ref.index).generation ≡ ref.generation + 1
unfolding put
put_last rs ref cur one small =
    let (lt, gen, live) = current_parts rs ref cur in
    let g = region_at rs ref.index in
    let freed : (released g).generation ≡ generation_next g.generation = ground (arith, one) in
    let next : generation_next g.generation ≡ g.generation + 1 = ground (arith, gen, small) in
    rw (cur, put)
      (ap (λ x. x.generation) (get_or-set_self rs ref.index (released g) no_region lt)
        ∙ freed
        ∙ next
        ∙ ap (λ z. z + 1) gen)

-- Once the last reference to a region is given up, that reference is refused for good, also when the
-- region is reserved again: whatever is called afterwards, it can neither be shared nor given up nor
-- committed, and the attempts change nothing. This is so as long as the calls after it are too few for
-- the region's 32-bit generation to come round.
pub last_put_final :
    (slots : List Slot) (rs : List Region) (hs : List RegionRef) (ref : RegionRef)
    (acts : List Action)
    → is_current rs ref ≡ true
    → (region_at rs ref.index).refs ≡ 1
    → ref.generation + 1 + length acts < 2 ^ 32
    → (let rs' = (run slots ((put rs ref).0, hs) acts).0 in
        (get slots rs' ref ≡ (rs', false))
        × (put rs' ref ≡ (rs', false))
        × ((owner : Option SlotRef) → commit rs' ref owner ≡ (rs', false)))
last_put_final slots rs hs ref acts cur one small =
    let (lt, gen, live) = current_parts rs ref cur in
    let next = put_last rs ref cur one (omega (arith, small)) in
    let later = run-grows slots (put rs ref).0 hs acts ref.index (omega (arith, small, next)) in
    refused slots (run slots ((put rs ref).0, hs) acts).0 ref
      (old_refused (run slots ((put rs ref).0, hs) acts).0 ref (omega (arith, later, next)))
