-- ===== src/Region/Run.antt =====
-- Any sequence of the calls of src/run/lxp_region.c keeps the reference counts.
use lxp.Common.{
  ℕ, ◌+◌, ◌-◌, ◌<◌, ◌≡◌, ◌≢◌, refl, sym, ◌∙◌, ap, inl, inr, Option, none, List, [], ◌∷◌, arith, ltb,
  leb, ◌==◌, ◌&&◌, ◌||◌, not, length, set, get_or-set_self, Bool-cases,
}
use lxp.Region.{
  SlotRef, RegionRef, Region, Slot, no_region, region_at, is_leased, is_owner, same_owner,
  generation_next, reserve, is_current, commit, get, released, put, release_if_owned, lease_matches,
  lease_reassign,
}
use lxp.Region.Held.{
  Action, reserves, commits, gets, puts, releases, reassigns, without_one, taken, shared, given_up,
  act, run, holding, AllCurrent, Held,
}
use lxp.Region.Keep.{
  AllCurrent-set, refs-set, leased-set, holding-without_one, AllCurrent-without_one, Held-kept,
  current_parts,
}

set_there : (rs : List Region) (r : ℕ) (g : Region) → r < length rs → region_at (set rs r g) r ≡ g
set_there rs r g lt = get_or-set_self rs r g no_region lt

reserve-Held :
    (slots : List Slot) (rs : List Region) (hs : List RegionRef) (r : ℕ) (owner : Option SlotRef)
    → Held rs hs
    → (let (rs', hs') = taken hs (reserve slots rs r owner) in Held rs' hs')
unfolding reserve holding AllCurrent
reserve-Held slots rs hs r owner h =
    elim (Bool-cases
      (leb (length rs) r || not (is_owner slots owner) || not ((region_at rs r).refs == 0))) [
        | inl e ↦ rw e h
        | inr e ↦
            let lt : r < length rs = ground (arith, e) in
            let unused : (region_at rs r).refs ≡ 0 = ground (arith, e) in
            let g : Region = record {
              lease_owner = owner;
              refs = 1;
              generation = generation_next (region_at rs r).generation;
            } in
            rw e (record {
              counted =
                  λ j. refs-set rs r g j lt ∙ ground (arith, unused, h.counted r, h.counted j);
              current = (
                ap (λ x. x.generation) (set_there rs r g lt),
                AllCurrent-set rs r g hs (inr (sym (h.counted r) ∙ unused)) h.current,
              );
              leased = λ j. leased-set rs r g j h.leased (λ z. refl);
            })
      ]

commit-Held :
    (rs : List Region) (hs : List RegionRef) (ref : RegionRef) (owner : Option SlotRef)
    → Held rs hs
    → Held (commit rs ref owner).0 hs
unfolding commit
commit-Held rs hs ref owner h =
    elim (Bool-cases (is_current rs ref && same_owner (region_at rs ref.index).lease_owner owner)) [
      | inl e ↦
          let (lt, gen, live) = current_parts rs ref (ground (arith, e)) in
          rw (e, commit)
            (Held-kept rs hs ref.index (record (region_at rs ref.index) { lease_owner = none }) h lt
              refl refl (λ z. absurd (ground (arith, z))))
      | inr e ↦ rw (e, commit) h
    ]

get-Held :
    (slots : List Slot) (rs : List Region) (hs : List RegionRef) (ref : RegionRef)
    → Held rs hs
    → (let (rs', hs') = shared ref hs (get slots rs ref) in Held rs' hs')
unfolding get holding AllCurrent
get-Held slots rs hs ref h =
    let g = region_at rs ref.index in
    elim (Bool-cases
      (is_current rs ref && not (is_leased g.lease_owner) && ltb g.refs (length slots))) [
        | inl e ↦
            let (lt, gen, live) = current_parts rs ref (ground (arith, e)) in
            let more : Region = record g { refs = g.refs + 1 } in
            rw (e, get)
              (record {
                counted = λ j.
                    refs-set rs ref.index more j lt
                    ∙ ground (arith, h.counted ref.index, h.counted j);
                current = (
                  ap (λ x. x.generation) (set_there rs ref.index more lt) ∙ gen,
                  AllCurrent-set rs ref.index more hs (inl refl) h.current,
                );
                leased = λ j.
                    leased-set rs ref.index more j h.leased (λ z. absurd (ground (arith, e, z)));
              })
        | inr e ↦ rw (e, get) h
      ]

released-refs : (g : Region) → (released g).refs ≡ g.refs - 1
released-refs g = ground arith

put-Held :
    (rs : List Region) (hs : List RegionRef) (ref : RegionRef)
    → Held rs hs
    → (let (rs', hs') = given_up ref hs (put rs ref) in Held rs' hs')
unfolding put
put-Held rs hs ref h = elim (Bool-cases (is_current rs ref)) [
  | inr e ↦ rw (e, put) h
  | inl e ↦
      let (lt, gen, live) = current_parts rs ref e in
      let g = region_at rs ref.index in
      let some_held : holding ref.index hs ≢ 0 = λ z. live (h.counted ref.index ∙ z) in
      let left = λ (j : ℕ). holding-without_one rs ref hs j h.current gen some_held in
      rw (e, put)
        (record {
          counted = λ j.
              refs-set rs ref.index (released g) j lt
              ∙ ground (arith, released-refs g, left j, h.counted ref.index, h.counted j);
          current =
              AllCurrent-set rs ref.index (released g) (without_one ref hs)
                (elim (Bool-cases (g.refs - 1 == 0)) [
                  | inl last ↦ inr (ground (arith, last, left ref.index, h.counted ref.index))
                  | inr more ↦ inl (ground (arith, more))
                ])
                (AllCurrent-without_one rs ref hs h.current);
          leased = λ j.
              leased-set rs ref.index (released g) j h.leased
                (λ z. absurd (ground (arith, z, h.leased ref.index, live)));
        })
]

release-Held :
    (rs : List Region) (hs : List RegionRef) (ref : RegionRef) (owner : Option SlotRef)
    → Held rs hs
    → (let (rs', hs') = given_up ref hs (release_if_owned rs ref owner) in Held rs' hs')
unfolding release_if_owned
release-Held rs hs ref owner h =
    let g = region_at rs ref.index in
    elim (Bool-cases (
      leb (length rs) ref.index
      || not (same_owner g.lease_owner owner)
      || not (g.refs == 1)
      || not (g.generation == ref.generation))) [
        | inl e ↦ rw (e, release_if_owned) h
        | inr e ↦ rw (e, release_if_owned) (put-Held rs hs ref h)
      ]

reassign-Held :
    (rs : List Region) (hs : List RegionRef) (ref : RegionRef) (old new : Option SlotRef)
    → Held rs hs
    → Held (lease_reassign rs ref old new).0 hs
unfolding lease_reassign lease_matches
reassign-Held rs hs ref old new h = elim (Bool-cases (lease_matches rs ref old 1)) [
  | inl e ↦
      rw (e, lease_reassign)
        (Held-kept rs hs ref.index (record (region_at rs ref.index) { lease_owner = new }) h
          (ground (arith, e)) refl refl (λ z. ground (arith, e)))
  | inr e ↦ rw (e, lease_reassign) h
]

act-Held :
    (slots : List Slot) (rs : List Region) (hs : List RegionRef) (a : Action)
    → Held rs hs
    → (let (rs', hs') = act slots (rs, hs) a in Held rs' hs')
unfolding act
act-Held slots rs hs (reserves r owner) h = reserve-Held slots rs hs r owner h
act-Held slots rs hs (commits ref owner) h = commit-Held rs hs ref owner h
act-Held slots rs hs (gets ref) h = get-Held slots rs hs ref h
act-Held slots rs hs (puts ref) h = put-Held rs hs ref h
act-Held slots rs hs (releases ref owner) h = release-Held rs hs ref owner h
act-Held slots rs hs (reassigns ref old new) h = reassign-Held rs hs ref old new h

-- Whatever is reserved, committed, shared, given up and passed on, with references right or wrong:
-- every region has as many references as were handed out and not given up, all of the region's
-- generation, and a region under a lease has one.
pub run-Held :
    (slots : List Slot) (rs : List Region) (hs : List RegionRef) (acts : List Action)
    → Held rs hs
    → (let (rs', hs') = run slots (rs, hs) acts in Held rs' hs')
unfolding run
run-Held slots rs hs [] h = h
run-Held slots rs hs (a ∷ acts) h =
    run-Held slots (act slots (rs, hs) a).0 (act slots (rs, hs) a).1 acts (act-Held slots rs hs a h)
