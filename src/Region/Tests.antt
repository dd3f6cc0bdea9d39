-- ===== src/Region/Tests.antt =====
-- Witnesses and runs of src/run/lxp_region.c: two regions and two slots.
use lxp.Common.{ℕ, zero, suc, ◌≡◌, refl, arith, true, false, Option, none, some, List, [], ◌∷◌}
use lxp.Region.{
  SlotRef, RegionRef, Region, Slot, region_at, is_leased, free, reserve, is_current, commit, get,
  put,
}
use lxp.Region.Held.{
  Action, reserves, commits, gets, puts, without_one, act, run, holding, AllCurrent, Held,
}
use lxp.Region.Run.{run-Held}
use lxp.Region.Stale.{last_put_final}

abbrev slot : Slot
slot = record { generation = 1; alive = true; region = none }

abbrev slots : List Slot
slots = slot ∷ slot ∷ []

abbrev owner : Option SlotRef
owner = some (record { index = 0; generation = 1 })

abbrev unused : Region
unused = record { lease_owner = none; refs = 0; generation = 0 }

abbrev regions : List Region
regions = unused ∷ unused ∷ []

regions_counted : (r : ℕ) → (region_at regions r).refs ≡ holding r []
unfolding holding
regions_counted zero = refl
regions_counted (suc zero) = refl
regions_counted (suc (suc r)) = refl

regions_leased :
    (r : ℕ) → is_leased (region_at regions r).lease_owner ≡ true → (region_at regions r).refs ≡ 1
regions_leased zero e = absurd (ground (arith, e))
regions_leased (suc zero) e = absurd (ground (arith, e))
regions_leased (suc (suc r)) e = absurd (ground (arith, e))

regions-Held : Held regions []
unfolding AllCurrent
regions-Held = record { counted = regions_counted; current = tt; leased = regions_leased }

abbrev first : RegionRef
first = record { index = 0; generation = 1 }

-- reserve a region, commit it, share it and give one reference up
abbrev acts : List Action
acts = reserves 0 owner ∷ commits first owner ∷ gets first ∷ puts first ∷ []

run-Held_example : (let (rs, hs) = run slots (regions, []) acts in Held rs hs)
run-Held_example = run-Held slots regions [] acts regions-Held

one_left : (run slots (regions, []) acts).1 ≡ first ∷ []
unfolding run act reserve commit is_current get put without_one
one_left = refl

-- the region 0 in use, with the generation 1
abbrev in_use : List Region
in_use = record { lease_owner = none; refs = 1; generation = 1 } ∷ unused ∷ []

first-is_current : is_current in_use first ≡ true
unfolding is_current
first-is_current = refl

last_put_final_example :
    let rs = (run slots ((put in_use first).0, []) acts).0 in
    (get slots rs first ≡ (rs, false))
    × (put rs first ≡ (rs, false))
    × ((o : Option SlotRef) → commit rs first o ≡ (rs, false))
last_put_final_example =
    last_put_final slots in_use [] first acts first-is_current refl (omega arith)

-- a region in use is not free
not_free : free slots in_use 0 ≡ false
unfolding free
not_free = refl
