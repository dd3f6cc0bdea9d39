-- ===== src/Region.antt =====
-- src/run/lxp_region.c: the references to program regions and their leases. A reference is `none`
-- where its index is negative, and LXP_NREG is the length of the table. Of a slot, the table of slots
-- has what is read here: its generation, whether it is alive and the region of its address space.
-- LXP_NSLOT is the length of that table. The answer true is 0, and false is -1. The copies of the vfork
-- snapshots are not modelled here.
mod Held
mod Keep
mod Run
mod Stale
mod Tests
use lxp.Common.{
  ℕ, zero, suc, ◌+◌, ◌-◌, ◌%◌, ◌^◌, Bool, true, false, Option, none, some, List, [], ◌∷◌, map, ltb,
  leb, ◌==◌, ◌&&◌, ◌||◌, not, if◌then◌else◌, length, get_or, set,
}

-- lxp_slot_ref_t and lxp_region_ref_t
pub record SlotRef : Type 0 where
  pub index : ℕ
  pub generation : ℕ

pub record RegionRef : Type 0 where
  pub index : ℕ
  pub generation : ℕ

-- struct lxp_region_runtime
pub record Region : Type 0 where
  pub lease_owner : Option SlotRef
  pub refs : ℕ
  pub generation : ℕ

pub record Slot : Type 0 where
  pub generation : ℕ
  pub alive : Bool
  pub region : Option RegionRef

abbrev pub no_region : Region
no_region = record { lease_owner = none; refs = 0; generation = 0 }

abbrev pub region_at : List Region → ℕ → Region
region_at rs r = get_or rs r no_region

-- lxp_slot_ref_equal
abbrev pub same_owner : Option SlotRef → Option SlotRef → Bool
same_owner none none = true
same_owner (some a) (some b) = a.index == b.index && a.generation == b.generation
same_owner _ _ = false

abbrev pub is_leased : Option SlotRef → Bool
is_leased none = false
is_leased (some o) = true

-- lxp_slot_ref_at of a slot of the table
abbrev pub slot_ref_at : List Slot → ℕ → SlotRef
slot_ref_at slots i = record {
  index = i;
  generation =
      (get_or slots i (record { generation = 0; alive = false; region = none })).generation;
}

abbrev pub uses : ℕ → Slot → Bool
uses r s = s.alive && (elim s.region [ none ↦ false | some ref ↦ ref.index == r ])

-- lxp_region_live_users
unfoldable pub live_users : ℕ → List Slot → ℕ
live_users r [] = 0
live_users r (s ∷ ss) = (if uses r s then 1 else 0) + live_users r ss

-- lxp_region_free
unfoldable pub free : List Slot → List Region → ℕ → Bool
unfolding live_users
free slots rs r =
    if leb (length rs) r
      || is_leased (region_at rs r).lease_owner
      || not ((region_at rs r).refs == 0)
    then false
    else live_users r slots == 0

-- region_generation_next of a 32-bit generation, which skips 0
abbrev pub generation_next : ℕ → ℕ
generation_next g = let next = (g + 1) % 2 ^ 32 in if next == 0 then 1 else next

-- lxp_region_ref_at
unfoldable pub ref_at : List Region → ℕ → Option RegionRef
ref_at rs r =
    if ltb r (length rs) && not ((region_at rs r).refs == 0)
    then some (record { index = r; generation = (region_at rs r).generation })
    else none

-- the guards of `lxp_region_reserve` on the owner
abbrev pub is_owner : List Slot → Option SlotRef → Bool
is_owner slots none = false
is_owner slots (some o) =
    ltb o.index (length slots)
    && not (o.generation == 0)
    && same_owner (some o) (some (slot_ref_at slots o.index))

-- lxp_region_reserve
unfoldable pub reserve :
    List Slot → List Region → ℕ → Option SlotRef → List Region × Option RegionRef
reserve slots rs r owner =
    let g = generation_next (region_at rs r).generation in
    if leb (length rs) r || not (is_owner slots owner) || not ((region_at rs r).refs == 0)
    then (rs, none)
    else (
      set rs r (record { lease_owner = owner; refs = 1; generation = g }),
      some (record { index = r; generation = g }),
    )

-- the guards that commit, get and put share: the reference is to a region in use, of its generation
unfoldable pub is_current : List Region → RegionRef → Bool
is_current rs ref =
    ltb ref.index (length rs)
    && not (ref.generation == 0)
    && (region_at rs ref.index).generation == ref.generation
    && not ((region_at rs ref.index).refs == 0)

-- lxp_region_commit_address_space
unfoldable pub commit : List Region → RegionRef → Option SlotRef → List Region × Bool
unfolding is_current
commit rs ref owner =
    let g = region_at rs ref.index in
    if is_current rs ref && same_owner g.lease_owner owner
    then (set rs ref.index (record g { lease_owner = none }), true)
    else (rs, false)

-- lxp_region_get
unfoldable pub get : List Slot → List Region → RegionRef → List Region × Bool
unfolding is_current
get slots rs ref =
    let g = region_at rs ref.index in
    if is_current rs ref && not (is_leased g.lease_owner) && ltb g.refs (length slots)
    then (set rs ref.index (record g { refs = g.refs + 1 }), true)
    else (rs, false)

-- the region once a reference is given up
abbrev pub released : Region → Region
released g =
    if g.refs - 1 == 0
    then record { lease_owner = none; refs = 0; generation = generation_next g.generation }
    else record g { refs = g.refs - 1 }

-- lxp_region_put
unfoldable pub put : List Region → RegionRef → List Region × Bool
unfolding is_current
put rs ref =
    if is_current rs ref
    then (set rs ref.index (released (region_at rs ref.index)), true)
    else (rs, false)

-- lxp_region_release_if_owned
unfoldable pub release_if_owned : List Region → RegionRef → Option SlotRef → List Region × Bool
unfolding put
release_if_owned rs ref owner =
    let g = region_at rs ref.index in
    if leb (length rs) ref.index
      || not (same_owner g.lease_owner owner)
      || not (g.refs == 1)
      || not (g.generation == ref.generation)
    then (rs, false)
    else put rs ref

-- lxp_region_lease_matches
unfoldable pub lease_matches : List Region → RegionRef → Option SlotRef → ℕ → Bool
lease_matches rs ref owner refs =
    let g = region_at rs ref.index in
    ltb ref.index (length rs)
    && not (ref.generation == 0)
    && g.generation == ref.generation
    && g.refs == refs
    && same_owner g.lease_owner owner

-- lxp_region_lease_reassign
unfoldable pub lease_reassign :
    List Region → RegionRef → Option SlotRef → Option SlotRef → List Region × Bool
unfolding lease_matches
lease_reassign rs ref old_owner new_owner =
    if lease_matches rs ref old_owner 1
    then (set rs ref.index (record (region_at rs ref.index) { lease_owner = new_owner }), true)
    else (rs, false)

-- the loop of `lxp_region_runtime_reset` over the regions
abbrev pub cleared : Region → Region
cleared g = record g { refs = 0; lease_owner = none }

abbrev pub runtime_reset : List Region → List Region
runtime_reset = map cleared
