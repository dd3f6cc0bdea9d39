-- ===== src/Region/Held.antt =====
-- Who holds the references that src/run/lxp_region.c has handed out.
use lxp.Common.{
  ℕ, ◌+◌, ◌≡◌, Bool, true, Option, none, some, List, [], ◌∷◌, ◌==◌, ◌&&◌, if◌then◌else◌,
}
use lxp.Region.{
  SlotRef, RegionRef, Region, Slot, region_at, is_leased, reserve, commit, get, put,
  release_if_owned, lease_reassign,
}

-- What tasks do with regions.
pub data Action : Type 0 where
  reserves : ℕ → Option SlotRef → Action
  commits : RegionRef → Option SlotRef → Action
  gets puts : RegionRef → Action
  releases : RegionRef → Option SlotRef → Action
  reassigns : RegionRef → Option SlotRef → Option SlotRef → Action

abbrev pub same_ref : RegionRef → RegionRef → Bool
same_ref a b = a.index == b.index && a.generation == b.generation

-- one reference less of those held
unfoldable pub without_one : RegionRef → List RegionRef → List RegionRef
without_one ref [] = []
without_one ref (h ∷ hs) = let rest = without_one ref hs in if same_ref h ref then hs else h ∷ rest

abbrev pub State : Type 0
State = List Region × List RegionRef

abbrev pub taken : List RegionRef → List Region × Option RegionRef → State
taken hs (rs, none) = (rs, hs)
taken hs (rs, some ref) = (rs, ref ∷ hs)

abbrev pub shared : RegionRef → List RegionRef → List Region × Bool → State
shared ref hs (rs, answer) = (rs, if answer then ref ∷ hs else hs)

abbrev pub given_up : RegionRef → List RegionRef → List Region × Bool → State
given_up ref hs (rs, answer) = (rs, if answer then without_one ref hs else hs)

-- the regions and the references held after an action
unfoldable pub act : List Slot → State → Action → State
act slots (rs, hs) (reserves r owner) = taken hs (reserve slots rs r owner)
act slots (rs, hs) (commits ref owner) = ((commit rs ref owner).0, hs)
act slots (rs, hs) (gets ref) = shared ref hs (get slots rs ref)
act slots (rs, hs) (puts ref) = given_up ref hs (put rs ref)
act slots (rs, hs) (releases ref owner) = given_up ref hs (release_if_owned rs ref owner)
act slots (rs, hs) (reassigns ref old new) = ((lease_reassign rs ref old new).0, hs)

unfoldable pub run : List Slot → State → List Action → State
unfolding act
run slots s [] = s
run slots s (a ∷ rest) = run slots (act slots s a) rest

-- how many references to the region `r` are held
unfoldable pub holding : ℕ → List RegionRef → ℕ
holding r [] = 0
holding r (h ∷ hs) = (if h.index == r then 1 else 0) + holding r hs

-- every reference held is of the region's generation
unfoldable pub AllCurrent : List Region → List RegionRef → Type 0
AllCurrent rs [] = Unit
AllCurrent rs (h ∷ hs) = ((region_at rs h.index).generation ≡ h.generation) × AllCurrent rs hs

-- Each region has as many references as are held, all of its generation, and a leased one has one.
pub record Held (rs : List Region) (hs : List RegionRef) : Type 0 where
  pub counted : (r : ℕ) → (region_at rs r).refs ≡ holding r hs
  pub current : AllCurrent rs hs
  pub leased : (r : ℕ) → is_leased (region_at rs r).lease_owner ≡ true → (region_at rs r).refs ≡ 1
