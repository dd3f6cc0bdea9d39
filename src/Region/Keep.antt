-- ===== src/Region/Keep.antt =====
-- The calls of src/run/lxp_region.c keep the reference counts.
use lxp.Common.{
  ℕ, ◌+◌, ◌<◌, ◌≡◌, ◌≢◌, refl, sym, ◌∙◌, ap, subst, ◌⊎◌, inl, inr, true, List, [], ◌∷◌, arith, ◌==◌,
  if◌then◌else◌, length, set, get_or-set_self, get_or-set_ne, get_or-set_cases, Bool-cases,
}
use lxp.Region.{RegionRef, Region, no_region, region_at, is_leased, is_current}
use lxp.Region.Held.{same_ref, without_one, holding, AllCurrent, Held}

pub AllCurrent-set :
    (rs : List Region) (r : ℕ) (g : Region) (hs : List RegionRef)
    → (g.generation ≡ (region_at rs r).generation) ⊎ (holding r hs ≡ 0)
    → AllCurrent rs hs
    → AllCurrent (set rs r g) hs
unfolding AllCurrent holding
AllCurrent-set rs r g [] e c = c
AllCurrent-set rs r g (h ∷ hs) e (here, c) = (
  elim (get_or-set_cases rs r h.index g no_region) [
    | inl (same, new) ↦ elim e [
      | inl kept ↦
          ap (λ x. x.generation) new ∙ kept ∙ ap (λ z. (region_at rs z).generation) same ∙ here
      | inr nobody ↦ absurd (ground (arith, nobody, same))
    ]
    | inr old ↦ ap (λ x. x.generation) old ∙ here
  ],
  AllCurrent-set rs r g hs
      (elim e [ inl kept ↦ inl kept | inr nobody ↦ inr (ground (arith, nobody)) ]) c,
)

pub refs-set :
    (rs : List Region) (r : ℕ) (g : Region) (j : ℕ)
    → r < length rs
    → (region_at (set rs r g) j).refs ≡ (if r == j then g.refs else (region_at rs j).refs)
refs-set rs r g j lt = elim (Bool-cases (r == j)) [
  | inl e ↦
      let is : r ≡ j = ground (arith, e) in
      rw e (
        subst (λ z. (region_at (set rs r g) z).refs ≡ g.refs) is
          (ap (λ x. x.refs) (get_or-set_self rs r g no_region lt)))
  | inr e ↦ rw e (ap (λ x. x.refs) (get_or-set_ne rs r j g no_region (ground (arith, e))))
]

-- a leased region of a changed table has one reference, if the changed region does
pub leased-set :
    (rs : List Region) (r : ℕ) (g : Region) (j : ℕ)
    → ((j : ℕ) → is_leased (region_at rs j).lease_owner ≡ true → (region_at rs j).refs ≡ 1)
    → (is_leased g.lease_owner ≡ true → g.refs ≡ 1)
    → is_leased (region_at (set rs r g) j).lease_owner ≡ true
    → (region_at (set rs r g) j).refs ≡ 1
leased-set rs r g j old here e = elim (get_or-set_cases rs r j g no_region) [
  | inl (same, new) ↦ ap (λ x. x.refs) new ∙ here (ap (λ x. is_leased x.lease_owner) (sym new) ∙ e)
  | inr kept ↦ ap (λ x. x.refs) kept ∙ old j (ap (λ x. is_leased x.lease_owner) (sym kept) ∙ e)
]

pub holding-without_one :
    (rs : List Region) (ref : RegionRef) (hs : List RegionRef) (j : ℕ)
    → AllCurrent rs hs
    → (region_at rs ref.index).generation ≡ ref.generation
    → holding ref.index hs ≢ 0
    → holding j (without_one ref hs) + (if ref.index == j then 1 else 0) ≡ holding j hs
unfolding AllCurrent holding without_one
holding-without_one rs ref [] j c e some_held = absurd (some_held refl)
holding-without_one rs ref (h ∷ hs) j (here, c) e some_held =
    elim (Bool-cases (h.index == ref.index)) [
      | inl same ↦
          let is : h.index ≡ ref.index = ground (arith, same) in
          let gen : h.generation ≡ ref.generation =
            sym here ∙ ap (λ z. (region_at rs z).generation) is ∙ e in
          ground (arith, is, gen)
      | inr apart ↦ ground (
        arith,
        apart,
        holding-without_one rs ref hs j c e (λ z. some_held (ground (arith, apart, z))),
      )
    ]

pub AllCurrent-without_one :
    (rs : List Region) (ref : RegionRef) (hs : List RegionRef)
    → AllCurrent rs hs
    → AllCurrent rs (without_one ref hs)
unfolding AllCurrent without_one
AllCurrent-without_one rs ref [] c = c
AllCurrent-without_one rs ref (h ∷ hs) (here, c) = elim (Bool-cases (same_ref h ref)) [
  | inl e ↦ rw (e, without_one) c
  | inr e ↦ rw (e, without_one) (here, AllCurrent-without_one rs ref hs c)
]

-- a region is changed, but neither its count nor its generation
pub Held-kept :
    (rs : List Region) (hs : List RegionRef) (r : ℕ) (g : Region)
    → Held rs hs
    → r < length rs
    → g.refs ≡ (region_at rs r).refs
    → g.generation ≡ (region_at rs r).generation
    → (is_leased g.lease_owner ≡ true → g.refs ≡ 1)
    → Held (set rs r g) hs
Held-kept rs hs r g h lt refs gen lease = record {
  counted = λ j. refs-set rs r g j lt ∙ ground (arith, refs, h.counted j, h.counted r);
  current = AllCurrent-set rs r g hs (inl gen) h.current;
  leased = λ j. leased-set rs r g j h.leased lease;
}

-- the region of a reference that is current
pub current_parts :
    (rs : List Region) (ref : RegionRef)
    → is_current rs ref ≡ true
    → (ref.index < length rs)
      × ((region_at rs ref.index).generation ≡ ref.generation)
      × ((region_at rs ref.index).refs ≢ 0)
unfolding is_current
current_parts rs ref e = (ground (arith, e), ground (arith, e), ground (arith, e))
