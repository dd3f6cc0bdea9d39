-- ===== src/Guest/Range.antt =====
-- What src/lxp_guest.c lets a task use lies in one of its windows.
use lxp.Common.{
  ℕ, suc, ◌+◌, ◌^◌, ◌≤◌, ◌<◌, ◌≡◌, ◌≢◌, refl, inl, inr, true, false, List, [], ◌∷◌, arith, ltb,
  ◌==◌, ◌&&◌, Bool-cases, length, get_or,
}
use lxp.Guest.{Window, Mm, writes, holds, device_hi, guest_range_hi, guest_range_ok}

-- The windows that a task may use for an access.
pub data Allowed (mm : Mm) (rootfs : Window) (access : ℕ) (w : Window) : Type 0 where
  in_region : w ≡ mm.region → Allowed mm rootfs access w
  in_pool : w ≡ mm.pool → Allowed mm rootfs access w
  in_device :
      (i : ℕ) → i < length mm.dev_map → w ≡ get_or mm.dev_map i w → Allowed mm rootfs access w
  in_rootfs : writes access ≡ false → w ≡ rootfs → Allowed mm rootfs access w

device_hi_lem :
    (ws : List Window) (address : ℕ)
    → device_hi ws address ≢ 0
    → (w : Window) × (i : ℕ) × (i < length ws)
      × (w ≡ get_or ws i w)
      × (holds w address ≡ true)
      × (device_hi ws address ≡ w.hi)
unfolding device_hi
device_hi_lem [] address ne = absurd (ne refl)
device_hi_lem (w ∷ ws) address ne = elim (Bool-cases (ltb w.lo w.hi && holds w address)) [
  | inl e ↦ (w, 0, omega arith, refl, ground (arith, e), rw e refl)
  | inr e ↦
      let (v, i, lt, at, h, hi) = device_hi_lem ws address (λ z. ne (rw e z)) in
      (v, suc i, omega arith, at, h, rw e hi)
]

guest_range_hi_lem :
    (mm : Mm) (rootfs : Window) (address access : ℕ)
    → guest_range_hi mm rootfs address access ≢ 0
    → (w : Window) × Allowed mm rootfs access w
      × (holds w address ≡ true)
      × (guest_range_hi mm rootfs address access ≡ w.hi)
unfolding guest_range_hi
guest_range_hi_lem mm rootfs address access ne = elim (Bool-cases (holds mm.region address)) [
  | inl a ↦ (mm.region, Allowed.in_region refl, a, rw a refl)
  | inr a ↦ elim (Bool-cases (ltb mm.pool.lo mm.pool.hi && holds mm.pool address)) [
    | inl b ↦ (mm.pool, Allowed.in_pool refl, ground (arith, b), rw a (rw b refl))
    | inr b ↦ elim (Bool-cases (device_hi mm.dev_map address == 0)) [
      | inr c ↦
          let (w, i, lt, at, h, hi) = device_hi_lem mm.dev_map address (ground (arith, c)) in
          (w, Allowed.in_device i lt at, h, rw a (rw b (rw c hi)))
      | inl c ↦ elim (Bool-cases (writes access)) [
        | inl d ↦ absurd (ne (rw a (rw b (rw c (rw d refl)))))
        | inr d ↦ elim (Bool-cases (ltb rootfs.lo rootfs.hi && holds rootfs address)) [
          | inl f ↦ (
            rootfs,
            Allowed.in_rootfs d refl,
            ground (arith, f),
            rw a (rw b (rw c (rw d (rw f refl)))),
          )
          | inr f ↦ absurd (ne (rw a (rw b (rw c (rw d (rw f refl))))))
        ]
      ]
    ]
  ]
]

-- When `lxp_guest_range_ok` accepts a range of one byte or more, the whole of it lies in one window:
-- the task's region, its pool, a device window or, if the access does not write, the root image; and
-- the range does not wrap around.
pub guest_range_ok-Allowed :
    (mm : Mm) (rootfs : Window) (address size access : ℕ)
    → guest_range_ok mm rootfs address size access ≡ true
    → 0 < size
    → address < 2 ^ 32
    → size < 2 ^ 32
    → (w : Window) × Allowed mm rootfs access w × (w.lo ≤ address) × (address + size ≤ w.hi)
unfolding guest_range_ok
guest_range_ok-Allowed mm rootfs address size access e some_bytes fits small =
    let (w, allowed, h, hi) =
      guest_range_hi_lem mm rootfs address access (λ z. ground (arith, e, z)) in
    (w, allowed, ground (arith, h), ground (arith, e, hi))
