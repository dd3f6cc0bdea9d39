-- ===== src/Guest.antt =====
-- src/lxp_guest.c: which addresses a task may use, and the copy of a string from guest memory. An
-- address is a 32-bit word. The device windows of LXP_ENABLE_DEV are a list, empty without it, and the
-- bounds that `lxp_rootfs_bounds` answers are an argument.
mod Range
mod Strings
mod Tests
use lxp.Common.{
  ℕ, zero, suc, ◌+◌, ◌-◌, ◌/◌, ◌%◌, ◌^◌, Bool, true, false, Option, none, some, List, [], ◌∷◌, ltb,
  leb, ◌==◌, ◌&&◌, ◌||◌, not, if◌then◌else◌, Result, ok, err,
}
use lxp.Common.Bytes.{Memory}
use lxp.Errno.{e2big, efault}

-- a window of addresses, from `lo` to before `hi`
pub record Window : Type 0 where
  pub lo : ℕ
  pub hi : ℕ

-- the ranges of lxp_mm_t
pub record Mm : Type 0 where
  pub region : Window
  pub pool : Window
  pub dev_map : List Window

abbrev pub guest_read : ℕ
guest_read = 1

abbrev pub guest_write : ℕ
guest_write = 2

-- `access & LXP_GUEST_WRITE` and `access & ~LXP_GUEST_READ_WRITE`
abbrev pub writes : ℕ → Bool
writes access = access / 2 % 2 == 1

abbrev pub holds : Window → ℕ → Bool
holds w address = leb w.lo address && ltb address w.hi

-- the loop over `dev_map_lo` and `dev_map_hi`
unfoldable pub device_hi : List Window → ℕ → ℕ
device_hi [] address = 0
device_hi (w ∷ ws) address =
    let rest = device_hi ws address in if ltb w.lo w.hi && holds w address then w.hi else rest

-- guest_range_hi
unfoldable pub guest_range_hi : Mm → Window → ℕ → ℕ → ℕ
guest_range_hi mm rootfs address access =
    let device = device_hi mm.dev_map address in
    if holds mm.region address
    then mm.region.hi
    else if ltb mm.pool.lo mm.pool.hi && holds mm.pool address
    then mm.pool.hi
    else if not (device == 0)
    then device
    else if not (writes access) && ltb rootfs.lo rootfs.hi && holds rootfs address
    then rootfs.hi
    else 0

-- lxp_guest_range_ok
unfoldable pub guest_range_ok : Mm → Window → ℕ → ℕ → ℕ → Bool
guest_range_ok mm rootfs address length access =
    let last = (address + length) % 2 ^ 32 in
    let hi = guest_range_hi mm rootfs address access in
    if leb 4 access || access == 0
    then false
    else if length == 0
    then true
    else if ltb last address
    then false
    else not (hi == 0) && leb last hi

abbrev pub append_byte : ℕ → Result (List ℕ) → Result (List ℕ)
append_byte c (ok s) = ok (c ∷ s)
append_byte c (err e) = err e

-- lxp_copy_string_from_guest: the bytes before the closing zero. `readable` is
-- `lxp_guest_access_ok` of one byte.
unfoldable pub copy_string_from_guest : (ℕ → Bool) → Memory → ℕ → ℕ → Result (List ℕ)
copy_string_from_guest readable m zero src = err e2big
copy_string_from_guest readable m (suc capacity) src =
    let rest = copy_string_from_guest readable m capacity ((src + 1) % 2 ^ 32) in
    if not (readable src)
    then err efault
    else if m src == 0
    then ok []
    else append_byte (m src) rest
