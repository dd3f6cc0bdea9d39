-- ===== src/Guest/Tests.antt =====
-- Witnesses and runs of src/lxp_guest.c.
use lxp.Common.{◌+◌, ◌≤◌, ◌≡◌, refl, arith, true, false, [], ◌∷◌, ◌==◌, if◌then◌else◌, ok, err}
use lxp.Common.Bytes.{Memory}
use lxp.Errno.{efault}
use lxp.Guest.{
  Window, Mm, guest_write, guest_read, device_hi, guest_range_hi, guest_range_ok,
  copy_string_from_guest,
}
use lxp.Guest.Range.{Allowed, guest_range_ok-Allowed}
use lxp.Guest.Strings.{Stands, copy_string_whole}

abbrev mm : Mm
mm = record {
  region = record { lo = 4096; hi = 8192 };
  pool = record { lo = 16384; hi = 32768 };
  dev_map = record { lo = 65536; hi = 65600 } ∷ [];
}

abbrev rootfs : Window
rootfs = record { lo = 131072; hi = 131200 }

pool_write : guest_range_ok mm rootfs 20000 64 guest_write ≡ true
unfolding guest_range_ok guest_range_hi device_hi
pool_write = refl

rootfs_write : guest_range_ok mm rootfs 131072 4 guest_write ≡ false
unfolding guest_range_ok guest_range_hi device_hi
rootfs_write = refl

past_region : guest_range_ok mm rootfs 8190 4 guest_read ≡ false
unfolding guest_range_ok guest_range_hi device_hi
past_region = refl

guest_range_ok-Allowed_example :
    (w : Window) × Allowed mm rootfs guest_write w × (w.lo ≤ 20000) × (20000 + 64 ≤ w.hi)
guest_range_ok-Allowed_example =
    guest_range_ok-Allowed mm rootfs 20000 64 guest_write pool_write (omega arith) (omega arith)
      (omega arith)

-- the bytes `hi` and a zero at address 100
abbrev memory : Memory
memory k = if k == 100 then 104 else if k == 101 then 105 else 0

memory-Stands : Stands (λ k. true) memory 100 (104 ∷ 105 ∷ [])
unfolding Stands
memory-Stands = (refl, refl, omega arith, (refl, refl, omega arith, (refl, refl)))

copy_string_whole_example : copy_string_from_guest (λ k. true) memory 8 100 ≡ ok (104 ∷ 105 ∷ [])
copy_string_whole_example =
    copy_string_whole (λ k. true) memory (104 ∷ 105 ∷ []) 100 8 memory-Stands (omega arith)
      (omega arith)

unreadable : copy_string_from_guest (λ k. k == 100) memory 8 100 ≡ err efault
unfolding copy_string_from_guest
unreadable = refl
