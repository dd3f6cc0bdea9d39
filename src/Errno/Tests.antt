-- ===== src/Errno/Tests.antt =====
-- Witnesses for the translations of src/lxp_errno.c.
use lxp.Common.{◌≡◌, refl}
use lxp.Common.Int.{negsuc}
use lxp.Errno.Translate.{errno_from_err}

busy_is_ebusy : errno_from_err (negsuc 29) ≡ negsuc 15
unfolding errno_from_err
busy_is_ebusy = refl
