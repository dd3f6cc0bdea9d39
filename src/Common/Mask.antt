-- ===== src/Common/Mask.antt =====
-- A 64-bit set, as its bits: bit `i` of the word is `m i`. The word's operations act on each bit,
-- so no carry and no width is lost.
use Prim.Native.Nat.{ℕ, zero, suc}
use mathlib.Core.Bool.{Bool, true, false, ◌&&◌, ◌||◌, not}
use mathlib.Core.Path.{◌≡◌}
use native.Mathlib.Omega.{arith}
use Prim.Native.Nat.{◌<◌}
use lxp.Common.Tests.{◌==◌}

abbrev pub Mask : Type 0
Mask = ℕ → Bool

abbrev pub empty : Mask
empty i = false

-- `1 << i`
abbrev pub bit : ℕ → Mask
bit i j = j == i

abbrev pub union : Mask → Mask → Mask
union a b i = a i || b i

-- `a & ~b`
abbrev pub without : Mask → Mask → Mask
without a b i = a i && not (b i)

-- `m == 0`, by its `n` lowest bits
unfoldable pub is_zero_below : ℕ → Mask → Bool
is_zero_below zero m = true
is_zero_below (suc n) m = not (m n) && is_zero_below n m

abbrev pub is_zero : Mask → Bool
is_zero = is_zero_below 64

pub is_zero_below_lem : (n : ℕ) (m : Mask) (i : ℕ) → is_zero_below n m ≡ true → i < n → m i ≡ false
unfolding is_zero_below
is_zero_below_lem zero m i h lt = absurd (omega arith)
is_zero_below_lem (suc n) m i h lt = ground (arith, is_zero_below_lem n m i)
