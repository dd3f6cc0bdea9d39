-- ===== src/Guest/Strings.antt =====
-- `lxp_copy_string_from_guest` of src/lxp_guest.c copies a string that the task may read.
use lxp.Common.{
  ℕ, zero, suc, ◌+◌, ◌%◌, ◌^◌, ◌≤◌, ◌<◌, ◌≡◌, ◌≢◌, refl, ap, Bool, true, List, [], ◌∷◌, arith,
  length, ok, ==_of_ne,
}
use lxp.Common.Bytes.{Memory}
use lxp.Guest.{append_byte, copy_string_from_guest}

-- The bytes `s` and a zero stand at `src`, and the task may read them.
unfoldable pub Stands : (ℕ → Bool) → Memory → ℕ → List ℕ → Type 0
Stands readable m src [] = (readable src ≡ true) × (m src ≡ 0)
Stands readable m src (c ∷ s) =
    (readable src ≡ true) × (m src ≡ c) × (c ≢ 0) × Stands readable m (src + 1) s

copy_last :
    (readable : ℕ → Bool) (m : Memory) (src capacity : ℕ)
    → readable src ≡ true
    → m src ≡ 0
    → copy_string_from_guest readable m (suc capacity) src ≡ ok []
unfolding copy_string_from_guest
copy_last readable m src capacity r z = rw r (rw z refl)

copy_byte :
    (readable : ℕ → Bool) (m : Memory) (src capacity c : ℕ)
    → readable src ≡ true
    → m src ≡ c
    → c ≢ 0
    → src + 1 < 2 ^ 32
    → copy_string_from_guest readable m (suc capacity) src
      ≡ append_byte c (copy_string_from_guest readable m capacity (src + 1))
unfolding copy_string_from_guest
copy_byte readable m src capacity c r e ne lt =
    let next : (src + 1) % 2 ^ 32 ≡ src + 1 = omega arith in
    rw r (rw e (rw (==_of_ne c 0 ne) (rw next refl)))

-- A zero-terminated string that the task may read, and that has room with its zero in the buffer, is
-- copied whole; it does not wrap around the end of memory.
pub copy_string_whole :
    (readable : ℕ → Bool) (m : Memory) (s : List ℕ) (src capacity : ℕ)
    → Stands readable m src s
    → length s < capacity
    → src + capacity ≤ 2 ^ 32
    → copy_string_from_guest readable m capacity src ≡ ok s
unfolding Stands
copy_string_whole readable m s src zero h lt fits = absurd (omega arith)
copy_string_whole readable m [] src (suc capacity) h lt fits =
    copy_last readable m src capacity h.0 h.1
copy_string_whole readable m (c ∷ s) src (suc capacity) (r, e, ne, h) lt fits =
    rw (copy_byte readable m src capacity c r e ne (omega arith)) (
      ap (append_byte c)
        (copy_string_whole readable m s (src + 1) capacity h (omega arith) (omega arith)))
