-- ===== src/Eventfd.antt =====
-- src/fs/lxp_eventfd.c: the pool of event counters, over `lxp_fd_install`. A counter is a 64-bit
-- word. `lxp_copy_to_guest` and `lxp_copy_from_guest` of the eight bytes are arguments: whether the
-- task may write the buffer, and the word that it reads from it, if it may.
mod Counter
mod Tests
use lxp.Common.{
  ℕ, zero, suc, ◌+◌, ◌-◌, ◌%◌, ◌^◌, Bool, true, false, Option, none, some, List, [], ◌∷◌, ltb, leb,
  ◌==◌, ◌||◌, ◌&&◌, not, if◌then◌else◌, length, get_or, set, map, Result, ok, err,
}
use lxp.Common.Int.{ℤ, pos, negsuc}
use lxp.Errno.{eagain, einval, ebadf, efault, emfile}

abbrev pub u64_max : ℕ
u64_max = 2 ^ 64 - 1

-- an entry of `g_efd`
pub record Efd : Type 0 where
  pub ctr : ℕ
  pub flags : ℕ
  pub used : Bool

abbrev pub zeroed : Efd
zeroed = record { ctr = 0; flags = 0; used = false }

abbrev pub at : List Efd → ℕ → Efd
at pool i = get_or pool i zeroed

-- efd_new: from index `i` on; `flags` as a 16-bit word
unfoldable pub new_from : ℕ → List Efd → ℕ → ℕ → Result ℕ × List Efd
new_from i [] initval flags = (err emfile, [])
new_from i (e ∷ rest) initval flags =
    let (r, rest') = new_from (i + 1) rest initval flags in
    if e.used
    then (r, e ∷ rest')
    else (ok i, record { ctr = initval; flags = flags % 2 ^ 16; used = true } ∷ rest)

unfoldable pub new : List Efd → ℕ → ℕ → Result ℕ × List Efd
unfolding new_from
new pool initval flags = new_from 0 pool initval flags

unfoldable pub runtime_reset : List Efd → List Efd
runtime_reset = map (λ e. zeroed)

-- efd_close
unfoldable pub close : List Efd → ℤ → List Efd
close pool (negsuc i) = pool
close pool (pos i) = set pool i (record (at pool i) { used = false })

-- efd_readable
unfoldable pub readable : List Efd → ℤ → Bool
readable pool (negsuc i) = false
readable pool (pos i) = ltb i (length pool) && not ((at pool i).ctr == 0)

abbrev pub is_semaphore : Efd → Bool
is_semaphore e = e.flags % 2 == 1

-- efd_read of one counter in use: the answer, the word stored, and the counter
unfoldable pub take_word : Efd → ℕ → Bool → Result ℕ × Option ℕ × Efd
take_word e len writable =
    let v = if is_semaphore e then 1 else e.ctr in
    if ltb len 8
    then (err einval, none, e)
    else if e.ctr == 0
    then (err eagain, none, e)
    else if not writable
    then (err efault, none, e)
    else (ok 8, some v, record e { ctr = e.ctr - v })

unfoldable pub read : List Efd → ℤ → ℕ → Bool → Result ℕ × Option ℕ × List Efd
unfolding take_word
read pool (negsuc i) len writable = (err ebadf, none, pool)
read pool (pos i) len writable =
    let (r, stored, e) = take_word (at pool i) len writable in
    if leb (length pool) i || not (at pool i).used
    then (err ebadf, none, pool)
    else (r, stored, set pool i e)

-- efd_write of one counter in use
unfoldable pub add_word : Efd → ℕ → Option ℕ → Result ℕ × Efd
add_word e len none = (if ltb len 8 then err einval else err efault, e)
add_word e len (some v) =
    if ltb len 8 || v == u64_max
    then (err einval, e)
    else if ltb (u64_max - e.ctr - 1) v
    then (ok 8, record e { ctr = u64_max - 1 })
    else (ok 8, record e { ctr = e.ctr + v })

unfoldable pub write : List Efd → ℤ → ℕ → Option ℕ → Result ℕ × List Efd
unfolding add_word
write pool (negsuc i) len word = (err ebadf, pool)
write pool (pos i) len word =
    let (r, e) = add_word (at pool i) len word in
    if leb (length pool) i || not (at pool i).used then (err ebadf, pool) else (r, set pool i e)
