-- ===== src/Vfs.antt =====
-- src/fs/lxp_vfs.c: what the file operations of several kinds of files share. `size_t` has 32 bits,
-- and offsets 64.
use lxp.Common.{
  ℕ, suc, ◌+◌, ◌-◌, ◌^◌, Bool, List, [], ltb, leb, ◌&&◌, not, if◌then◌else◌, length, Result, ok,
  err, min,
}
use lxp.Common.Int.{ℤ, pos, negsuc}
use lxp.Common.Bytes.{Memory, bytes_at}
use lxp.Arena.{word_max}
use lxp.Errno.{efault, einval, enametoolong, eoverflow}

-- lxp_vfs_read_mem: the answer and the bytes that go to the caller's buffer, which is `writable` or
-- not, from the memory `m`
unfoldable pub read_mem : Bool → Memory → ℕ → ℕ → ℕ → ℕ → Result ℕ × List ℕ
read_mem writable m from size len off =
    let n = min (size - off) len in
    if leb size off
    then (ok 0, [])
    else if not writable
    then (err efault, [])
    else (ok n, bytes_at m (from + off) n)

-- LXP_SEEK_SET, LXP_SEEK_CUR, LXP_SEEK_END or another number
pub data Whence : Type 0 where
  seek_set seek_cur seek_end other : Whence

abbrev pub int64_max : ℕ
int64_max = 2 ^ 63 - 1

abbrev pub offset_at : ℕ → Result ℕ
offset_at p = if ltb word_max p then err eoverflow else ok p

-- `base + off`, as an offset
unfoldable pub seek_from : ℕ → ℤ → Result ℕ
seek_from base (pos n) =
    if ltb 0 n && ltb (int64_max - n) base then err eoverflow else offset_at (base + n)
seek_from base (negsuc n) = if ltb base (suc n) then err einval else offset_at (base - suc n)

-- lxp_vfs_seek of a file with the length `end_at`, whose offset the answer becomes
unfoldable pub seek : ℕ → ℕ → ℤ → Whence → Result ℕ
unfolding seek_from
seek offset end_at off seek_set = seek_from 0 off
seek offset end_at off seek_cur = seek_from offset off
seek offset end_at off seek_end = seek_from end_at off
seek offset end_at off other = err einval

-- lxp_vfs_copy_path
unfoldable pub copy_path : List ℕ → ℕ → Result (List ℕ)
copy_path path cap = if leb cap (length path) then err enametoolong else ok path
