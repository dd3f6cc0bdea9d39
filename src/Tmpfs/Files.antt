-- ===== src/Tmpfs/Files.antt =====
-- src/fs/lxp_tmpfs.c: the file operations on a node, and the mode of a directory. The bytes of a
-- write are those that stand in the task's buffer, which is `readable` or not.
use lxp.Common.{
  ℕ, ◌+◌, ◌-◌, ◌%◌, ◌^◌, Bool, true, false, List, [], ltb, not, if◌then◌else◌, length, set,
  replicate, Result, ok, err,
}
use lxp.Common.Int.{ℤ}
use lxp.Common.Bytes.{Memory, store}
use lxp.Errno.{ebadf, efault, efbig, einval, eisdir, enoent, enotdir}
use lxp.Arena.{word_max}
use lxp.Vfs.{read_mem, Whence, seek, copy_path}
use lxp.Tmpfs.{Wnode, Tmpfs, node_at, is_dir, reserve, close_node}

-- fop_pread_tmpfs
unfoldable pub pread : Bool → Tmpfs → ℕ → ℕ → ℕ → Result ℕ × List ℕ
unfolding read_mem
pread writable t i len off =
    let w = node_at t.nodes i in
    if is_dir w.mode
    then (err eisdir, [])
    else read_mem writable t.arena.bytes w.data_at w.size len off

-- the offset after a transfer, `if (n > 0) s->offset += (size_t)n`
abbrev pub advanced : ℕ → Result ℕ → ℕ
advanced offset (ok n) = (offset + n) % 2 ^ 32
advanced offset (err e) = offset

-- fop_read_tmpfs: the answer, the bytes and the offset
unfoldable pub read : Bool → Tmpfs → ℕ → ℕ → ℕ → Result ℕ × List ℕ × ℕ
unfolding pread
read writable t i len offset =
    let (r, bytes) = pread writable t i len offset in (r, bytes, advanced offset r)

abbrev pub zeroed : Memory → ℕ → ℕ → ℕ → Memory
zeroed m from size upto = store m (from + size) (replicate (upto - size) 0)

-- `memset` of the bytes between the end of a file and the offset of a write
abbrev pub hole_zeroed : Memory → Wnode → ℕ → Memory
hole_zeroed m w off = if ltb w.size off then zeroed m w.data_at w.size off else m

abbrev pub with_bytes : Tmpfs → Memory → Tmpfs
with_bytes t m = record t { arena = record t.arena { bytes = m } }

abbrev pub with_size : Tmpfs → ℕ → ℕ → Tmpfs
with_size t i n = record t { nodes = set t.nodes i (record (node_at t.nodes i) { size = n }) }

-- the writes of `fop_pwrite_tmpfs` once there is room
unfoldable pub put_bytes : Tmpfs → ℕ → Bool → List ℕ → ℕ → Tmpfs × Result ℕ
put_bytes t i readable bytes off =
    let w = node_at t.nodes i in
    let m = hole_zeroed t.arena.bytes w off in
    let end_at = off + length bytes in
    let t' = with_bytes t (store m (w.data_at + off) bytes) in
    if not readable
    then (with_bytes t m, err efault)
    else (if ltb w.size end_at then with_size t' i end_at else t', ok (length bytes))

abbrev pub with_room : Tmpfs × Bool → ℕ → Bool → List ℕ → ℕ → Tmpfs × Result ℕ
with_room (t, true) i readable bytes off = put_bytes t i readable bytes off
with_room (t, false) i readable bytes off = (t, err efbig)

-- fop_pwrite_tmpfs
unfoldable pub pwrite : ℕ → ℕ → Tmpfs → ℕ → Bool → List ℕ → ℕ → Tmpfs × Result ℕ
unfolding reserve put_bytes
pwrite base pool t i readable bytes off =
    let end_at = (off + length bytes) % 2 ^ 32 in
    if ltb word_max off
    then (t, err efbig)
    else if is_dir (node_at t.nodes i).mode
    then (t, err ebadf)
    else if ltb end_at (length bytes)
    then (t, err einval)
    else with_room (reserve base pool t i end_at) i readable bytes off

-- fop_write_tmpfs: the file system, the answer and the offset
unfoldable pub write : ℕ → ℕ → Tmpfs → ℕ → Bool → List ℕ → ℕ → Tmpfs × Result ℕ × ℕ
unfolding pwrite
write base pool t i readable bytes offset =
    let (t', r) = pwrite base pool t i readable bytes offset in (t', r, advanced offset r)

-- fop_lseek_tmpfs
unfoldable pub lseek : Tmpfs → ℕ → ℕ → ℤ → Whence → Result ℕ
unfolding seek
lseek t i offset off whence = seek offset (node_at t.nodes i).size off whence

abbrev pub extended : Tmpfs × Bool → ℕ → ℕ → Tmpfs × Result ℕ
extended (t, true) i n =
    let w = node_at t.nodes i in
    (with_size (with_bytes t (zeroed t.arena.bytes w.data_at w.size n)) i n, ok 0)
extended (t, false) i n = (t, err efbig)

-- fop_ftruncate_tmpfs
unfoldable pub ftruncate : ℕ → ℕ → Tmpfs → ℕ → ℕ → Tmpfs × Result ℕ
unfolding reserve
ftruncate base pool t i n =
    let w = node_at t.nodes i in
    if is_dir w.mode
    then (t, err eisdir)
    else if ltb word_max n
    then (t, err efbig)
    else if ltb w.size n
    then extended (reserve base pool t i n) i n
    else (with_size t i n, ok 0)

-- fop_close_tmpfs
unfoldable pub close : Tmpfs → ℕ → Tmpfs
unfolding close_node
close t i = close_node t i

-- fop_dir_path_tmpfs
unfoldable pub dir_path : Tmpfs → ℕ → ℕ → Result (List ℕ)
unfolding copy_path
dir_path t i cap =
    let w = node_at t.nodes i in
    if not (is_dir w.mode)
    then err enotdir
    else if not w.linked
    then err enoent
    else copy_path w.path cap
