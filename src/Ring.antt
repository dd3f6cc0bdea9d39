-- ===== src/Ring.antt =====
-- src/fs/lxp_ring.h: the byte ring that pipes and ptys share, over the caller's buffer and cursors.
pub mod Queue
use lxp.Common.{ℕ, ◌+◌, ◌-◌, ◌%◌, List, ◌++◌, ltb, if◌then◌else◌, length, take, drop}
use lxp.Common.Bytes.{blit}

-- `if (x > most) x = most`
abbrev pub at_most : ℕ → ℕ → ℕ
at_most most x = if ltb most x then most else x

-- The caller's `buf` of `cap` bytes, and the cursors that one call is handed: `at` is `*rpos` for a
-- read and `*wpos` for a write.
pub record Ring : Type 0 where
  pub buf : List ℕ
  pub cap : ℕ
  pub at : ℕ
  pub count : ℕ

-- lxp_ring_read: how many bytes are copied, those bytes, and the ring with its cursor and count moved
unfoldable pub read : Ring → ℕ → ℕ × List ℕ × Ring
read r len =
    let n = at_most r.count len in
    let n1 = at_most n (r.cap - r.at) in
    (
      n,
      take n1 (drop r.at r.buf) ++ take (n - n1) r.buf,
      record r { at = (r.at + n) % r.cap; count = r.count - n },
    )

-- lxp_ring_write: the number of bytes copied from `src`, and the ring
unfoldable pub write : Ring → List ℕ → ℕ × Ring
write r src =
    let n = at_most (r.cap - r.count) (length src) in
    let n1 = at_most n (r.cap - r.at) in
    let once = blit r.buf r.at (take n1 src) in
    (
      n,
      record r {
        buf = blit once 0 (take (n - n1) (drop n1 src));
        at = (r.at + n) % r.cap;
        count = r.count + n;
      },
    )
