-- ===== src/Tmpfs/Written.antt =====
-- Writes at an offset of a node, and what reads see afterwards (src/fs/lxp_tmpfs.c).
use lxp.Common.{
  ℕ, ◌+◌, ◌%◌, ◌^◌, ◌≤◌, ◌<◌, ◌≡◌, refl, sym, ◌∙◌, ap, subst, inl, inr, Bool, true, false, List,
  arith, ltb, leb, length, take, drop, Bool-cases, Result, ok, err,
}
use lxp.Common.Bytes.{Memory, bytes_at, length-bytes_at, get_or-bytes_at, list_ext}
use lxp.Arena.{word_max, Header}
use lxp.Arena.Valid.{Tiled}
use lxp.Tmpfs.Room.{Room, reserve-Room, put_bytes-Room}
use lxp.Errno.{ebadf, efbig, einval}
use lxp.Tmpfs.{Tmpfs, Wnode, node_at, is_dir, reserve, ready_arena}
use lxp.Tmpfs.Files.{hole_zeroed, put_bytes, with_room, pread, pwrite}
use lxp.Tmpfs.Contents.{
  contents, overwritten, pread_lem, hole_lem, contents-put_bytes, put_bytes_mode,
}
use lxp.Tmpfs.Growth.{Sound, reserve-Kept, reserve-contents}

-- the bytes that a read of `len` bytes at `at` gives of a file
abbrev pub window : ℕ → ℕ → List ℕ → List ℕ
window len at file = take len (drop at file)

-- What a write comes to: `old` are the bytes of the file, `new` those that it is to have, and
-- `n` how many are written.
pub record Effect (t : Tmpfs) (i n end_at : ℕ) (old new : List ℕ) (may : Type 0)
    (out : Tmpfs × Result ℕ) : Type 0 where
  pub stored :
      (k : ℕ)
      → out.1 ≡ ok k
      → (k ≡ n)
        × Room t i end_at out.0
        × ((len at : ℕ)
            → pread true out.0 i len at ≡ (ok (length (window len at new)), window len at new))
  pub refused : (e : ℕ) → out.1 ≡ err e → contents out.0 i ≡ old
  pub accepted : may → out.1 ≡ ok n

hole_contents :
    (m : Memory) (w : Wnode) (off : ℕ)
    → bytes_at (hole_zeroed m w off) w.data_at w.size ≡ bytes_at m w.data_at w.size
hole_contents m w off =
    let a = bytes_at (hole_zeroed m w off) w.data_at w.size in
    let l = length-bytes_at (hole_zeroed m w off) w.data_at w.size in
    list_ext a (bytes_at m w.data_at w.size) 0 (l ∙ sym (length-bytes_at m w.data_at w.size))
      (λ j lt.
        (let below : leb w.size j ≡ false = ground (arith, lt, l) in
          get_or-bytes_at (hole_zeroed m w off) w.data_at w.size j
          ∙ rw (hole_lem m w off j) (rw below (sym (get_or-bytes_at m w.data_at w.size j)))))

refused-Effect :
    (t0 t : Tmpfs) (i n end_at e : ℕ) (new : List ℕ) (may : Type 0)
    → (may → ⊥)
    → Effect t0 i n end_at (contents t i) new may (t, err e)
refused-Effect t0 t i n end_at e new may never = record {
  stored = λ k f. absurd (ground (arith, f));
  refused = λ d f. refl;
  accepted = λ m. absurd (never m);
}

put_bytes-Effect :
    (t0 t : Tmpfs) (i : ℕ) (readable : Bool) (bytes : List ℕ) (off : ℕ) (may : Type 0)
    → i < length t.nodes
    → is_dir (node_at t.nodes i).mode ≡ false
    → (may → readable ≡ true)
    → Room t0 i (off + length bytes) t
    → Effect t0 i
        (length bytes)
        (off + length bytes)
        (contents t i)
        (overwritten (contents t i) off bytes)
        may
        (put_bytes t i readable bytes off)
unfolding put_bytes
put_bytes-Effect t0 t i true bytes off may lt file can room = record {
  stored = λ k f. (
    ground (arith, f),
    put_bytes-Room t0 t i bytes off lt room,
    λ len at.
        (let t' = (put_bytes t i true bytes off).0 in
          let c = contents-put_bytes t i bytes off lt in
          subst (λ x. pread true t' i len at ≡ (ok (length (window len at x)), window len at x)) c
            (pread_lem t' i len at (ap is_dir (put_bytes_mode t i bytes off lt) ∙ file))),
  );
  refused = λ e f. absurd (ground (arith, f));
  accepted = λ m. refl;
}
put_bytes-Effect t0 t i false bytes off may lt file can room = record {
  stored = λ k f. absurd (ground (arith, f));
  refused = λ e f. hole_contents t.arena.bytes (node_at t.nodes i) off;
  accepted = λ m. absurd (ground (arith, can m));
}

with_room-Effect :
    (t : Tmpfs) (r : Tmpfs × Bool) (i : ℕ) (readable : Bool) (bytes : List ℕ) (off : ℕ)
    (may : Type 0)
    → i < length r.0.nodes
    → is_dir (node_at r.0.nodes i).mode ≡ false
    → contents r.0 i ≡ contents t i
    → (may → (r.1 ≡ true) × (readable ≡ true))
    → (r.1 ≡ true → Room t i (off + length bytes) r.0)
    → Effect t i
        (length bytes)
        (off + length bytes)
        (contents t i)
        (overwritten (contents t i) off bytes)
        may
        (with_room r i readable bytes off)
with_room-Effect t (t', true) i readable bytes off may lt file same can room =
    subst
      (λ x.
        Effect t i (length bytes) (off + length bytes) x (overwritten x off bytes) may
          (put_bytes t' i readable bytes off))
      same (put_bytes-Effect t t' i readable bytes off may lt file (λ m. (can m).1) (room refl))
with_room-Effect t (t', false) i readable bytes off may lt file same can room =
    subst
      (λ x.
        Effect t i (length bytes) (off + length bytes) x (overwritten x off bytes) may
          (t', err efbig))
      same
      (refused-Effect t t' i (length bytes) (off + length bytes) efbig
        (overwritten (contents t' i) off bytes) may (λ m. absurd (ground (arith, (can m).0))))

-- The conditions of a write: a file, an offset and an end that fit in 32 bits, room for the bytes, and
-- a buffer that can be read.
abbrev pub Accepts : ℕ → ℕ → Tmpfs → ℕ → Bool → List ℕ → ℕ → Type 0
Accepts base pool t i readable bytes off =
    (is_dir (node_at t.nodes i).mode ≡ false)
    × (off + length bytes ≤ word_max)
    × ((reserve base pool t i (off + length bytes)).1 ≡ true)
    × (readable ≡ true)

pwrite_branches :
    (base pool : ℕ) (t : Tmpfs) (i : ℕ) (readable : Bool) (bytes : List ℕ) (off : ℕ) (may : Type 0)
    (bs : List Header)
    → Sound t i
    → Tiled (ready_arena base pool t) bs
    → i < length t.nodes
    → pool ≤ word_max
    → (may → Accepts base pool t i readable bytes off)
    → Effect t i
        (length bytes)
        (off + length bytes)
        (contents t i)
        (overwritten (contents t i) off bytes)
        may
        (pwrite base pool t i readable bytes off)
unfolding pwrite
pwrite_branches base pool t i readable bytes off may bs s tiled lt p can =
    let new = overwritten (contents t i) off bytes in
    let n = length bytes in
    let end_at = (off + length bytes) % 2 ^ 32 in
    elim (Bool-cases (ltb word_max off)) [
      | inl a ↦
          rw a (refused-Effect t t i n (off + n) efbig new may (λ m. ground (arith, a, (can m).1)))
      | inr a ↦ elim (Bool-cases (is_dir (node_at t.nodes i).mode)) [
        | inl b ↦
            rw (a, b)
              (refused-Effect t t i n (off + n) ebadf new may
                (λ m. absurd (ground (arith, b, (can m).0))))
        | inr b ↦ elim (Bool-cases (ltb end_at n)) [
          | inl c ↦
              rw (a, b, c)
                (refused-Effect t t i n (off + n) einval new may
                  (λ m. absurd (ground (arith, c, (can m).1))))
          | inr c ↦
              let k = reserve-Kept base pool t i end_at lt in
              let same : end_at ≡ off + n = ground (arith, a, c) in
              rw (a, b, c)
                (with_room-Effect t (reserve base pool t i end_at) i readable bytes off may
                  (omega (arith, k.places, lt)) (ap is_dir k.mode ∙ b)
                  (reserve-contents base pool t i end_at s lt p)
                  (λ m.
                    (let whole : end_at ≡ off + length bytes = omega (arith, (can m).1) in
                      rw whole ((can m).2, (can m).3)))
                  (subst
                    (λ x.
                      (reserve base pool t i end_at).1 ≡ true
                      → Room t i x (reserve base pool t i end_at).0)
                    same (reserve-Room base pool t i end_at bs s tiled lt p)))
        ]
      ]
    ]

-- For a node of the table whose bytes lie in an allocated block of the arena with room for its
-- capacity, or which has no capacity, an arena, set up if it was not yet, that blocks tile, and a pool of
-- less than 2 ^ 32 bytes: a write to a file, with an end that fits in 32 bits, with room for its bytes
-- and with a readable buffer answers the number of its bytes. After a write that is answered so, the
-- node's capacity reaches to the end of the write and stands in an allocated block of a tiled arena, no
-- header was written into the node's old block before the bytes were moved nor into its new one after, and
-- every read gives the named window of the old bytes overwritten at the offset, with zeros between the
-- old end and the offset. A write that is refused leaves the node's bytes.
pub pwrite-Effect :
    (base pool : ℕ) (t : Tmpfs) (i : ℕ) (readable : Bool) (bytes : List ℕ) (off : ℕ)
    (bs : List Header)
    → Sound t i
    → Tiled (ready_arena base pool t) bs
    → i < length t.nodes
    → pool ≤ word_max
    → Effect t i
        (length bytes)
        (off + length bytes)
        (contents t i)
        (overwritten (contents t i) off bytes)
        (Accepts base pool t i readable bytes off)
        (pwrite base pool t i readable bytes off)
pwrite-Effect base pool t i readable bytes off bs s tiled lt p =
    pwrite_branches base pool t i readable bytes off (Accepts base pool t i readable bytes off) bs s
      tiled lt p (λ m. m)
