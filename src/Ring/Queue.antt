-- ===== src/Ring/Queue.antt =====
-- The ring as a queue of bytes: reads take from the front, writes add at the back.
use native.Mathlib.Nat.{mod-eq_of_lt, mod-eq-sub-mod, mod-add-mod, mod-lt, add_assoc}
use native.Mathlib.Decide.{dec_lt}
use lxp.Common.{
  ℕ, ◌+◌, ◌-◌, ◌%◌, ◌≤◌, ◌<◌, min, ◌≡◌, inl, inr, ◌⊎◌, refl, sym, ap, ◌∙◌, ◌&&◌, List, ◌++◌, arith,
  ltb, leb, if◌then◌else◌, length, get_or, take, drop, length-append, length-take, length-drop,
}
use lxp.Common.Bytes.{
  blit, length-blit, get_or-blit, get_or-take, get_or-drop, get_or-append, list_ext,
}
use lxp.Ring.{Ring, at_most, read, write}

-- The bytes `bs` stand in `buf`, round the end at `span`, from index `r` on.
pub record Holds (buf : List ℕ) (span r : ℕ) (bs : List ℕ) : Type 0 where
  pub size : length buf ≡ span
  pub start : r < span
  pub room : length bs ≤ span
  pub cells : (i : ℕ) → i < length bs → get_or buf ((r + i) % span) 0 ≡ get_or bs i 0

pub mod_wrap :
    (r i span : ℕ)
    → r < span
    → i ≤ span
    → (r + i) % span ≡ (if ltb (r + i) span then r + i else r + i - span)
mod_wrap r i span h k = elim (dec_lt (r + i) span) [
  | yes p ↦ ground (arith, mod-eq_of_lt p)
  | no p ↦ ground (
    arith,
    mod-eq-sub-mod {n = r + i} {m = span} (omega arith),
    mod-eq_of_lt {n = r + i - span} {m = span} (omega arith),
  )
]

-- What `read` copies out, byte by byte.
copied :
    (buf bs : List ℕ) (span r n i : ℕ)
    → Holds buf span r bs
    → n ≤ length bs
    → i < n
    → get_or (take (at_most n (span - r)) (drop r buf) ++ take (n - at_most n (span - r)) buf) i 0
      ≡ get_or bs i 0
copied buf bs span r n i h le lt =
    let n1 = at_most n (span - r) in
    ground (
      arith,
      h.cells i,
      mod_wrap r i span,
      get_or-append (take n1 (drop r buf)) (take (n - n1) buf) i 0,
      get_or-take n1 (drop r buf) i 0,
      get_or-drop r buf i 0,
      get_or-take (n - n1) buf (i - n1) 0,
      length-take n1 (drop r buf),
      length-drop r buf,
    )

length_copied :
    (buf bs : List ℕ) (span r n : ℕ)
    → Holds buf span r bs
    → n ≤ length bs
    → length (take (at_most n (span - r)) (drop r buf) ++ take (n - at_most n (span - r)) buf) ≡ n
length_copied buf bs span r n h le =
    let n1 = at_most n (span - r) in
    ground (
      arith,
      length-append (take n1 (drop r buf)) (take (n - n1) buf),
      length-take n1 (drop r buf),
      length-drop r buf,
      length-take (n - n1) buf,
    )

mod_step : (r n i span : ℕ) → ((r + n) % span + i) % span ≡ (r + (n + i)) % span
mod_step r n i span = mod-add-mod (r + n) span i ∙ ap (λ k. k % span) (add_assoc r n i)

pub Holds-drop :
    (buf bs : List ℕ) (span r n : ℕ)
    → Holds buf span r bs
    → n ≤ length bs
    → Holds buf span ((r + n) % span) (drop n bs)
Holds-drop buf bs span r n h le = record {
  size = h.size;
  start = ground (arith, mod_wrap r n span, h.start, h.room);
  room = omega (arith, length-drop n bs, h.room);
  cells = λ i lt.
      ap (λ k. get_or buf k 0) (mod_step r n i span)
      ∙ h.cells (n + i) (omega (arith, length-drop n bs))
      ∙ sym (get_or-drop n bs i 0);
}

at_most-eq-min : (count len : ℕ) → at_most count len ≡ min len count
at_most-eq-min count len = ground arith

read_bytes :
    (buf bs : List ℕ) (span r n : ℕ)
    → Holds buf span r bs
    → n ≤ length bs
    → take (at_most n (span - r)) (drop r buf) ++ take (n - at_most n (span - r)) buf ≡ take n bs
read_bytes buf bs span r n h le =
    list_ext _ _ 0 (length_copied buf bs span r n h le ∙ omega (arith, length-take n bs)) λ i lt.
      let below : i < n = omega (arith, length_copied buf bs span r n h le, lt) in
      copied buf bs span r n i h le below ∙ ground (arith, get_or-take n bs i 0, below)

-- A ring that holds `bs` hands out the first bytes of `bs`, as many as are asked for and there,
-- answers how many, and holds the rest; the end of what it holds stays where it was.
pub read_lem :
    (r : Ring) (bs : List ℕ) (len : ℕ)
    → Holds r.buf r.cap r.at bs
    → r.count ≡ length bs
    → let n = min len (length bs) in
      ((read r len).0 ≡ n)
      × ((read r len).1 ≡ take n bs)
      × Holds (read r len).2.buf r.cap (read r len).2.at (drop n bs)
      × ((read r len).2.count ≡ length (drop n bs))
      × (((read r len).2.at + length (drop n bs)) % r.cap ≡ (r.at + length bs) % r.cap)
unfolding read
read_lem r bs len h c =
    rw (c, at_most-eq-min (length bs) len)
      (
        refl,
        read_bytes r.buf bs r.cap r.at n h (omega arith),
        Holds-drop r.buf bs r.cap r.at n h (omega arith),
        omega (arith, length-drop n bs),
        mod_step r.at n (length (drop n bs)) r.cap
            ∙ ap (λ k. (r.at + k) % r.cap) (omega (arith, length-drop n bs)),
      )
  where
    n : ℕ
    n = min len (length bs)

-- Where the two copies of `write` put the bytes of `src`, and that they touch no other cell.
written :
    (buf src : List ℕ) (span w n i : ℕ)
    → length buf ≡ span
    → w < span
    → n ≤ span
    → n ≤ length src
    → i < span
    → let n1 = at_most n (span - w) in
      get_or (blit (blit buf w (take n1 src)) 0 (take (n - n1) (drop n1 src))) i 0 ≡ (
        if leb w i && ltb i (w + n)
        then get_or src (i - w) 0
        else if ltb (i + span) (w + n)
        then get_or src (i + span - w) 0
        else get_or buf i 0)
written buf src span w n i e lt le room below =
    let n1 = at_most n (span - w) in
    let tail = take (n - n1) (drop n1 src) in
    ground (
      arith,
      get_or-blit (blit buf w (take n1 src)) 0 tail i,
      get_or-blit buf w (take n1 src) i,
      length-blit buf w (take n1 src),
      length-take n1 src,
      length-take (n - n1) (drop n1 src),
      length-drop n1 src,
      get_or-take n1 src (i - w) 0,
      get_or-take (n - n1) (drop n1 src) i 0,
      get_or-drop n1 src i 0,
    )

-- Where the cell of index `i` lies, after `n` bytes are written behind `c` bytes: among the old
-- ones, before the end of the buffer, or round it.
place :
    (r i c n span w k : ℕ)
    → r < span
    → c ≤ span
    → n ≤ span - c
    → i < c + n
    → w ≡ (if ltb (r + c) span then r + c else r + c - span)
    → k ≡ (if ltb (r + i) span then r + i else r + i - span)
    → (k < span)
      × (((i < c) × (¬ ((w ≤ k) × (k < w + n))) × (w + n ≤ k + span))
          ⊎ ((c ≤ i) × (w ≤ k) × (k < w + n) × (k - w ≡ i - c))
          ⊎ ((c ≤ i) × (k < w) × (k + span < w + n) × (k + span - w ≡ i - c)))
place r i c n span w k hr hc hn hi ew ek = ground arith

read_back :
    (src bs : List ℕ) (i n : ℕ)
    → n ≤ length src
    → i < length bs + n
    → get_or (bs ++ take n src) i 0
      ≡ (if ltb i (length bs) then get_or bs i 0 else get_or src (i - length bs) 0)
read_back src bs i n le lt =
    ground (arith, get_or-append bs (take n src) i 0, get_or-take n src (i - length bs) 0)

new_cell :
    (buf src bs : List ℕ) (span r w n i : ℕ)
    → Holds buf span r bs
    → w ≡ (r + length bs) % span
    → n ≤ span - length bs
    → n ≤ length src
    → i < length bs + n
    → (if leb w ((r + i) % span) && ltb ((r + i) % span) (w + n)
        then get_or src ((r + i) % span - w) 0
        else if ltb ((r + i) % span + span) (w + n)
        then get_or src ((r + i) % span + span - w) 0
        else get_or buf ((r + i) % span) 0)
      ≡ (if ltb i (length bs) then get_or bs i 0 else get_or src (i - length bs) 0)
new_cell buf src bs span r w n i h e free le lt =
    elim (place r i (length bs) n span w ((r + i) % span) h.start h.room free lt
      (e ∙ mod_wrap r (length bs) span h.start h.room)
      (mod_wrap r i span h.start (omega arith))).1 [
        | inl old ↦ ground (arith, h.cells i, old)
        | inr (inl flat) ↦ ground (arith, flat)
        | inr (inr wrapped) ↦ ground (arith, wrapped)
      ]

Holds-append :
    (buf src bs : List ℕ) (span r w n : ℕ)
    → Holds buf span r bs
    → w ≡ (r + length bs) % span
    → n ≤ span - length bs
    → n ≤ length src
    → let n1 = at_most n (span - w) in
      Holds
        (blit (blit buf w (take n1 src)) 0 (take (n - n1) (drop n1 src)))
        span
        r
        (bs ++ take n src)
Holds-append buf src bs span r w n h e free le =
    let n1 = at_most n (span - w) in
    let once = blit buf w (take n1 src) in
    let size = length-append bs (take n src) in
    record {
      size = omega (
        arith,
        length-blit once 0 (take (n - n1) (drop n1 src)),
        length-blit buf w (take n1 src),
        h.size,
      );
      start = h.start;
      room = omega (arith, size, length-take n src, h.room);
      cells = λ i lt.
          let below : i < length bs + n = omega (arith, size, length-take n src, lt) in
          written buf src span w n ((r + i) % span) h.size
            (rw e (mod-lt _ (omega (arith, h.start)))) (omega arith) le
            (mod-lt _ (omega (arith, h.start)))
          ∙ new_cell buf src bs span r w n i h e free le below
          ∙ sym (read_back src bs i n le below);
    }

length-append_take :
    (src bs : List ℕ) (n : ℕ) → n ≤ length src → length (bs ++ take n src) ≡ length bs + n
length-append_take src bs n le = omega (arith, length-append bs (take n src), length-take n src)

-- A ring that holds `bs` takes the first bytes of `src`, as many as there is room for, behind
-- those of `bs`, and answers how many; its cursor goes to the end of what it holds.
pub write_lem :
    (r : Ring) (start : ℕ) (bs src : List ℕ)
    → Holds r.buf r.cap start bs
    → r.at ≡ (start + length bs) % r.cap
    → r.count ≡ length bs
    → let n = min (length src) (r.cap - length bs) in
      let bs' = bs ++ take n src in
      ((write r src).0 ≡ n)
      × Holds (write r src).1.buf r.cap start bs'
      × ((write r src).1.at ≡ (start + length bs') % r.cap)
      × ((write r src).1.count ≡ length bs')
unfolding write
write_lem r start bs src h e c =
    rw (c, at_most-eq-min (r.cap - length bs) (length src))
      (
        refl,
        Holds-append r.buf src bs r.cap start r.at n h e (omega arith) (omega arith),
        rw (e, mod_step start (length bs) n r.cap) (ap (λ k. (start + k) % r.cap) (sym size)),
        sym size,
      )
  where
    n : ℕ
    n = min (length src) (r.cap - length bs)

    size : length (bs ++ take n src) ≡ length bs + n
    size = length-append_take src bs n (omega arith)
