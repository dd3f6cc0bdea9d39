-- ===== src/Pty/Queue.antt =====
-- The rings of src/pty/lxp_pty.c as queues of bytes.
use native.Mathlib.Nat.{mod-lt, mod-add-mod, add_assoc}
use lxp.Common.{
  ℕ, zero, suc, ◌+◌, ◌-◌, ◌%◌, ◌≤◌, ◌<◌, min, ◌≡◌, ◌≢◌, refl, sym, ◌∙◌, ap, subst, inl, inr, true,
  false, List, [], ◌∷◌, ◌++◌, arith, ltb, ◌==◌, if◌then◌else◌, length, get_or, set, take, drop,
  length-append, length-set, get_or-set_self, get_or-set_ne, append-nil, append_assoc, Bool-cases,
}
use lxp.Common.Bytes.{get_or-append}
use lxp.Ring.Queue.{Holds, mod_wrap, read_lem, Holds-drop}
use lxp.Pty.{PtyRing, newline, ring_putc, ring_read, ring_read_line, put_all}

-- The ring `q` has the bytes `bs` to be read, the first first.
pub record Queued (size : ℕ) (q : PtyRing) (bs : List ℕ) : Type 0 where
  pub holds : Holds q.buf size q.r bs
  pub write : q.w ≡ (q.r + length bs) % size
  pub count : q.n ≡ length bs

apart : (r i j size : ℕ) → r < size → i < j → j < size → (r + j) % size ≢ (r + i) % size
apart r i j size lt le room e = absurd (ground (arith, e, mod_wrap r i size, mod_wrap r j size))

next_index : (r n size w : ℕ) → w ≡ (r + n) % size → (w + 1) % size ≡ (r + (n + 1)) % size
next_index r n size w e =
    ap (λ z. (z + 1) % size) e ∙ mod-add-mod (r + n) size 1 ∙ ap (λ z. z % size) (add_assoc r n 1)

shifted : (r n size : ℕ) → (r + suc n) % size ≡ ((r + 1) % size + n) % size
shifted r n size = ap (λ z. z % size) (omega arith) ∙ sym (mod-add-mod (r + 1) size n)

pub ring_putc-Queued :
    (size : ℕ) (q : PtyRing) (bs : List ℕ) (c : ℕ)
    → Queued size q bs
    → length bs < size
    → Queued size (ring_putc size q c) (bs ++ (c ∷ []))
unfolding ring_putc
ring_putc-Queued size q bs c h room =
    let test : ltb q.n size ≡ true = ground (arith, h.count, room) in
    let more = length-append bs (c ∷ []) in
    let below : (q.r + length bs) % size < size = mod-lt (q.r + length bs) (omega (arith, room)) in
    let at_w : q.w < length q.buf = omega (arith, h.write, h.holds.size, below) in
    rw test (record {
      holds = record {
        size = length-set q.buf q.w c ∙ h.holds.size;
        start = h.holds.start;
        room = omega (arith, more, room);
        cells = λ i lt. elim (Bool-cases (i == length bs)) [
          | inl last ↦
              let is : i ≡ length bs = ground (arith, last) in
              subst (λ z. get_or (set q.buf q.w c) z 0 ≡ get_or (bs ++ (c ∷ [])) i 0)
                (h.write ∙ ap (λ z. (q.r + z) % size) (sym is))
                (get_or-set_self q.buf q.w c 0 at_w
                  ∙ ground (arith, is, get_or-append bs (c ∷ []) i 0))
          | inr more_left ↦
              let before : i < length bs = ground (arith, more_left, lt, more) in
              get_or-set_ne q.buf q.w ((q.r + i) % size) c 0
                (λ z. apart q.r i (length bs) size h.holds.start before room (sym h.write ∙ z))
              ∙ h.holds.cells i before
              ∙ ground (arith, before, get_or-append bs (c ∷ []) i 0)
        ];
      };
      write =
          next_index (q.r) (length bs) size q.w (h.write)
          ∙ ap (λ z. (q.r + z) % size) (omega (arith, more));
      count = omega (arith, h.count, more);
    })

pub put_all-Queued :
    (size : ℕ) (cs : List ℕ) (q : PtyRing) (bs : List ℕ)
    → Queued size q bs
    → length bs + length cs ≤ size
    → Queued size (put_all size q cs) (bs ++ cs)
unfolding put_all
put_all-Queued size [] q bs h room = subst (Queued size q) (sym (append-nil bs)) h
put_all-Queued size (c ∷ cs) q bs h room =
    subst (Queued size (put_all size (ring_putc size q c) cs)) (append_assoc bs (c ∷ []) cs) (
      put_all-Queued size cs (ring_putc size q c) (bs ++ (c ∷ []))
        (ring_putc-Queued size q bs c h (omega (arith, room)))
        (omega (arith, room, length-append bs (c ∷ []))))

pub ring_read-Queued :
    (size : ℕ) (q : PtyRing) (bs : List ℕ) (len : ℕ)
    → Queued size q bs
    → ((ring_read size q len).0 ≡ take (min len (length bs)) bs)
      × Queued size (ring_read size q len).1 (drop (min len (length bs)) bs)
unfolding ring_read
ring_read-Queued size q bs len h =
    let (count, bytes, holds, left, same) =
      read_lem (record { buf = q.buf; cap = size; at = q.r; count = q.n }) bs len h.holds h.count in
    (bytes, record { holds = holds; write = h.write ∙ sym same; count = left })

-- the bytes of a line, with its newline, but no more than `len`
unfoldable pub line_of : ℕ → List ℕ → List ℕ
line_of zero bs = []
line_of (suc len) [] = []
line_of (suc len) (c ∷ bs) = let rest = line_of len bs in if c == newline then c ∷ [] else c ∷ rest

first_byte :
    (size : ℕ) (q : PtyRing) (c : ℕ) (bs : List ℕ)
    → Queued size q (c ∷ bs)
    → (get_or q.buf q.r 0 ≡ c) × Queued size (record q { r = (q.r + 1) % size; n = q.n - 1 }) bs
first_byte size q c bs h =
    let cell = h.holds.cells 0 (omega arith) in
    let here : (q.r + 0) % size ≡ q.r = ground (arith, mod_wrap q.r 0 size, h.holds.start) in
    (
      subst (λ z. get_or q.buf z 0 ≡ c) here cell,
      record {
        holds = Holds-drop q.buf (c ∷ bs) size q.r 1 h.holds (omega arith);
        write = h.write ∙ shifted q.r (length bs) size;
        count = omega (arith, h.count);
      },
    )

pub ring_read_line-Queued :
    (len size : ℕ) (q : PtyRing) (bs : List ℕ)
    → Queued size q bs
    → ((ring_read_line size q len).0 ≡ line_of len bs)
      × Queued size (ring_read_line size q len).1 (drop (length (line_of len bs)) bs)
unfolding ring_read_line line_of
ring_read_line-Queued zero size q bs h = (refl, h)
ring_read_line-Queued (suc len) size q [] h =
    let none_left : (q.n == 0) ≡ true = ground (arith, h.count) in rw none_left (refl, h)
ring_read_line-Queued (suc len) size q (c ∷ bs) h =
    let some_left : (q.n == 0) ≡ false = ground (arith, h.count) in
    let (cell, rest) = first_byte size q c bs h in
    let (bytes, queued) =
      ring_read_line-Queued len size (record q { r = (q.r + 1) % size; n = q.n - 1 }) bs rest in
    elim (Bool-cases (c == newline)) [
      | inl e ↦ rw (some_left, ring_read_line) (rw cell (rw e (refl, rest)))
      | inr e ↦ rw (some_left, ring_read_line) (rw cell (rw e (ap (◌∷◌ c) bytes, queued)))
    ]
