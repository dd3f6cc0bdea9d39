-- ===== src/Tmpfs/Contents.antt =====
-- What reads see of a node's bytes after a write (src/fs/lxp_tmpfs.c).
use lxp.Common.{
  ℕ, zero, suc, ◌+◌, ◌-◌, ◌≤◌, ◌<◌, ◌≡◌, refl, sym, ◌∙◌, ap, inl, inr, true, false, List, ◌++◌,
  arith, ltb, leb, ◌&&◌, if◌then◌else◌, length, get_or, take, drop, replicate, length-append,
  length-replicate, get_or-set_self, Bool-cases, ltb→lt, ok, min,
}
use lxp.Common.Bytes.{
  bytes_at_same, drop-bytes_at, take-bytes_at, get_or-bytes_at, Memory, bytes_at, store, blit,
  length-bytes_at, length-blit, get_or-blit, get_or-append, list_ext,
}
use lxp.Vfs.{read_mem}
use lxp.Tmpfs.{Tmpfs, Wnode, node_at, zero_node, is_dir}
use lxp.Tmpfs.Files.{pread, put_bytes, hole_zeroed}

-- the bytes of the node `i`
abbrev pub contents : Tmpfs → ℕ → List ℕ
contents t i = bytes_at t.arena.bytes (node_at t.nodes i).data_at (node_at t.nodes i).size

-- A file's bytes after a write at an offset, with zeros where nothing was written.
abbrev pub overwritten : List ℕ → ℕ → List ℕ → List ℕ
overwritten old off bytes = blit (old ++ replicate (off + length bytes - length old) 0) off bytes

get_or-replicate : (n i : ℕ) → get_or {A = ℕ} (replicate n 0) i 0 ≡ 0
get_or-replicate zero i = refl
get_or-replicate (suc n) zero = refl
get_or-replicate (suc n) (suc i) = get_or-replicate n i

read_mem_lem :
    (m : Memory) (a size len off : ℕ)
    → read_mem true m a size len off
      ≡ (ok (min (size - off) len), bytes_at m (a + off) (min (size - off) len))
unfolding read_mem bytes_at
read_mem_lem m a size len off = elim (Bool-cases (leb size off)) [
  | inl e ↦ let z : min (size - off) len ≡ 0 = ground (arith, e) in rw e (rw z refl)
  | inr e ↦ rw e refl
]

-- A read gives the window of the file that it names.
pub pread_lem :
    (t : Tmpfs) (i len off : ℕ)
    → is_dir (node_at t.nodes i).mode ≡ false
    → pread true t i len off
      ≡ (ok (length (take len (drop off (contents t i)))), take len (drop off (contents t i)))
unfolding pread
pread_lem t i len off file =
    let m = t.arena.bytes in
    let w = node_at t.nodes i in
    let e : take len (drop off (contents t i))
        ≡ bytes_at m (w.data_at + off) (min (w.size - off) len) =
      ap (take len) (drop-bytes_at m off w.data_at w.size)
      ∙ take-bytes_at m len (w.data_at + off) (w.size - off) in
    let l = length-bytes_at m (w.data_at + off) (min (w.size - off) len) in
    rw file (rw e (rw l (read_mem_lem m w.data_at w.size len off)))

-- the memory that a write leaves, and the length of the file
abbrev new_memory : Memory → Wnode → List ℕ → ℕ → Memory
new_memory m w bytes off = store (hole_zeroed m w off) (w.data_at + off) bytes

abbrev new_size : ℕ → List ℕ → ℕ → ℕ
new_size size bytes off = if ltb size (off + length bytes) then off + length bytes else size

store_at :
    (m : Memory) (a off : ℕ) (bytes : List ℕ) (j : ℕ)
    → store m (a + off) bytes (a + j)
      ≡ (if leb off j && ltb j (off + length bytes) then get_or bytes (j - off) 0 else m (a + j))
unfolding store
store_at m a off bytes j =
    let lo : leb (a + off) (a + j) ≡ leb off j = ground arith in
    let hi : ltb (a + j) (a + off + length bytes) ≡ ltb j (off + length bytes) = ground arith in
    let at : a + j - (a + off) ≡ j - off = omega arith in rw (lo, hi, at) refl

pub hole_lem :
    (m : Memory) (w : Wnode) (off j : ℕ)
    → hole_zeroed m w off (w.data_at + j)
      ≡ (if leb w.size j && ltb j off then 0 else m (w.data_at + j))
hole_lem m w off j = elim (Bool-cases (ltb w.size off)) [
  | inl e ↦
      let zeros = get_or-replicate (off - w.size) (j - w.size) in
      let hi : w.size + length {A = ℕ} (replicate (off - w.size) 0) ≡ off =
        omega (arith, length-replicate {A = ℕ} (off - w.size) 0, ltb→lt w.size off e) in
      rw e (store_at m w.data_at w.size (replicate (off - w.size) 0) j ∙ rw (hi, zeros) refl)
  | inr e ↦
      let none_between : (leb w.size j && ltb j off) ≡ false = ground (arith, e) in
      rw e (rw none_between refl)
]

new_memory_lem :
    (m : Memory) (w : Wnode) (bytes : List ℕ) (off j : ℕ)
    → new_memory m w bytes off (w.data_at + j) ≡ (
        if leb off j && ltb j (off + length bytes)
        then get_or bytes (j - off) 0
        else if leb w.size j && ltb j off
        then 0
        else m (w.data_at + j))
new_memory_lem m w bytes off j =
    store_at (hole_zeroed m w off) w.data_at off bytes j ∙ rw (hole_lem m w off j) refl

-- the length of a list that is padded to a length
padded_length :
    (old : List ℕ) (n : ℕ)
    → length (old ++ replicate (n - length old) 0) ≡ length old + (n - length old)
padded_length old n =
    length-append old (replicate (n - length old) 0)
    ∙ ap (λ (k : ℕ). length old + k) (length-replicate {A = ℕ} (n - length old) 0)

overwritten_lem :
    (old : List ℕ) (off : ℕ) (bytes : List ℕ) (j : ℕ)
    → get_or (overwritten old off bytes) j 0 ≡ (
        if leb off j && ltb j (off + length bytes)
        then get_or bytes (j - off) 0
        else if ltb j (length old)
        then get_or old j 0
        else 0)
overwritten_lem old off bytes j =
    let pad = replicate (off + length bytes - length old) 0 in
    let fits : off + length bytes ≤ length (old ++ pad) =
      omega (arith, padded_length old (off + length bytes)) in
    get_or-blit (old ++ pad) off bytes j fits
    ∙ rw
        (
          get_or-append old pad j 0,
          get_or-replicate (off + length bytes - length old) (j - length old),
        )
        refl

same_byte :
    (s off n j b v : ℕ)
    → (if ltb j (if ltb s (off + n) then off + n else s)
        then (if leb off j && ltb j (off + n) then b else if leb s j && ltb j off then 0 else v)
        else 0)
      ≡ (if leb off j && ltb j (off + n)
          then b
          else if ltb j s
          then (if ltb j s then v else 0)
          else 0)
same_byte s off n j b v = ground arith

new_contents :
    (m : Memory) (w : Wnode) (bytes : List ℕ) (off : ℕ)
    → bytes_at (new_memory m w bytes off) w.data_at (new_size w.size bytes off)
      ≡ overwritten (bytes_at m w.data_at w.size) off bytes
new_contents m w bytes off =
    let old = bytes_at m w.data_at w.size in
    let l : length old ≡ w.size = length-bytes_at m w.data_at w.size in
    let new_length : new_size w.size bytes off ≡ w.size + (off + length bytes - w.size) =
      ground arith in
    let n = length-bytes_at (new_memory m w bytes off) w.data_at (new_size w.size bytes off) in
    let k : length (overwritten old off bytes) ≡ length old + (off + length bytes - length old) =
      length-blit (old ++ replicate (off + length bytes - length old) 0) off bytes
      ∙ padded_length old (off + length bytes) in
    list_ext (bytes_at (new_memory m w bytes off) w.data_at (new_size w.size bytes off))
      (overwritten old off bytes) 0 (omega (arith, n, new_length, k, l))
      (λ j lt.
        (get_or-bytes_at (new_memory m w bytes off) w.data_at (new_size w.size bytes off) j
          ∙ rw (new_memory_lem m w bytes off j) (
              same_byte w.size off (length bytes) j (get_or bytes (j - off) 0) (m (w.data_at + j))
              ∙ sym (
                  overwritten_lem old off bytes j
                  ∙ rw (l, get_or-bytes_at m w.data_at w.size j) refl))))

pub contents-put_bytes :
    (t : Tmpfs) (i : ℕ) (bytes : List ℕ) (off : ℕ)
    → i < length t.nodes
    → contents (put_bytes t i true bytes off).0 i ≡ overwritten (contents t i) off bytes
unfolding put_bytes
contents-put_bytes t i bytes off lt =
    let w = node_at t.nodes i in
    let m = new_memory t.arena.bytes w bytes off in
    elim (Bool-cases (ltb w.size (off + length bytes))) [
      | inl e ↦
          let n : off + length bytes ≡ new_size w.size bytes off = ground (arith, e) in
          rw e (
            rw (get_or-set_self t.nodes i (record w { size = off + length bytes }) zero_node lt) (
              bytes_at_same m w.data_at w.data_at (off + length bytes) (new_size w.size bytes off)
                refl n
              ∙ new_contents t.arena.bytes w bytes off))
      | inr e ↦
          let n : w.size ≡ new_size w.size bytes off = ground (arith, e) in
          rw e (
            bytes_at_same m w.data_at w.data_at w.size (new_size w.size bytes off) refl n
            ∙ new_contents t.arena.bytes w bytes off)
    ]

pub put_bytes_mode :
    (t : Tmpfs) (i : ℕ) (bytes : List ℕ) (off : ℕ)
    → i < length t.nodes
    → (node_at (put_bytes t i true bytes off).0.nodes i).mode ≡ (node_at t.nodes i).mode
unfolding put_bytes
put_bytes_mode t i bytes off lt =
    let w = node_at t.nodes i in
    elim (Bool-cases (ltb w.size (off + length bytes))) [
      | inl e ↦ rw e (
          rw (get_or-set_self t.nodes i (record w { size = off + length bytes }) zero_node lt) refl)
      | inr e ↦ rw e refl
    ]
