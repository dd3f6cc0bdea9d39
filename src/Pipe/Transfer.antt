-- ===== src/Pipe/Transfer.antt =====
-- The ring of a pipe, with its counters, is the bounded queue of the bytes written and not yet
-- read.
use native.Mathlib.Nat.{mod-eq_of_lt}
use mathlib.Core.Path.{ap₂}
use lxp.Common.{
  ℕ, ◌+◌, ◌-◌, ◌%◌, ◌<◌, min, ◌≡◌, refl, sym, ap, ◌∙◌, inl, inr, Bool, true, false, List, [], ◌∷◌,
  ◌++◌, arith, ◌==◌, ◌&&◌, ◌||◌, if◌then◌else◌, length, set, take, drop, replicate, length-set,
  get_or-set_self, length-replicate, Bool-cases, ok,
}
use lxp.Common.Int.{pos}
use lxp.Ring.{Ring, read, write}
use lxp.Ring.Queue.{Holds, read_lem, write_lem}
use lxp.Pipe.{Pipe, at, zeroed, up, down, drop_unused, end_open, end_close, try_read, try_write}
use lxp.Pipe.Queue.{
  Channel, Op, reads, writes, opens, closes, Reply, gone, drop_gone, get, put, open_end, close_end,
}
use lxp.Pipe.Queue

-- The pipe `p` holds what the channel `c` holds.
pub record Sim (size : ℕ) (p : Pipe) (c : Channel) : Type 0 where
  pub ring : Holds p.buf size p.rpos c.bytes
  pub count : p.count ≡ length c.bytes
  pub end : p.wpos ≡ (p.rpos + length c.bytes) % size
  pub readers : p.readers ≡ c.readers
  pub writers : p.writers ≡ c.writers
  pub used : p.used ≡ c.used

-- One operation on the pipe of index `i`.
unfoldable pub step : ℕ → List Pipe → ℕ → Op → Reply × List Pipe
step size pool i (reads len) =
    let (r, bytes, p) = try_read size (at pool i) len in ((r, bytes), set pool i p)
step size pool i (writes src) =
    let (r, p) = try_write size (at pool i) src in ((r, []), set pool i p)
step size pool i (opens e) = ((ok 0, []), end_open pool (pos i) e)
step size pool i (closes e) = ((ok 0, []), end_close size pool (pos i) e)

unfoldable pub run : ℕ → List Pipe → ℕ → List Op → List Reply
run size pool i [] = []
run size pool i (op ∷ ops) = let (r, pool') = step size pool i op in r ∷ run size pool' i ops

-- the ring that a read is handed, and the one that a write is
abbrev front : ℕ → Pipe → Ring
front size p = record { buf = p.buf; cap = size; at = p.rpos; count = p.count }

abbrev back : ℕ → Pipe → Ring
back size p = record { buf = p.buf; cap = size; at = p.wpos; count = p.count }

read_empty :
    (size : ℕ) (p : Pipe) (c : Channel) (len : ℕ)
    → Sim size p c
    → (length c.bytes == 0) ≡ true
    → ((try_read size p len).0 ≡ (get c len).0.0)
      × ((try_read size p len).1 ≡ (get c len).0.1)
      × ((try_read size p len).2 ≡ p)
      × ((get c len).1 ≡ c)
unfolding try_read get
read_empty size p c len s e = ground arith

read_some :
    (size : ℕ) (p : Pipe) (c : Channel) (len : ℕ)
    → Sim size p c
    → (length c.bytes == 0) ≡ false
    → let (n, bytes, r) = read (front size p) len in
      (try_read size p len ≡ (ok n, bytes, record p { rpos = r.at; count = r.count }))
      × (get c len ≡ (
        (ok (min len (length c.bytes)), take (min len (length c.bytes)) c.bytes),
        record c { bytes = drop (min len (length c.bytes)) c.bytes },
      ))
      × (r.buf ≡ p.buf)
unfolding try_read get read
read_some size p c len s e = ground arith

try_read-Sim :
    (size : ℕ) (p : Pipe) (c : Channel) (len : ℕ)
    → Sim size p c
    → let (r, bytes, p') = try_read size p len in
      (((r, bytes) ≡ (get c len).0) × Sim size p' (get c len).1)
unfolding read
try_read-Sim size p c len s = elim (Bool-cases (length c.bytes == 0)) [
  | inl e ↦ let f = read_empty size p c len s e in rw (f.2, f.3) (cc (f.0, f.1), s)
  | inr e ↦
      let f = read_some size p c len s e in
      let l = read_lem (front size p) c.bytes len s.ring s.count in
      rw (f.0, f.1)
        (
          cc (l.0, l.1),
          record {
            ring = l.2;
            count = l.3;
            end = s.end ∙ sym l.4;
            readers = s.readers;
            writers = s.writers;
            used = s.used;
          },
        )
]

write_refused :
    (size : ℕ) (p : Pipe) (c : Channel) (src : List ℕ)
    → Sim size p c
    → (c.readers == 0 || length c.bytes == size) ≡ true
    → ((try_write size p src).0 ≡ (put size c src).0.0)
      × ((put size c src).0.1 ≡ [])
      × ((try_write size p src).1 ≡ p)
      × ((put size c src).1 ≡ c)
unfolding try_write put
write_refused size p c src s e = ground arith

write_taken :
    (size : ℕ) (p : Pipe) (c : Channel) (src : List ℕ)
    → Sim size p c
    → (c.readers == 0 || length c.bytes == size) ≡ false
    → let (n, r) = write (back size p) src in
      let m = min (length src) (size - length c.bytes) in
      (try_write size p src ≡ (ok n, record p { buf = r.buf; wpos = r.at; count = r.count }))
      × (put size c src ≡ ((ok m, []), record c { bytes = c.bytes ++ take m src }))
unfolding try_write put
write_taken size p c src s e = ground arith

try_write-Sim :
    (size : ℕ) (p : Pipe) (c : Channel) (src : List ℕ)
    → Sim size p c
    → let (r, p') = try_write size p src in
      (((r, []) ≡ (put size c src).0) × Sim size p' (put size c src).1)
try_write-Sim size p c src s = elim (Bool-cases (c.readers == 0 || length c.bytes == size)) [
  | inl e ↦ let f = write_refused size p c src s e in rw (f.2, f.3) (cc (f.0, f.1), s)
  | inr e ↦
      let f = write_taken size p c src s e in
      let l = write_lem (back size p) p.rpos c.bytes src s.ring s.end s.count in
      rw (f.0, f.1)
        (
          cc l.0,
          record {
            ring = l.1;
            count = l.3;
            end = l.2;
            readers = s.readers;
            writers = s.writers;
            used = s.used;
          },
        )
]

Holds-nil : (size : ℕ) → 0 < size → Holds (replicate size 0) size 0 []
Holds-nil size h = record {
  size = length-replicate size 0;
  start = h;
  room = omega arith;
  cells = λ i lt. absurd (omega arith);
}

zeroed-Sim : (size : ℕ) → 0 < size → Sim size (zeroed size) gone
unfolding gone
zeroed-Sim size h = record {
  ring = Holds-nil size h;
  count = refl;
  end = sym (mod-eq_of_lt h);
  readers = refl;
  writers = refl;
  used = refl;
}

at-set : (pool : List Pipe) (i : ℕ) (p : Pipe) → i < length pool → at (set pool i p) i ≡ p
at-set pool i p h = get_or-set_self pool i p (zeroed 0) h

drop_unused-Sim :
    (size : ℕ) (p : Pipe) (c : Channel)
    → 0 < size
    → Sim size p c
    → Sim size (drop_unused size p) (drop_gone c)
unfolding drop_gone
drop_unused-Sim size p c h s = elim (Bool-cases (c.readers == 0 && c.writers == 0)) [
  | inl e ↦ rw (e, both (p.readers == 0) e) (zeroed-Sim size h)
  | inr e ↦ rw (e, other e) s
]
  where
    both :
        Bool → (c.readers == 0 && c.writers == 0) ≡ true → (p.readers == 0 && p.writers == 0) ≡ true
    both b e = ground (arith, s.readers, s.writers)

    other : (c.readers == 0 && c.writers == 0) ≡ false → (p.readers == 0 && p.writers == 0) ≡ false
    other e = ground (arith, s.readers, s.writers)

-- The same bytes under other counters of the ends.
Sim-ends :
    (size : ℕ) (p : Pipe) (c : Channel) (readers writers readers' writers' : ℕ)
    → Sim size p c
    → readers ≡ readers'
    → writers ≡ writers'
    → Sim size
        (record p { readers = readers; writers = writers })
        (record c { readers = readers'; writers = writers' })
Sim-ends size p c readers writers readers' writers' s er ew = record {
  ring = s.ring;
  count = s.count;
  end = s.end;
  readers = er;
  writers = ew;
  used = s.used;
}

open_used :
    (pool : List Pipe) (i : ℕ) (e : Bool)
    → i < length pool
    → (at pool i).used ≡ true
    → end_open pool (pos i) e
      ≡ set pool i (
          if e
          then record (at pool i) { writers = up (at pool i).writers }
          else record (at pool i) { readers = up (at pool i).readers })
unfolding end_open
open_used pool i e h u = ground arith

close_used :
    (size : ℕ) (pool : List Pipe) (i : ℕ) (e : Bool)
    → i < length pool
    → (at pool i).used ≡ true
    → end_close size pool (pos i) e
      ≡ set pool i (
          drop_unused size (
            if e
            then record (at pool i) { writers = down (at pool i).writers }
            else record (at pool i) { readers = down (at pool i).readers }))
unfolding end_close
close_used size pool i e h u = ground arith

ends_unused :
    (size : ℕ) (pool : List Pipe) (i : ℕ) (e : Bool)
    → (at pool i).used ≡ false
    → (end_open pool (pos i) e ≡ pool) × (end_close size pool (pos i) e ≡ pool)
unfolding end_open end_close
ends_unused size pool i e u = ground arith

channel_used :
    (c : Channel) (e : Bool)
    → c.used ≡ true
    → (open_end c e
        ≡ (if e then record c { writers = up c.writers } else record c { readers = up c.readers }))
      × (close_end c e
          ≡ drop_gone (
              if e
              then record c { writers = down c.writers }
              else record c { readers = down c.readers }))
unfolding open_end close_end
channel_used c e u = (ground arith, ground arith)

channel_unused :
    (c : Channel) (e : Bool) → c.used ≡ false → (open_end c e ≡ c) × (close_end c e ≡ c)
unfolding open_end close_end
channel_unused c e u = (ground arith, ground arith)

open-Sim :
    (size : ℕ) (pool : List Pipe) (i : ℕ) (c : Channel) (e : Bool)
    → i < length pool
    → Sim size (at pool i) c
    → Sim size (at (end_open pool (pos i) e) i) (open_end c e)
open-Sim size pool i c e h s = elim (Bool-cases c.used) [
  | inl u ↦
      rw ((channel_used c e u).0, open_used pool i e h (s.used ∙ u), at-set pool i _ h) (opened e)
  | inr u ↦ rw ((channel_unused c e u).0, (ends_unused size pool i e (s.used ∙ u)).0) s
]
  where
    opened :
        (e : Bool)
        → Sim size
            (if e
              then record (at pool i) { writers = up (at pool i).writers }
              else record (at pool i) { readers = up (at pool i).readers })
            (if e then record c { writers = up c.writers } else record c { readers = up c.readers })
    opened true = Sim-ends size (at pool i) c _ _ _ _ s s.readers (ap up s.writers)
    opened false = Sim-ends size (at pool i) c _ _ _ _ s (ap up s.readers) s.writers

close-Sim :
    (size : ℕ) (pool : List Pipe) (i : ℕ) (c : Channel) (e : Bool)
    → 0 < size
    → i < length pool
    → Sim size (at pool i) c
    → Sim size (at (end_close size pool (pos i) e) i) (close_end c e)
close-Sim size pool i c e z h s = elim (Bool-cases c.used) [
  | inl u ↦
      rw ((channel_used c e u).1, close_used size pool i e h (s.used ∙ u), at-set pool i _ h)
        (drop_unused-Sim size _ _ z (closed e))
  | inr u ↦ rw ((channel_unused c e u).1, (ends_unused size pool i e (s.used ∙ u)).1) s
]
  where
    closed :
        (e : Bool)
        → Sim size
            (if e
              then record (at pool i) { writers = down (at pool i).writers }
              else record (at pool i) { readers = down (at pool i).readers })
            (if e
              then record c { writers = down c.writers }
              else record c { readers = down c.readers })
    closed true = Sim-ends size (at pool i) c _ _ _ _ s s.readers (ap down s.writers)
    closed false = Sim-ends size (at pool i) c _ _ _ _ s (ap down s.readers) s.writers

-- One operation on a pipe of the pool gives the answer and the bytes that the queue gives, and
-- leaves the pipe holding what the queue then holds.
step-Sim :
    (size : ℕ) (pool : List Pipe) (i : ℕ) (c : Channel) (op : Op)
    → 0 < size
    → i < length pool
    → Sim size (at pool i) c
    → ((step size pool i op).0 ≡ (Queue.step size c op).0)
      × Sim size (at (step size pool i op).1 i) (Queue.step size c op).1
unfolding step
step-Sim size pool i c (reads len) z h s =
    let f = try_read-Sim size (at pool i) c len s in unfold Queue.step in rw (at-set pool i _ h) f
step-Sim size pool i c (writes src) z h s =
    let f = try_write-Sim size (at pool i) c src s in unfold Queue.step in rw (at-set pool i _ h) f
step-Sim size pool i c (opens e) z h s = unfold Queue.step in (refl, open-Sim size pool i c e h s)
step-Sim size pool i c (closes e) z h s =
    unfold Queue.step in (refl, close-Sim size pool i c e z h s)

length_guarded :
    (b : Bool) (pool : List Pipe) (i : ℕ) (p : Pipe)
    → length (if b then pool else set pool i p) ≡ length pool
length_guarded true pool i p = refl
length_guarded false pool i p = length-set pool i p

length-step :
    (size : ℕ) (pool : List Pipe) (i : ℕ) (op : Op) → length (step size pool i op).1 ≡ length pool
unfolding step end_open end_close
length-step size pool i (reads len) = length-set pool i _
length-step size pool i (writes src) = length-set pool i _
length-step size pool i (opens e) = length_guarded _ pool i _
length-step size pool i (closes e) = length_guarded _ pool i _

-- From a pipe of the pool that holds what a channel holds, no sequence of reads, writes, endpoint
-- openings and closings tells the ring buffer from the bounded queue: the answers are the same,
-- and so are the bytes that the reads hand out. This holds for every ring size but 0.
pub run_refines :
    (size : ℕ) (pool : List Pipe) (i : ℕ) (c : Channel) (ops : List Op)
    → 0 < size
    → i < length pool
    → Sim size (at pool i) c
    → run size pool i ops ≡ Queue.run size c ops
unfolding run Queue.run
run_refines size pool i c [] z h s = refl
run_refines size pool i c (op ∷ ops) z h s =
    let f = step-Sim size pool i c op z h s in
    ap₂ ◌∷◌ f.0 (
      run_refines size (step size pool i op).1 i (Queue.step size c op).1 ops z
        (omega (arith, length-step size pool i op)) f.1)
