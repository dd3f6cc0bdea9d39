-- ===== src/Pipe/Pool.antt =====
-- The pool of pipes: a pipe that is handed out is fresh, and no call touches another pipe.
use lxp.Common.{
  ℕ, zero, suc, ◌+◌, ◌<◌, ◌≡◌, ◌≢◌, refl, ap, inl, inr, Bool, true, false, Option, none, some, List,
  [], ◌∷◌, arith, if◌then◌else◌, length, set, get_or-set_ne, Bool-cases, All,
}
use lxp.Common.Int.{pos}
use lxp.Pipe.{Pipe, at, zeroed, alloc_from, alloc, end_open, end_close, discard}

-- What `alloc_from` answers for the pipes `pool`, the first of which has index `i`.
pub data Allocated (size i : ℕ) (pool : List Pipe) (o : Option ℕ) (pool' : List Pipe) : Type 0 where
  full : o ≡ none → pool' ≡ pool → All (λ p. p.used ≡ true) pool → Allocated size i pool o pool'
  taken :
      (k : ℕ)
      → o ≡ some (i + k)
      → k < length pool
      → (at pool k).used ≡ false
      → ((j : ℕ) → j < k → (at pool j).used ≡ true)
      → pool' ≡ set pool k (record (zeroed size) { used = true })
      → Allocated size i pool o pool'

Allocated-cons :
    (size i : ℕ) (p : Pipe) (pool : List Pipe) (o : Option ℕ) (pool' : List Pipe)
    → p.used ≡ true
    → Allocated size (i + 1) pool o pool'
    → Allocated size i (p ∷ pool) o (p ∷ pool')
Allocated-cons size i p pool o pool' u (Allocated.full e f a) =
    Allocated.full e (ap (◌∷◌ p) f) (u, a)
Allocated-cons size i p pool o pool' u (Allocated.taken k e lt free before f) =
    Allocated.taken (suc k) (rw e (ap some (omega arith))) (omega arith) free below (ap (◌∷◌ p) f)
  where
    below : (j : ℕ) → j < suc k → (at (p ∷ pool) j).used ≡ true
    below zero h = u
    below (suc j) h = before j (omega arith)

alloc_from_used :
    (size i : ℕ) (p : Pipe) (pool : List Pipe)
    → p.used ≡ true
    → alloc_from size i (p ∷ pool)
      ≡ ((alloc_from size (i + 1) pool).0, p ∷ (alloc_from size (i + 1) pool).1)
unfolding alloc_from
alloc_from_used size i p pool u = ground arith

alloc_from_free :
    (size i : ℕ) (p : Pipe) (pool : List Pipe)
    → p.used ≡ false
    → alloc_from size i (p ∷ pool) ≡ (some i, record (zeroed size) { used = true } ∷ pool)
unfolding alloc_from
alloc_from_free size i p pool u = ground arith

alloc_from-Allocated :
    (size i : ℕ) (pool : List Pipe)
    → Allocated size i pool (alloc_from size i pool).0 (alloc_from size i pool).1
alloc_from-Allocated size i [] = unfold alloc_from in Allocated.full refl refl tt
alloc_from-Allocated size i (p ∷ pool) = elim (Bool-cases p.used) [
  | inl u ↦
      rw (alloc_from_used size i p pool u)
        (Allocated-cons size i p pool _ _ u (alloc_from-Allocated size (i + 1) pool))
  | inr u ↦
      rw (alloc_from_free size i p pool u) (
        Allocated.taken 0 (ap some (omega arith)) (omega arith) u (λ j h. absurd (omega arith))
          refl)
]

-- `lxp_pipe_alloc` answers the lowest index whose pipe is free, and puts there an empty pipe with
-- no open ends, leaving all others; it fails, changing nothing, only if every pipe is in use.
pub alloc-Allocated :
    (size : ℕ) (pool : List Pipe) → Allocated size 0 pool (alloc size pool).0 (alloc size pool).1
unfolding alloc
alloc-Allocated size pool = alloc_from-Allocated size 0 pool

at_guarded :
    (b : Bool) (pool : List Pipe) (i j : ℕ) (p : Pipe)
    → i ≢ j
    → at (if b then pool else set pool i p) j ≡ at pool j
at_guarded true pool i j p n = refl
at_guarded false pool i j p n = get_or-set_ne pool i j p (zeroed 0) n

at_guarded' :
    (b : Bool) (pool : List Pipe) (i j : ℕ) (p : Pipe)
    → i ≢ j
    → at (if b then set pool i p else pool) j ≡ at pool j
at_guarded' true pool i j p n = get_or-set_ne pool i j p (zeroed 0) n
at_guarded' false pool i j p n = refl

-- Opening or closing an end of one pipe, or discarding it, leaves every other pipe as it is.
pub other_pipes_kept :
    (size : ℕ) (pool : List Pipe) (i j : ℕ) (e : Bool)
    → i ≢ j
    → (at (end_open pool (pos i) e) j ≡ at pool j)
      × (at (end_close size pool (pos i) e) j ≡ at pool j)
      × (at (discard size pool (pos i)) j ≡ at pool j)
unfolding end_open end_close discard
other_pipes_kept size pool i j e n =
    (at_guarded _ pool i j _ n, at_guarded _ pool i j _ n, at_guarded' _ pool i j _ n)
