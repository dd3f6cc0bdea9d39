-- ===== src/Common/Bytes.antt =====
-- Byte memory: a function from addresses to bytes, and what `memcpy` reads and writes of it. A
-- buffer that a module owns is a list, which `blit` overwrites from an offset on.
use Prim.Native.Nat.{ℕ, zero, suc, ◌+◌, ◌-◌, ◌≤◌, ◌<◌, min}
use mathlib.Core.Path.{◌≡◌, refl, sym, subst, ◌∙◌, ap, ap₂}
use mathlib.Core.Bool.{◌&&◌}
use mathlib.Core.List.{List, [], ◌∷◌, ◌++◌}
use native.Mathlib.Omega.{arith}
use lxp.Common.Tests.{ltb, leb, if◌then◌else◌}
use lxp.Common.Lists.{length, get_or, take, drop, length-take}

abbrev pub Memory : Type 0
Memory = ℕ → ℕ

-- the `n` bytes at address `a`
unfoldable pub bytes_at : Memory → ℕ → ℕ → List ℕ
bytes_at m a zero = []
bytes_at m a (suc n) = m a ∷ bytes_at m (a + 1) n

-- the memory after `bytes` are written at address `a`
unfoldable pub store : Memory → ℕ → List ℕ → Memory
store m a bytes j = if leb a j && ltb j (a + length bytes) then get_or bytes (j - a) 0 else m j

-- A write past the end is lost: the callers prove that they make none.
unfoldable pub blit : List ℕ → ℕ → List ℕ → List ℕ
blit [] off ys = []
blit (x ∷ xs) zero [] = x ∷ xs
blit (x ∷ xs) zero (y ∷ ys) = y ∷ blit xs zero ys
blit (x ∷ xs) (suc off) ys = x ∷ blit xs off ys

pub length-bytes_at : (m : Memory) (a n : ℕ) → length (bytes_at m a n) ≡ n
unfolding bytes_at
length-bytes_at m a zero = refl
length-bytes_at m a (suc n) = ap suc (length-bytes_at m (a + 1) n)

pub length-blit : (xs : List ℕ) (off : ℕ) (ys : List ℕ) → length (blit xs off ys) ≡ length xs
unfolding blit
length-blit [] off ys = refl
length-blit (x ∷ xs) zero [] = refl
length-blit (x ∷ xs) zero (y ∷ ys) = ap suc (length-blit xs zero ys)
length-blit (x ∷ xs) (suc off) ys = ap suc (length-blit xs off ys)

-- What stands where after a `blit` that fits.
pub get_or-blit :
    (xs : List ℕ) (off : ℕ) (ys : List ℕ) (i : ℕ)
    → off + length ys ≤ length xs
    → get_or (blit xs off ys) i 0
      ≡ (if leb off i && ltb i (off + length ys) then get_or ys (i - off) 0 else get_or xs i 0)
unfolding blit
get_or-blit [] off ys i h = ground arith
get_or-blit (x ∷ xs) zero [] i h = ground arith
get_or-blit (x ∷ xs) zero (y ∷ ys) zero h = ground arith
get_or-blit (x ∷ xs) zero (y ∷ ys) (suc i) h = ground (arith, get_or-blit xs zero ys i)
get_or-blit (x ∷ xs) (suc off) ys zero h = ground arith
get_or-blit (x ∷ xs) (suc off) ys (suc i) h = ground (arith, get_or-blit xs off ys i)

module _ {ℓ} {A : Type ℓ} where
  pub get_or-take :
      (n : ℕ) (xs : List A) (i : ℕ) (d : A)
      → get_or (take n xs) i d ≡ (if ltb i n then get_or xs i d else d)
  get_or-take zero xs i d = ground arith
  get_or-take (suc n) [] i d = ground arith
  get_or-take (suc n) (x ∷ xs) zero d = ground arith
  get_or-take (suc n) (x ∷ xs) (suc i) d = ground (arith, get_or-take n xs i d)

  pub get_or-drop :
      (n : ℕ) (xs : List A) (i : ℕ) (d : A) → get_or (drop n xs) i d ≡ get_or xs (n + i) d
  get_or-drop zero xs i d = ground arith
  get_or-drop (suc n) [] i d = ground arith
  get_or-drop (suc n) (x ∷ xs) i d = ground (arith, get_or-drop n xs i d)

  pub get_or-append :
      (xs ys : List A) (i : ℕ) (d : A)
      → get_or (xs ++ ys) i d
        ≡ (if ltb i (length xs) then get_or xs i d else get_or ys (i - length xs) d)
  get_or-append [] ys i d = ground arith
  get_or-append (x ∷ xs) ys zero d = ground arith
  get_or-append (x ∷ xs) ys (suc i) d = ground (arith, get_or-append xs ys i d)

  -- Lists of one length with the same elements are equal.
  pub list_ext :
      (xs ys : List A) (d : A)
      → length xs ≡ length ys
      → ((i : ℕ) → i < length xs → get_or xs i d ≡ get_or ys i d)
      → xs ≡ ys
  list_ext [] [] d e h = refl
  list_ext [] (y ∷ ys) d e h = absurd (omega arith)
  list_ext (x ∷ xs) [] d e h = absurd (omega arith)
  list_ext (x ∷ xs) (y ∷ ys) d e h =
      ap₂ ◌∷◌ (h 0 (omega arith)) (list_ext xs ys d (omega arith) (λ i lt. h (suc i) (omega arith)))

pub get_or-bytes_at :
    (m : Memory) (a n i : ℕ) → get_or (bytes_at m a n) i 0 ≡ (if ltb i n then m (a + i) else 0)
unfolding bytes_at
get_or-bytes_at m a zero i = ground arith
get_or-bytes_at m a (suc n) zero = ground arith
get_or-bytes_at m a (suc n) (suc i) =
    let e : a + 1 + i ≡ a + suc i = omega arith in
    get_or-bytes_at m (a + 1) n i
    ∙ subst (λ x. (if ltb i n then m x else 0) ≡ (if ltb (suc i) (suc n) then m (a + suc i) else 0))
        (sym e) (ground arith)

pub bytes_at_same : (m : Memory) (a b n k : ℕ) → a ≡ b → n ≡ k → bytes_at m a n ≡ bytes_at m b k
bytes_at_same m a b n k e f = ap₂ (bytes_at m) e f

pub drop-bytes_at : (m : Memory) (k a n : ℕ) → drop k (bytes_at m a n) ≡ bytes_at m (a + k) (n - k)
unfolding bytes_at
drop-bytes_at m zero a n = bytes_at_same m a (a + 0) n (n - 0) (omega arith) (omega arith)
drop-bytes_at m (suc k) a zero =
    bytes_at_same m (a + suc k) (a + suc k) 0 (0 - suc k) refl (omega arith)
drop-bytes_at m (suc k) a (suc n) =
    drop-bytes_at m k (a + 1) n
    ∙ bytes_at_same m (a + 1 + k) (a + suc k) (n - k) (suc n - suc k) (omega arith) (omega arith)

pub take-bytes_at : (m : Memory) (k a n : ℕ) → take k (bytes_at m a n) ≡ bytes_at m a (min n k)
unfolding bytes_at
take-bytes_at m zero a n = bytes_at_same m a a 0 (min n 0) refl (omega arith)
take-bytes_at m (suc k) a zero = bytes_at_same m a a 0 (min 0 (suc k)) refl (omega arith)
take-bytes_at m (suc k) a (suc n) =
    ap (◌∷◌ (m a)) (take-bytes_at m k (a + 1) n)
    ∙ bytes_at_same m a a (suc (min n k)) (min (suc n) (suc k)) refl (omega arith)

-- What stands at the address of a write.
pub take-bytes_at-store :
    (m : Memory) (a : ℕ) (ys : List ℕ) (n : ℕ)
    → n ≤ length ys
    → bytes_at (store m a ys) a n ≡ take n ys
unfolding store
take-bytes_at-store m a ys n le =
    let l = length-bytes_at (store m a ys) a n in
    list_ext (bytes_at (store m a ys) a n) (take n ys) 0 (omega (arith, l, length-take n ys, le))
      (λ i lt.
        (let at : a + i - a ≡ i = omega arith in
          let inside : i < n = omega (arith, lt, l) in
          get_or-bytes_at (store m a ys) a n i
          ∙ rw (get_or-take n ys i 0) (rw at (ground (arith, inside, le)))))
