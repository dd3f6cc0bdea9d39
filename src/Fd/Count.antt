-- ===== src/Fd/Count.antt =====
-- How many descriptors of tables name a description.
use lxp.Common.{
  ℕ, zero, suc, ◌+◌, ◌≤◌, ◌<◌, ◌≡◌, refl, List, [], ◌∷◌, arith, ◌==◌, if◌then◌else◌, length, get_or,
  set,
}
use lxp.Fd.{Fd, Files, free_fd, no_files}

-- 1 for an entry that names `o`
abbrev pub names : ℕ → Fd → ℕ
names o e = if e.ofd == o then 1 else 0

unfoldable pub names_in : ℕ → List Fd → ℕ
names_in o [] = 0
names_in o (e ∷ es) = names o e + names_in o es

unfoldable pub total : ℕ → List Files → ℕ
total o [] = 0
total o (f ∷ fs) = names_in o f.fd + total o fs

-- how many entries tables have
unfoldable pub cells : List Files → ℕ
cells [] = 0
cells (f ∷ fs) = length f.fd + cells fs

pub names_in_le : (o : ℕ) (es : List Fd) → names_in o es ≤ length es
unfolding names_in
names_in_le o [] = omega arith
names_in_le o (e ∷ es) = ground (arith, names_in_le o es)

pub total_le : (o : ℕ) (fs : List Files) → total o fs ≤ cells fs
unfolding total cells
total_le o [] = omega arith
total_le o (f ∷ fs) = omega (arith, names_in_le o f.fd, total_le o fs)

pub names_in-set :
    (o : ℕ) (es : List Fd) (i : ℕ) (e : Fd)
    → i < length es
    → names_in o (set es i e) + names o (get_or es i free_fd) ≡ names_in o es + names o e
unfolding names_in
names_in-set o [] i e h = absurd (omega arith)
names_in-set o (x ∷ es) zero e h = omega arith
names_in-set o (x ∷ es) (suc i) e h = omega (arith, names_in-set o es i e (omega arith))

pub total-set :
    (o : ℕ) (fs : List Files) (t : ℕ) (f : Files)
    → t < length fs
    → total o (set fs t f) + names_in o (get_or fs t no_files).fd ≡ total o fs + names_in o f.fd
unfolding total
total-set o [] t f h = absurd (omega arith)
total-set o (x ∷ fs) zero f h = omega arith
total-set o (x ∷ fs) (suc t) f h = omega (arith, total-set o fs t f (omega arith))

pub cells-set :
    (fs : List Files) (t : ℕ) (f : Files)
    → length f.fd ≡ length (get_or fs t no_files).fd
    → cells (set fs t f) ≡ cells fs
unfolding cells
cells-set [] t f h = refl
cells-set (x ∷ fs) zero f h = omega (arith, h)
cells-set (x ∷ fs) (suc t) f h = omega (arith, cells-set fs t f h)

-- An entry that names `o` is counted.
pub names_in-get_or :
    (es : List Fd) (i : ℕ) → i < length es → 1 ≤ names_in (get_or es i free_fd).ofd es
unfolding names_in
names_in-get_or [] i h = absurd (omega arith)
names_in-get_or (x ∷ es) zero h = ground arith
names_in-get_or (x ∷ es) (suc i) h = omega (arith, names_in-get_or es i (omega arith))

pub total-get_or :
    (o : ℕ) (fs : List Files) (t : ℕ)
    → t < length fs
    → names_in o (get_or fs t no_files).fd ≤ total o fs
unfolding total
total-get_or o [] t h = absurd (omega arith)
total-get_or o (x ∷ fs) zero h = omega arith
total-get_or o (x ∷ fs) (suc t) h = omega (arith, total-get_or o fs t (omega arith))
