-- ===== src/Path/Child.antt =====
-- The tests of src/fs/lxp_path.c on the path of a directory's child.
use Prim.Native.Nat.{bit_xor}
use lxp.Common.{
  ◌*◌, ◌%◌, ◌^◌, ℕ, ◌≡◌, refl, inl, inr, true, some, List, [], ◌∷◌, ◌++◌, arith, ==_self,
  if◌then◌else◌, length, Bool-cases,
}
use lxp.Path.{slash, is_root, no_slash, behind, path_under, one_name, path_child_name, path_hash}

-- A name that a directory can hold.
unfoldable pub Name : List ℕ → Type 0
Name [] = ⊥
Name (c ∷ cs) = no_slash (c ∷ cs) ≡ true

-- the path of `name` in `dir`
unfoldable pub child_path : List ℕ → List ℕ → List ℕ
child_path dir name = if is_root dir then slash ∷ name else dir ++ slash ∷ name

pub behind-append : (xs ys : List ℕ) → behind xs (xs ++ ys) ≡ some ys
unfolding behind
behind-append [] ys = refl
behind-append (x ∷ xs) ys = rw (==_self x) (behind-append xs ys)

one_name-Name : (name : List ℕ) → Name name → one_name name ≡ some name
unfolding Name
one_name-Name [] h = absurd h
one_name-Name (c ∷ cs) h = rw h refl

-- A directory's child is found under the name that its path was made with, and its path lies under
-- the directory's, the whole of which is the matching prefix.
pub child_path_lem :
    (dir name : List ℕ)
    → Name name
    → (path_child_name dir (child_path dir name) ≡ some name)
      × (path_under (child_path dir name) dir ≡ length dir)
unfolding path_child_name path_under child_path
child_path_lem dir name h = elim (Bool-cases (is_root dir)) [
  | inl r ↦ rw r (one_name-Name name h, root_length dir r)
  | inr r ↦ rw r (rw (behind-append dir (slash ∷ name)) (one_name-Name name h, refl))
]
  where
    root_length : (d : List ℕ) → is_root d ≡ true → 1 ≡ length d
    root_length [] r = absurd (ground (arith, r))
    root_length (c ∷ []) r = refl
    root_length (c ∷ d ∷ ds) r = absurd (ground (arith, r))

-- A hash may be carried on: that of two strings one after the other is the hash of the second one,
-- started from the hash of the first.
pub path_hash-append :
    (xs ys : List ℕ) (hash : ℕ) → path_hash hash (xs ++ ys) ≡ path_hash (path_hash hash xs) ys
unfolding path_hash
path_hash-append [] ys hash = refl
path_hash-append (x ∷ xs) ys hash = path_hash-append xs ys (bit_xor hash x * 16777619 % 2 ^ 32)
