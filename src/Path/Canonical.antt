-- ===== src/Path/Canonical.antt =====
-- normalize_abs of src/fs/lxp_path.c against a stack of components.
use lxp.Common.{
  ℕ, zero, suc, ◌+◌, ◌≤◌, ◌≡◌, refl, ◌∙◌, ap, subst, true, false, List, [], ◌∷◌, ◌++◌, leb, ◌==◌,
  if◌then◌else◌, length, replicate, arith, Bool-cases, inl, inr, Result, ok, err,
}
use lxp.Errno.{enametoolong}
use lxp.Path.{slash, no_slash, at_boundary}
use lxp.Path.Normal.{
  skip_slashes, segment, behind_segment, is_dot, is_dot_dot, onto, drop_name, drop_slash, place,
}

-- A path as it is written: each component has a number of slashes more than the one before it.
abbrev pub Segments : Type 0
Segments = List (ℕ × List ℕ)

unfoldable pub IsWritten : Segments → Type 0
IsWritten [] = Unit
IsWritten ((k, c) ∷ ss) = (no_slash c ≡ true) × (1 ≤ length c) × IsWritten ss

-- the path with the components `ss` and `t` slashes behind the last of them
unfoldable pub written : Segments → ℕ → List ℕ
written [] t = replicate t slash
written ((k, c) ∷ ss) t = replicate (suc k) slash ++ (c ++ written ss t)

-- The components that are left, the last first: a dot is nothing, two dots take the last one away, and
-- a name is put on. A name for which there is no room in `outlen` bytes, with the others, their slashes
-- and the zero at the end, is an error.
abbrev pub width : List (List ℕ) → ℕ
width [] = 0
width (c ∷ st) = length c + 1 + width st

abbrev pub without_last : List (List ℕ) → List (List ℕ)
without_last [] = []
without_last (c ∷ st) = st

unfoldable pub push : ℕ → List ℕ → List (List ℕ) → Result (List (List ℕ))
push outlen c st =
    if is_dot c
    then ok st
    else if is_dot_dot c
    then ok (without_last st)
    else if leb outlen (width st + 1 + length c)
    then err enametoolong
    else ok (c ∷ st)

unfoldable pub stack : ℕ → Segments → List (List ℕ) → Result (List (List ℕ))
stack outlen [] st = ok st
stack outlen ((k, c) ∷ ss) st = elim (push outlen c st) [
  | err e ↦ err e
  | ok st' ↦ stack outlen ss st'
]

-- the path of a stack, its last byte first
unfoldable pub shown : List (List ℕ) → List ℕ
unfolding onto
shown [] = []
shown (c ∷ st) = onto c (slash ∷ shown st)

unfoldable pub AllNames : List (List ℕ) → Type 0
AllNames [] = Unit
AllNames (c ∷ st) = (no_slash c ≡ true) × AllNames st

pub skip_slashes-replicate :
    (k : ℕ) (s : List ℕ) → skip_slashes (replicate k slash ++ s) ≡ skip_slashes s
unfolding skip_slashes
skip_slashes-replicate zero s = refl
skip_slashes-replicate (suc k) s = skip_slashes-replicate k s

pub segment_whole : (c r : List ℕ) → no_slash c ≡ true → at_boundary r ≡ true → segment (c ++ r) ≡ c
unfolding segment no_slash
segment_whole [] [] e b = refl
segment_whole [] (x ∷ r) e b = ground (arith, b)
segment_whole (x ∷ c) r e b =
    let test : (x == slash) ≡ false = ground (arith, e) in
    rw test (ap (◌∷◌ x) (segment_whole c r (ground (arith, e)) b))

pub behind_segment_rest :
    (c r : List ℕ) → no_slash c ≡ true → at_boundary r ≡ true → behind_segment (c ++ r) ≡ r
unfolding behind_segment no_slash
behind_segment_rest [] [] e b = refl
behind_segment_rest [] (x ∷ r) e b = ground (arith, b)
behind_segment_rest (x ∷ c) r e b =
    let test : (x == slash) ≡ false = ground (arith, e) in
    rw test (behind_segment_rest c r (ground (arith, e)) b)

pub length-onto : (c out : List ℕ) → length (onto c out) ≡ length c + length out
unfolding onto
length-onto [] out = omega arith
length-onto (x ∷ c) out = length-onto c (x ∷ out) ∙ omega arith

pub length-shown : (st : List (List ℕ)) → length (shown st) ≡ width st
unfolding shown
length-shown [] = refl
length-shown (c ∷ st) = length-onto c (slash ∷ shown st) ∙ omega (arith, length-shown st)

drop_name-onto : (c out : List ℕ) → no_slash c ≡ true → drop_name (onto c out) ≡ drop_name out
unfolding drop_name onto no_slash
drop_name-onto [] out e = refl
drop_name-onto (x ∷ c) out e =
    let test : (x == slash) ≡ false = ground (arith, e) in
    drop_name-onto c (x ∷ out) (ground (arith, e)) ∙ rw test refl

drop_last :
    (st : List (List ℕ)) → AllNames st → drop_slash (drop_name (shown st)) ≡ shown (without_last st)
unfolding shown AllNames drop_slash drop_name
drop_last [] names = refl
drop_last (c ∷ st) (name, names) = ap drop_slash (drop_name-onto c (slash ∷ shown st) name)

abbrev pub shown_result : Result (List (List ℕ)) → Result (List ℕ)
shown_result (err e) = err e
shown_result (ok st) = ok (shown st)

without_last-AllNames : (st : List (List ℕ)) → AllNames st → AllNames (without_last st)
unfolding AllNames
without_last-AllNames [] names = names
without_last-AllNames (c ∷ st) (name, names) = names

pub place-push :
    (outlen : ℕ) (c : List ℕ) (st : List (List ℕ))
    → AllNames st
    → place outlen c (shown st) ≡ shown_result (push outlen c st)
unfolding place push
place-push outlen c st names = elim (Bool-cases (is_dot c)) [
  | inl e ↦ rw e refl
  | inr e ↦ elim (Bool-cases (is_dot_dot c)) [
    | inl f ↦ rw e (rw f (ap ok (drop_last st names)))
    | inr f ↦ elim (Bool-cases (leb outlen (width st + 1 + length c))) [
      | inl g ↦ rw e (rw f (rw (length-shown st) (rw g refl)))
      | inr g ↦ rw e (rw f (rw (length-shown st) (rw g (unfold shown in refl))))
    ]
  ]
]

pub push-AllNames :
    (outlen : ℕ) (c : List ℕ) (st st' : List (List ℕ))
    → no_slash c ≡ true
    → AllNames st
    → push outlen c st ≡ ok st'
    → AllNames st'
unfolding push AllNames
push-AllNames outlen c st st' name names e = elim (Bool-cases (is_dot c)) [
  | inl f ↦ subst AllNames (ground (arith, e, f)) names
  | inr f ↦ elim (Bool-cases (is_dot_dot c)) [
    | inl g ↦ subst AllNames (ground (arith, e, f, g)) (without_last-AllNames st names)
    | inr g ↦ elim (Bool-cases (leb outlen (width st + 1 + length c))) [
      | inl h ↦ absurd (ground (arith, e, f, g, h))
      | inr h ↦
          let is : c ∷ st ≡ st' = ground (arith, e, f, g, h) in subst AllNames is (name, names)
    ]
  ]
]
