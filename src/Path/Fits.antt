-- ===== src/Path/Fits.antt =====
-- normalize_abs of src/fs/lxp_path.c stays inside its output.
use lxp.Common.{
  ℕ, zero, suc, ◌+◌, ◌≤◌, ◌<◌, List, [], ◌∷◌, leb, ◌==◌, length, arith, Bool-cases, inl, inr,
  Result, ok, err,
}
use lxp.Path.{slash}
use lxp.Path.Normal.{
  skip_slashes, segment, behind_segment, is_dot, is_dot_dot, onto, drop_name, drop_slash, place,
  round, walk, finished, normalize_abs,
}
use lxp.Path.Canonical.{length-onto}
use lxp.Path.Resolved.{rest_with, continued, answered}

length-drop_name : (out : List ℕ) → length (drop_name out) ≤ length out
unfolding drop_name
length-drop_name [] = omega arith
length-drop_name (c ∷ out) = elim (Bool-cases (c == slash)) [
  | inl e ↦ rw e (omega arith)
  | inr e ↦ rw e (omega (arith, length-drop_name out))
]

length-drop_slash : (out : List ℕ) → length (drop_slash out) ≤ length out
unfolding drop_slash
length-drop_slash [] = omega arith
length-drop_slash (c ∷ out) = omega arith

-- an answer that is shorter than `outlen`, if it is not an error
pub FitsIn : ℕ → Result (List ℕ) → Type 0
FitsIn outlen (ok out) = length out < outlen
FitsIn outlen (err e) = Unit

place-FitsIn :
    (outlen : ℕ) (seg out : List ℕ) → length out < outlen → FitsIn outlen (place outlen seg out)
unfolding place FitsIn
place-FitsIn outlen seg out lt = elim (Bool-cases (is_dot seg)) [
  | inl e ↦ rw e lt
  | inr e ↦ elim (Bool-cases (is_dot_dot seg)) [
    | inl f ↦
        rw e (rw f (omega (arith, lt, length-drop_slash (drop_name out), length-drop_name out)))
    | inr f ↦ elim (Bool-cases (leb outlen (length out + 1 + length seg))) [
      | inl g ↦ rw e (rw f (rw g tt))
      | inr g ↦
          let room : length out + 1 + length seg < outlen = ground (arith, g) in
          rw e (rw f (rw g (omega (arith, room, length-onto seg (slash ∷ out)))))
    ]
  ]
]

-- the same of a round's answer
RoundFits : ℕ → Result (List ℕ × List ℕ) → Type 0
RoundFits outlen (ok (rest, out)) = length out < outlen
RoundFits outlen (err e) = Unit

rest_with-RoundFits :
    (outlen : ℕ) (rest : List ℕ) (p : Result (List ℕ))
    → FitsIn outlen p
    → RoundFits outlen (rest_with rest p)
unfolding FitsIn RoundFits
rest_with-RoundFits outlen rest (err e) fits = tt
rest_with-RoundFits outlen rest (ok out) fits = fits

round-RoundFits :
    (outlen : ℕ) (s out : List ℕ) → length out < outlen → RoundFits outlen (round outlen s out)
unfolding round RoundFits
round-RoundFits outlen [] out lt = lt
round-RoundFits outlen (c ∷ cs) out lt =
    rest_with-RoundFits outlen (behind_segment (c ∷ cs)) (place outlen (segment (c ∷ cs)) out)
      (place-FitsIn outlen (segment (c ∷ cs)) out lt)

continued-FitsIn :
    (n outlen : ℕ) (r : Result (List ℕ × List ℕ))
    → RoundFits outlen r
    → ((rest out : List ℕ) → length out < outlen → FitsIn outlen (walk n outlen rest out))
    → FitsIn outlen (continued n outlen r)
unfolding FitsIn RoundFits
continued-FitsIn n outlen (err e) fits later = tt
continued-FitsIn n outlen (ok (rest, out)) fits later = later rest out fits

walk-FitsIn :
    (n outlen : ℕ) (s out : List ℕ) → length out < outlen → FitsIn outlen (walk n outlen s out)
unfolding walk FitsIn
walk-FitsIn zero outlen s out lt = lt
walk-FitsIn (suc n) outlen s out lt =
    continued-FitsIn n outlen (round outlen (skip_slashes s) out)
      (round-RoundFits outlen (skip_slashes s) out lt)
      (λ rest out' lt'. walk-FitsIn n outlen rest out' lt')

length-finished :
    (out : List ℕ) (outlen : ℕ) → 2 ≤ outlen → length out < outlen → length (finished out) < outlen
unfolding finished onto
length-finished [] outlen room lt = omega arith
length-finished (c ∷ out) outlen room lt = omega (arith, lt, length-onto out (c ∷ []))

answered-FitsIn :
    (outlen : ℕ) → 2 ≤ outlen → (r : Result (List ℕ)) → FitsIn outlen r → FitsIn outlen (answered r)
unfolding FitsIn
answered-FitsIn outlen room (err e) fits = tt
answered-FitsIn outlen room (ok out) fits = length-finished out outlen room fits

-- Whatever the path, the output of `normalize_abs` with its terminating zero has at most `outlen`
-- bytes, where there is room for the root.
pub normalize_abs-FitsIn :
    (s : List ℕ) (outlen : ℕ) → 2 ≤ outlen → FitsIn outlen (normalize_abs s outlen)
unfolding normalize_abs
normalize_abs-FitsIn s outlen room =
    answered-FitsIn outlen room (walk (length s) outlen s [])
      (walk-FitsIn (length s) outlen s [] (omega (arith, room)))
