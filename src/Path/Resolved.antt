-- ===== src/Path/Resolved.antt =====
-- normalize_abs of src/fs/lxp_path.c keeps a stack of components.
use lxp.Common.{
  ℕ, zero, suc, ◌≤◌, ◌≡◌, refl, ◌∙◌, ap, true, false, List, [], ◌∷◌, ◌++◌, ◌==◌, length,
  length-append, length-replicate, replicate, arith, append-nil, Result, ok, err,
}
use lxp.Path.{slash, no_slash, at_boundary}
use lxp.Path.Normal.{
  skip_slashes, behind_segment, onto, place, round, walk, finished, normalize_abs,
}
use lxp.Path.Canonical.{
  Segments, IsWritten, written, push, stack, shown, AllNames, shown_result, skip_slashes-replicate,
  segment_whole, behind_segment_rest, length-shown, place-push, push-AllNames,
}

skip_slashes_all : (t : ℕ) → skip_slashes (replicate t slash) ≡ []
unfolding skip_slashes
skip_slashes_all zero = refl
skip_slashes_all (suc t) = skip_slashes_all t

walk_done : (n outlen t : ℕ) (out : List ℕ) → walk n outlen (replicate t slash) out ≡ ok out
unfolding walk round
walk_done zero outlen t out = refl
walk_done (suc n) outlen t out = rw (skip_slashes_all t, walk, round) (walk_done n outlen 0 out)

written_boundary : (ss : Segments) (t : ℕ) → at_boundary (written ss t) ≡ true
unfolding written
written_boundary [] zero = refl
written_boundary [] (suc t) = refl
written_boundary ((k, c) ∷ ss) t = refl

skip_slashes_name :
    (c r : List ℕ) → no_slash c ≡ true → 1 ≤ length c → skip_slashes (c ++ r) ≡ c ++ r
unfolding skip_slashes no_slash
skip_slashes_name [] r e some_byte = absurd (omega (arith, some_byte))
skip_slashes_name (x ∷ c) r e some_byte =
    let test : (x == slash) ≡ false = ground (arith, e) in rw test refl

-- what a round answers after the component was placed
abbrev pub rest_with : List ℕ → Result (List ℕ) → Result (List ℕ × List ℕ)
rest_with r (err e) = err e
rest_with r (ok out) = ok (r, out)

round_segment :
    (outlen : ℕ) (c r out : List ℕ)
    → no_slash c ≡ true
    → 1 ≤ length c
    → at_boundary r ≡ true
    → round outlen (c ++ r) out ≡ rest_with r (place outlen c out)
unfolding round
round_segment outlen [] r out e some_byte b = absurd (omega (arith, some_byte))
round_segment outlen (x ∷ c) r out e some_byte b =
    ap (λ s. rest_with (behind_segment (x ∷ (c ++ r))) (place outlen s out))
      (segment_whole (x ∷ c) r e b)
    ∙ ap (λ s. rest_with s (place outlen (x ∷ c) out)) (behind_segment_rest (x ∷ c) r e b)

-- the rounds that are left after one
abbrev pub continued : ℕ → ℕ → Result (List ℕ × List ℕ) → Result (List ℕ)
continued n outlen (err e) = err e
continued n outlen (ok (r, out)) = walk n outlen r out

walk-round :
    (n outlen : ℕ) (s out : List ℕ)
    → walk (suc n) outlen s out ≡ continued n outlen (round outlen (skip_slashes s) out)
unfolding walk
walk-round n outlen s out = refl

-- the stack of the components that are left after one
abbrev pub stacked : ℕ → Segments → Result (List (List ℕ)) → Result (List (List ℕ))
stacked outlen ss (err e) = err e
stacked outlen ss (ok st) = stack outlen ss st

after_push :
    (n outlen : ℕ) (ss : Segments) (t : ℕ) (p : Result (List (List ℕ)))
    → ((st : List (List ℕ))
        → p ≡ ok st
        → walk n outlen (written ss t) (shown st) ≡ shown_result (stack outlen ss st))
    → continued n outlen (rest_with (written ss t) (shown_result p))
      ≡ shown_result (stacked outlen ss p)
after_push n outlen ss t (err e) later = refl
after_push n outlen ss t (ok st) later = later st refl

pub walk-stack :
    (ss : Segments) (n outlen t : ℕ) (st : List (List ℕ))
    → IsWritten ss
    → AllNames st
    → length ss ≤ n
    → walk n outlen (written ss t) (shown st) ≡ shown_result (stack outlen ss st)
unfolding stack written IsWritten
walk-stack [] n outlen t st w names enough = walk_done n outlen t (shown st)
walk-stack ((k, c) ∷ ss) zero outlen t st w names enough = absurd (omega (arith, enough))
walk-stack ((k, c) ∷ ss) (suc n) outlen t st (name, some_byte, w) names enough =
    let r = written ss t in
    walk-round n outlen (replicate (suc k) slash ++ (c ++ r)) (shown st)
    ∙ ap (λ s. continued n outlen (round outlen s (shown st)))
        (skip_slashes-replicate (suc k) (c ++ r) ∙ skip_slashes_name c r name some_byte)
    ∙ ap (continued n outlen) (
        round_segment outlen c r (shown st) name some_byte (written_boundary ss t)
        ∙ ap (rest_with r) (place-push outlen c st names))
    ∙ after_push n outlen ss t (push outlen c st) (λ st' is.
      walk-stack ss n outlen t st' w (push-AllNames outlen c st st' name names is)
        (omega (arith, enough)))

length-written : (ss : Segments) (t : ℕ) → length ss ≤ length (written ss t)
unfolding written
length-written [] t = omega arith
length-written ((k, c) ∷ ss) t = omega (
  arith,
  length-append (replicate (suc k) slash) (c ++ written ss t),
  length-append c (written ss t),
  length-replicate (suc k) slash,
  length-written ss t,
)

-- The path that a stack is printed as: a slash before each component, or a slash alone.
unfoldable pub names_of : List (List ℕ) → List ℕ
names_of [] = []
names_of (c ∷ st) = names_of st ++ (slash ∷ c)

unfoldable pub printed : List (List ℕ) → List ℕ
unfolding names_of
printed [] = slash ∷ []
printed (c ∷ st) = names_of (c ∷ st)

unfoldable pub printed_result : Result (List (List ℕ)) → Result (List ℕ)
unfolding printed
printed_result (err e) = err e
printed_result (ok st) = ok (printed st)

onto-onto : (c out b : List ℕ) → onto (onto c out) b ≡ onto out (c ++ b)
unfolding onto
onto-onto [] out b = refl
onto-onto (x ∷ c) out b = onto-onto c (x ∷ out) b

onto-append : (r a b : List ℕ) → onto r (a ++ b) ≡ onto r a ++ b
unfolding onto
onto-append [] a b = refl
onto-append (x ∷ r) a b = onto-append r (x ∷ a) b

onto-shown : (st : List (List ℕ)) → onto (shown st) [] ≡ names_of st
unfolding shown names_of
onto-shown [] = unfold onto in refl
onto-shown (c ∷ st) =
    onto-onto c (slash ∷ shown st) []
    ∙ ap (λ z. onto (shown st) (slash ∷ z)) (append-nil c)
    ∙ onto-append (shown st) [] (slash ∷ c)
    ∙ ap (λ z. z ++ (slash ∷ c)) (onto-shown st)

finished_some : (out : List ℕ) → 1 ≤ length out → finished out ≡ onto out []
unfolding finished
finished_some [] some_byte = absurd (omega (arith, some_byte))
finished_some (x ∷ out) some_byte = refl

finished-shown : (st : List (List ℕ)) → finished (shown st) ≡ printed st
unfolding printed
finished-shown [] = unfold shown finished in refl
finished-shown (c ∷ st) =
    finished_some (shown (c ∷ st)) (omega (arith, length-shown (c ∷ st))) ∙ onto-shown (c ∷ st)

-- the answer of `normalize_abs` after its loop
abbrev pub answered : Result (List ℕ) → Result (List ℕ)
answered (err e) = err e
answered (ok out) = ok (finished out)

answered-shown : (r : Result (List (List ℕ))) → answered (shown_result r) ≡ printed_result r
unfolding printed_result
answered-shown (err e) = refl
answered-shown (ok st) = ap ok (finished-shown st)

-- A path, however many slashes stand before its components and at its end, is normalised to the path
-- of the stack of its components, where a dot is nothing and two dots take the last component away (or
-- nothing from the root). The answer is ENAMETOOLONG exactly when a name is put on a stack without room
-- for it.
pub normalize_abs-stack :
    (ss : Segments) (t outlen : ℕ)
    → IsWritten ss
    → normalize_abs (written ss t) outlen ≡ printed_result (stack outlen ss [])
unfolding normalize_abs shown AllNames
normalize_abs-stack ss t outlen w =
    ap answered (walk-stack ss (length (written ss t)) outlen t [] w tt (length-written ss t))
    ∙ answered-shown (stack outlen ss [])
