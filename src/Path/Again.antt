-- ===== src/Path/Again.antt =====
-- A path that normalize_abs of src/fs/lxp_path.c has answered is normalised already.
use lxp.Common.{
  ℕ, suc, ◌+◌, ◌≤◌, ◌≡◌, refl, sym, ◌∙◌, ap, subst, true, false, List, [], ◌∷◌, ◌++◌, leb, length,
  replicate, arith, append-nil, append_assoc, Bool-cases, inl, inr, Result, ok, err,
}
use lxp.Path.{slash, no_slash}
use lxp.Path.Normal.{is_dot, is_dot_dot, normalize_abs}
use lxp.Path.Canonical.{Segments, IsWritten, written, width, without_last, push, stack}
use lxp.Path.Resolved.{stacked, names_of, printed, printed_result, normalize_abs-stack}

-- Each component is a name, and had room when it was put on.
pub Settled : ℕ → List (List ℕ) → Type 0
Settled outlen [] = Unit
Settled outlen (c ∷ st) =
    (no_slash c ≡ true)
    × (1 ≤ length c)
    × (is_dot c ≡ false)
    × (is_dot_dot c ≡ false)
    × (leb outlen (width st + 1 + length c) ≡ false)
    × Settled outlen st

without_last-Settled :
    (outlen : ℕ) (st : List (List ℕ)) → Settled outlen st → Settled outlen (without_last st)
unfolding Settled
without_last-Settled outlen [] s = s
without_last-Settled outlen (c ∷ st) s = s.5

push-Settled :
    (outlen : ℕ) (c : List ℕ) (st st' : List (List ℕ))
    → no_slash c ≡ true
    → 1 ≤ length c
    → Settled outlen st
    → push outlen c st ≡ ok st'
    → Settled outlen st'
unfolding push Settled
push-Settled outlen c st st' name some_byte s e = elim (Bool-cases (is_dot c)) [
  | inl f ↦ subst (Settled outlen) (ground (arith, e, f)) s
  | inr f ↦ elim (Bool-cases (is_dot_dot c)) [
    | inl g ↦ subst (Settled outlen) (ground (arith, e, f, g)) (without_last-Settled outlen st s)
    | inr g ↦ elim (Bool-cases (leb outlen (width st + 1 + length c))) [
      | inl h ↦ absurd (ground (arith, e, f, g, h))
      | inr h ↦
          let is : c ∷ st ≡ st' = ground (arith, e, f, g, h) in
          subst (Settled outlen) is (name, some_byte, f, g, h, s)
    ]
  ]
]

stacked-Settled :
    (outlen : ℕ) (ss : Segments) (p : Result (List (List ℕ))) (st' : List (List ℕ))
    → stacked outlen ss p ≡ ok st'
    → ((one : List (List ℕ)) → p ≡ ok one → stack outlen ss one ≡ ok st' → Settled outlen st')
    → Settled outlen st'
stacked-Settled outlen ss (err e) st' is later = absurd (ground (arith, is))
stacked-Settled outlen ss (ok one) st' is later = later one refl is

stack-Settled :
    (outlen : ℕ) (ss : Segments) (st st' : List (List ℕ))
    → IsWritten ss
    → Settled outlen st
    → stack outlen ss st ≡ ok st'
    → Settled outlen st'
unfolding stack IsWritten
stack-Settled outlen [] st st' w s e = subst (Settled outlen) (ground (arith, e)) s
stack-Settled outlen ((k, c) ∷ ss) st st' (name, some_byte, w) s e =
    stacked-Settled outlen ss (push outlen c st) st' e (λ one is. λ more.
      stack-Settled outlen ss one st' w (push-Settled outlen c st one name some_byte s is) more)

-- the components of a stack, from the first
listed : List (List ℕ) → Segments
listed [] = []
listed (c ∷ st) = listed st ++ ((0, c) ∷ [])

written-append :
    (ss : Segments) (c : List ℕ) → written (ss ++ ((0, c) ∷ [])) 0 ≡ written ss 0 ++ (slash ∷ c)
unfolding written
written-append [] c = ap (◌∷◌ slash) (append-nil c)
written-append ((k, d) ∷ ss) c =
    ap (λ z. replicate (suc k) slash ++ (d ++ z)) (written-append ss c)
    ∙ ap (λ z. replicate (suc k) slash ++ z) (sym (append_assoc d (written ss 0) (slash ∷ c)))
    ∙ sym (append_assoc (replicate (suc k) slash) (d ++ written ss 0) (slash ∷ c))

written-listed : (st : List (List ℕ)) → written (listed st) 0 ≡ names_of st
unfolding listed names_of
written-listed [] = unfold written in refl
written-listed (c ∷ st) =
    written-append (listed st) c ∙ ap (λ z. z ++ (slash ∷ c)) (written-listed st)

append-IsWritten :
    (ss : Segments) (c : List ℕ)
    → IsWritten ss
    → no_slash c ≡ true
    → 1 ≤ length c
    → IsWritten (ss ++ ((0, c) ∷ []))
unfolding IsWritten
append-IsWritten [] c w name some_byte = (name, some_byte, tt)
append-IsWritten ((k, d) ∷ ss) c (n, b, w) name some_byte =
    (n, b, append-IsWritten ss c w name some_byte)

listed-IsWritten : (outlen : ℕ) (st : List (List ℕ)) → Settled outlen st → IsWritten (listed st)
unfolding listed Settled
listed-IsWritten outlen [] s = unfold IsWritten in tt
listed-IsWritten outlen (c ∷ st) (name, some_byte, d, dd, room, s) =
    append-IsWritten (listed st) c (listed-IsWritten outlen st s) name some_byte

-- a name more on a stack that there is
abbrev pushed : ℕ → List ℕ → Result (List (List ℕ)) → Result (List (List ℕ))
pushed outlen c (err e) = err e
pushed outlen c (ok st) = push outlen c st

push_only : (outlen : ℕ) (p : Result (List (List ℕ))) → stacked outlen [] p ≡ p
unfolding stack
push_only outlen (err e) = refl
push_only outlen (ok st) = refl

stacked-append :
    (outlen : ℕ) (ss : Segments) (c : List ℕ) (p : Result (List (List ℕ)))
    → ((one : List (List ℕ))
        → stack outlen (ss ++ ((0, c) ∷ [])) one ≡ pushed outlen c (stack outlen ss one))
    → stacked outlen (ss ++ ((0, c) ∷ [])) p ≡ pushed outlen c (stacked outlen ss p)
stacked-append outlen ss c (err e) later = refl
stacked-append outlen ss c (ok one) later = later one

stack-append :
    (outlen : ℕ) (ss : Segments) (c : List ℕ) (st : List (List ℕ))
    → stack outlen (ss ++ ((0, c) ∷ [])) st ≡ pushed outlen c (stack outlen ss st)
unfolding stack
stack-append outlen [] c st = push_only outlen (push outlen c st)
stack-append outlen ((k, d) ∷ ss) c st =
    stacked-append outlen ss c (push outlen d st) (λ one. stack-append outlen ss c one)

push_settled :
    (outlen : ℕ) (c : List ℕ) (st : List (List ℕ))
    → is_dot c ≡ false
    → is_dot_dot c ≡ false
    → leb outlen (width st + 1 + length c) ≡ false
    → push outlen c st ≡ ok (c ∷ st)
unfolding push
push_settled outlen c st d dd room = rw d (rw dd (rw room refl))

stack-listed :
    (outlen : ℕ) (st : List (List ℕ)) → Settled outlen st → stack outlen (listed st) [] ≡ ok st
unfolding listed Settled
stack-listed outlen [] s = unfold stack in refl
stack-listed outlen (c ∷ st) (name, some_byte, d, dd, room, s) =
    stack-append outlen (listed st) c []
    ∙ ap (pushed outlen c) (stack-listed outlen st s)
    ∙ push_settled outlen c st d dd room

normalize_abs-printed :
    (outlen : ℕ) (st : List (List ℕ))
    → Settled outlen st
    → normalize_abs (printed st) outlen ≡ ok (printed st)
unfolding printed written printed_result stack IsWritten
normalize_abs-printed outlen [] s = normalize_abs-stack [] 1 outlen tt
normalize_abs-printed outlen (c ∷ st) s =
    ap (λ z. normalize_abs z outlen) (sym (written-listed (c ∷ st)))
    ∙ normalize_abs-stack (listed (c ∷ st)) 0 outlen (listed-IsWritten outlen (c ∷ st) s)
    ∙ ap printed_result (stack-listed outlen (c ∷ st) s)

printed-Settled :
    (outlen : ℕ) (r : Result (List (List ℕ))) (out : List ℕ)
    → ((st : List (List ℕ)) → r ≡ ok st → Settled outlen st)
    → printed_result r ≡ ok out
    → normalize_abs out outlen ≡ ok out
unfolding printed_result
printed-Settled outlen (err e) out settled is = absurd (ground (arith, is))
printed-Settled outlen (ok st) out settled is =
    let same : printed st ≡ out = ground (arith, is) in
    subst (λ z. normalize_abs z outlen ≡ ok z) same
      (normalize_abs-printed outlen st (settled st refl))

-- Normalising a path that was answered for a path, with the same size of the output, changes nothing.
pub normalize_abs_idempotent :
    (ss : Segments) (t outlen : ℕ) (out : List ℕ)
    → IsWritten ss
    → normalize_abs (written ss t) outlen ≡ ok out
    → normalize_abs out outlen ≡ ok out
normalize_abs_idempotent ss t outlen out w e =
    printed-Settled outlen (stack outlen ss []) out
      (λ st is. stack-Settled outlen ss [] st w (unfold Settled in tt) is)
      (sym (normalize_abs-stack ss t outlen w) ∙ e)
