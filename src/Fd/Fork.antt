-- ===== src/Fd/Fork.antt =====
-- lxp_fd_fork_inherit of src/proc/lxp_process.c.
use lxp.Common.{
  ◌+◌, ℕ, zero, suc, ◌<◌, ◌≡◌, ◌≢◌, refl, sym, ◌∙◌, ap, subst, inl, inr, true, false, none, some,
  List, arith, length, get_or, set, get_or-set_self, get_or-set_ne, get_or-set_cases, set_twice,
  Bool-cases, Option-cases, Result, ok, err,
}
use lxp.Common.Int.{pos}
use lxp.Errno.{enomem, eagain}
use lxp.Fd.{fd_lookup, Fd, Files, World, free_fd, no_files, files_at, entry}
use lxp.Fd.Share.{
  set_files, cleared, some_full, retain_range, table_retain, free_table, files_new, inherit_into,
  inherit_from, fork_inherit,
}
use lxp.Fd.Copy.{retain_range-Owed, Shared, free_table-some, copied-Owed}
use lxp.Fd.Inherit.{with_tables, one_user, cleared-Shared, Owed-Shared}

-- What `lxp_fd_fork_inherit` of the table `src` does.
pub data Inherited (src : ℕ) (w : World) (w' : World) (r : Result ℕ) : Type 0 where
  no_table : r ≡ err enomem → free_table 0 w.tables ≡ none → w' ≡ w → Inherited src w w' r
  full :
      r ≡ err eagain
      → some_full (length (files_at w src).fd) 0 w src ≡ true
      → ((j : ℕ) → (files_at w' j).refs ≡ (files_at w j).refs)
      → Inherited src w w' r
  copied :
      (t : ℕ)
      → r ≡ ok t
      → (files_at w t).refs ≡ 0
      → (files_at w' t).fd ≡ (files_at w src).fd
      → (files_at w' t).refs ≡ 1
      → ((j : ℕ) → t ≢ j → files_at w' j ≡ files_at w j)
      → Inherited src w w' r

files_new-none : (w : World) → free_table 0 w.tables ≡ none → files_new w ≡ none
unfolding files_new
files_new-none w e = rw (e, files_new) refl

files_new-some :
    (w : World) (t : ℕ)
    → free_table 0 w.tables ≡ some t
    → files_new w ≡ some (t, set_files w t (record { refs = 1; fd = cleared (files_at w t).fd }))
unfolding files_new
files_new-some w t e = rw (e, files_new) refl

inherit_none :
    (w : World) (src : ℕ) → free_table 0 w.tables ≡ none → fork_inherit w src ≡ (w, err enomem)
unfolding fork_inherit
inherit_none w src e = ap (inherit_from w src) (files_new-none w e)

inherit_some :
    (w : World) (src t : ℕ)
    → free_table 0 w.tables ≡ some t
    → t ≢ src
    → fork_inherit w src
      ≡ inherit_into
          (set_files w t (record { refs = 1; fd = (files_at w src).fd }))
          t
          (files_at w src).fd
unfolding fork_inherit
inherit_some w src t e ne =
    let blank : Files = record { refs = 1; fd = cleared (files_at w t).fd } in
    let w1 = set_files w t blank in
    let kept : files_at w1 src ≡ files_at w src = get_or-set_ne w.tables t src blank no_files ne in
    ap (inherit_from w src) (files_new-some w t e)
    ∙ ap (λ f. inherit_into (set_files w1 t (one_user f)) t f.fd) kept
    ∙ ap (λ ts. inherit_into (with_tables w ts) t (files_at w src).fd)
        (set_twice w.tables t blank (one_user (files_at w src)))

inherit_into_full :
    (w : World) (t : ℕ) (es : List Fd)
    → some_full (length (files_at w t).fd) 0 w t ≡ true
    → inherit_into w t es ≡ (set_files w t (record { refs = 0; fd = cleared es }), err eagain)
unfolding inherit_into table_retain
inherit_into_full w t es e = ground (arith, e)

inherit_into_room :
    (w : World) (t : ℕ) (es : List Fd)
    → some_full (length (files_at w t).fd) 0 w t ≡ false
    → inherit_into w t es ≡ (retain_range (length (files_at w t).fd) 0 w t, ok t)
unfolding inherit_into table_retain
inherit_into_room w t es e = ground (arith, e)

fd_lookup_same :
    (fd : ℕ) (w : World) (ts : List Files) (t src : ℕ)
    → (get_or ts t no_files).fd ≡ (files_at w src).fd
    → fd_lookup (with_tables w ts) t (pos fd) ≡ fd_lookup w src (pos fd)
unfolding fd_lookup
fd_lookup_same fd w ts t src e = rw e refl

some_full_same :
    (n fd : ℕ) (w : World) (ts : List Files) (t src : ℕ)
    → (get_or ts t no_files).fd ≡ (files_at w src).fd
    → some_full n fd (with_tables w ts) t ≡ some_full n fd w src
unfolding some_full
some_full_same zero fd w ts t src e = refl
some_full_same (suc n) fd w ts t src e =
    let ih = some_full_same n (fd + 1) w ts t src e in
    let same = fd_lookup_same fd w ts t src e in
    elim (Option-cases (fd_lookup w src (pos fd))) [
      | inl f ↦ rw (f, some_full) (rw (same ∙ f, some_full) ih)
      | inr (k, f) ↦ rw (f, some_full) (rw (same ∙ f, some_full) (rw ih refl))
    ]

-- The copy of a table that is in use is made in a table that was free, has the descriptors of the
-- source and leaves the other tables as they were. The call only fails when no table is free, and then
-- changes nothing, or when a description of the source has a full count, and then no table's count is
-- changed. Each time every description has as many references as descriptors name it, and free tables
-- have none in use.
pub fork_inherit-Shared :
    (n : ℕ) (w : World) (src : ℕ)
    → Shared n w
    → src < length w.tables
    → (files_at w src).refs ≢ 0
    → Shared n (fork_inherit w src).0
      × Inherited src w (fork_inherit w src).0 (fork_inherit w src).1
fork_inherit-Shared n w src s lt live = elim (Option-cases (free_table 0 w.tables)) [
  | inl e ↦ rw (inherit_none w src e) (s, Inherited.no_table refl e refl)
  | inr (t, e) ↦
      let (d, at, d_lt, d_free) = free_table-some w.tables 0 t e in
      let is : d ≡ t = omega (arith, at) in
      let t_lt : t < length w.tables = omega (arith, is, d_lt) in
      let unused = subst (λ z. (files_at w z).refs ≡ 0) is d_free in
      let ne : t ≢ src = λ z. live (subst (λ x. (files_at w x).refs ≡ 0) z unused) in
      let f : Files = record { refs = 1; fd = (files_at w src).fd } in
      let w2 = set_files w t f in
      let size = s.sized src lt in
      let new = get_or-set_self w.tables t f no_files t_lt in
      let len : length (files_at w2 t).fd ≡ length f.fd = ap (λ x. length x.fd) new in
      elim (Bool-cases (some_full (length (files_at w2 t).fd) 0 w2 t)) [
        | inl top ↦
            let twice = set_twice w.tables t f (record { refs = 0; fd = cleared f.fd }) in
            rw (inherit_some w src t e ne) (
              rw (inherit_into_full w2 t f.fd top) (
                subst (λ ts. Shared n (record w { tables = ts })) (sym twice)
                    (cleared-Shared n w t 0 f.fd s.sound (λ t' fd far. s.clean t' fd) s.sized t_lt
                      (λ fd. s.clean t fd unused) size),
                Inherited.full refl
                    (sym (
                        some_full_same (length f.fd) 0 w (set w.tables t f) t src
                          (ap (λ x. x.fd) new))
                      ∙ subst (λ m. some_full m 0 w2 t ≡ true) len top)
                    (λ j.
                      ap (λ ts. (get_or ts j no_files).refs) twice
                      ∙ (elim (get_or-set_cases w.tables t j
                          (record { refs = 0; fd = cleared f.fd }) no_files) [
                            | inl (here, put) ↦
                                ap (λ x. x.refs) put
                                ∙ sym unused
                                ∙ ap (λ z. (files_at w z).refs) here
                            | inr old ↦ ap (λ x. x.refs) old
                          ])),
              ))
        | inr room ↦
            let (owed, kept, ofds_kept) =
              retain_range-Owed t f.fd 0 w2 (copied-Owed n w src t 1 s lt t_lt unused)
                (omega (arith, len))
                (λ i i_lt.
                  subst (λ z. entry w2 t z ≡ get_or f.fd i free_fd) (omega arith)
                    (ap (λ x. get_or x.fd i free_fd) new)) in
            let all =
              subst (λ m. inherit_into w2 t f.fd ≡ (retain_range m 0 w2 t, ok t)) len
                (inherit_into_room w2 t f.fd room) in
            rw (inherit_some w src t e ne) (
              rw all (
                Owed-Shared n w _ t f s t_lt owed kept (omega arith) size,
                Inherited.copied t refl unused
                    (ap (λ ts. (get_or ts t no_files).fd) kept ∙ ap (λ x. x.fd) new)
                    (ap (λ ts. (get_or ts t no_files).refs) kept ∙ ap (λ x. x.refs) new)
                    (λ j apart.
                      ap (λ ts. get_or ts j no_files) kept
                      ∙ get_or-set_ne w.tables t j f no_files apart),
              ))
      ]
]
