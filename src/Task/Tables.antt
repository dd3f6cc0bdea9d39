-- ===== src/Task/Tables.antt =====
-- The reference counts of descriptor tables follow their users through fork and exit
-- (lxp_proc_resources_fork and lxp_proc_resources_put of src/proc/lxp_process.c).
use lxp.Common.{
  ℕ, ◌+◌, ◌-◌, ◌<◌, ◌≡◌, ◌≢◌, refl, sym, ◌∙◌, ap, subst, inl, inr, Bool, true, false, arith, ◌==◌,
  if◌then◌else◌, length, length-set, get_or-set_self, get_or-set_ne, Bool-cases, Result, ok, err,
}
use lxp.Errno.{enomem, eagain}
use lxp.Fd.{Files, World, u16_max, inc16, no_files, files_at, close_range}
use lxp.Fd.Calls.{close_range-Kept}
use lxp.Fd.Copy.{Shared}
use lxp.Fd.Fork.{Inherited, fork_inherit-Shared}
use lxp.Fd.Put.{recounted-Sound, recounted-Shared}
use lxp.Fd.Run.{in_pool, files_put-Shared}
use lxp.Fd.Share.{set_files, files_put}
use lxp.Resource.Counted.{one_at}
use lxp.Task.{fork_table}

-- each table has as many references as `h` says
unfoldable pub TablesCounted : (ℕ → ℕ) → World → Type 0
TablesCounted h w = (j : ℕ) → (files_at w j).refs ≡ h j

refs-set_files :
    (w : World) (t : ℕ) (f : Files) (j : ℕ)
    → t < length w.tables
    → (files_at (set_files w t f) j).refs ≡ (if t == j then f.refs else (files_at w j).refs)
refs-set_files w t f j lt = elim (Bool-cases (t == j)) [
  | inl e ↦
      let is : t ≡ j = ground (arith, e) in
      rw e (
        subst (λ z. (files_at (set_files w t f) z).refs ≡ f.refs) is
          (ap (λ x. x.refs) (get_or-set_self w.tables t f no_files lt)))
  | inr e ↦ rw e (ap (λ x. x.refs) (get_or-set_ne w.tables t j f no_files (ground (arith, e))))
]

-- What asking for a table comes to.
pub data Tabled (n : ℕ) (h : ℕ → ℕ) (w' : World) : Result ℕ → Type 0 where
  given : (t : ℕ) → Shared n w' → TablesCounted (λ j. one_at t j + h j) w' → Tabled n h w' (ok t)
  refused : (e : ℕ) → Shared n w' → TablesCounted h w' → Tabled n h w' (err e)

inherited-Tabled :
    (n : ℕ) (h : ℕ → ℕ) (w w' : World) (src : ℕ) (r : Result ℕ)
    → TablesCounted h w
    → Shared n w'
    → Inherited src w w' r
    → Tabled n h w' r
unfolding TablesCounted
inherited-Tabled n h w w' src r c s (Inherited.no_table e none_free same) =
    subst (Tabled n h w') (sym e) (refused enomem s (λ j. ap (λ x. (files_at x j).refs) same ∙ c j))
inherited-Tabled n h w w' src r c s (Inherited.full e top kept) =
    subst (Tabled n h w') (sym e) (refused eagain s (λ j. kept j ∙ c j))
inherited-Tabled n h w w' src r c s (Inherited.copied t e unused copy one others) =
    subst (Tabled n h w') (sym e) (
      given t s (λ j. elim (Bool-cases (t == j)) [
        | inl here ↦
            let is : t ≡ j = ground (arith, here) in
            let one' = subst (λ z. (files_at w' z).refs ≡ 1) is one in
            let unused' = subst (λ z. (files_at w z).refs ≡ 0) is unused in
            ground (arith, here, one', unused', c j)
        | inr apart ↦
            ap (λ x. x.refs) (others j (ground (arith, apart))) ∙ c j ∙ ground (arith, apart)
      ]))

pub fork_table-Tabled :
    (n : ℕ) (h : ℕ → ℕ) (shared : Bool) (w : World) (t : ℕ)
    → Shared n w
    → TablesCounted h w
    → h t ≢ 0
    → h t < u16_max
    → Tabled n h (fork_table shared w t).0 (fork_table shared w t).1
unfolding fork_table TablesCounted
fork_table-Tabled n h true w t s c live room =
    let used : (files_at w t).refs ≢ 0 = λ z. live (sym (c t) ∙ z) in
    let lt = in_pool w t used in
    let test : ((files_at w t).refs == u16_max) ≡ false = ground (arith, c t, room) in
    let more : inc16 (files_at w t).refs ≡ 1 + h t = ground (arith, c t, room) in
    rw test (
      given t (recounted-Shared n w t (inc16 (files_at w t).refs) s lt (omega (arith, more))) (λ j.
        refs-set_files w t (record (files_at w t) { refs = inc16 (files_at w t).refs }) j lt
        ∙ ground (arith, more, c j)))
fork_table-Tabled n h false w t s c live room =
    let used : (files_at w t).refs ≢ 0 = λ z. live (sym (c t) ∙ z) in
    let (shared, inherited) = fork_inherit-Shared n w t s (in_pool w t used) used in
    inherited-Tabled n h w _ t _ c shared inherited

pub files_put-Counted :
    (n : ℕ) (h : ℕ → ℕ) (w : World) (t : ℕ)
    → Shared n w
    → TablesCounted (λ j. one_at t j + h j) w
    → Shared n (files_put w t) × TablesCounted h (files_put w t)
unfolding files_put TablesCounted
files_put-Counted n h w t s c =
    let at_t : (files_at w t).refs ≡ 1 + h t = ground (arith, c t) in
    let lt = in_pool w t (omega (arith, at_t)) in
    let some_user : ((files_at w t).refs == 0) ≡ false = ground (arith, at_t) in
    let f : Files = record (files_at w t) { refs = (files_at w t).refs - 1 } in
    let w1 = set_files w t f in
    (
      files_put-Shared n w t s (omega (arith, at_t)),
      elim (Bool-cases ((files_at w t).refs - 1 == 0)) [
        | inl last ↦
            let m = length (files_at w t).fd in
            let kept = close_range-Kept m 0 w1 t (recounted-Sound w t _ s.sound lt) in
            let w2 = close_range m 0 w1 t in
            let lt2 : t < length w2.tables =
              omega (arith, lt, kept.touch.count, length-set w.tables t f) in
            rw (some_user, files_put)
              (rw last (λ j.
                refs-set_files w2 t _ j lt2
                ∙ ground (arith, kept.touch.refs j, refs-set_files w t f j lt, c j, at_t, last)))
        | inr more ↦
            rw (some_user, files_put)
              (rw more (λ j. refs-set_files w t f j lt ∙ ground (arith, at_t, c j)))
      ],
    )

pub fork_table_shared :
    (h : ℕ → ℕ) (w : World) (t : ℕ)
    → TablesCounted h w
    → h t < u16_max
    → fork_table true w t
      ≡ (set_files w t (record (files_at w t) { refs = inc16 (files_at w t).refs }), ok t)
unfolding fork_table TablesCounted
fork_table_shared h w t c room =
    let test : ((files_at w t).refs == u16_max) ≡ false = ground (arith, c t, room) in rw test refl
