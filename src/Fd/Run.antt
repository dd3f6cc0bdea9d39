-- ===== src/Fd/Run.antt =====
-- Any calls of src/fs/lxp_fd.c and of the table functions of src/proc/lxp_process.c, by tasks whose
-- tables are in use, keep the reference counts.
use lxp.Common.{
  ℕ, suc, ◌-◌, ◌<◌, ◌≡◌, ◌≢◌, refl, sym, ◌∙◌, ap, subst, ◌⊎◌, inl, inr, Bool, false, some, List, [],
  ◌∷◌, arith, ltb, ◌==◌, length, get_or_beyond, get_or-set_self, Bool-cases,
}
use lxp.Common.Int.{ℤ, pos, negsuc}
use lxp.Fd.{
  World, free_fd, zero_ofd, no_files, files_at, ofd_at, set_entry, fd_lookup, drop_ref, fd_open,
  set_end, set_cloexec, close, close_all, close_on_exec, dup_to, dup_min,
}
use lxp.Fd.Share.{fork_inherit, files_put}
use lxp.Fd.Count.{total}
use lxp.Fd.Sound.{no_extra, Sound, fd_lookup-some, refs_pos}
use lxp.Fd.Close.{Kept, close-Kept, close_used}
use lxp.Fd.Calls.{close_range-Kept, exec_range-Kept, set_end-Kept, set_cloexec-Kept}
use lxp.Fd.Open.{fd_open-Kept}
use lxp.Fd.Dup.{dup_to-Kept, dup_min-Kept}
use lxp.Fd.Copy.{Shared}
use lxp.Fd.Fork.{fork_inherit-Shared}
use lxp.Fd.Put.{recounted-Shared, emptied-Shared}

pub data Call : Type 0 where
  opens : ℕ → ℤ → ℕ → ℕ → Call
  sets_end : ℤ → Bool → Call
  sets_cloexec : ℤ → Bool → Call
  closes : ℤ → Call
  closes_all closes_on_exec forks puts : Call
  dups_to dups_min : ℤ → ℤ → Bool → Call

-- The call of the task whose table is `t`.
unfoldable pub call : (ℕ → Bool) → World → ℕ → Call → World
call has_ops w t (opens kind backing offset flags) =
    (fd_open has_ops w t kind backing offset flags).0
call has_ops w t (sets_end fd end) = (set_end w t fd end).0
call has_ops w t (sets_cloexec fd enabled) = (set_cloexec w t fd enabled).0
call has_ops w t (closes fd) = (close w t fd).0
call has_ops w t closes_all = close_all w t
call has_ops w t closes_on_exec = close_on_exec w t
call has_ops w t forks = (fork_inherit w t).0
call has_ops w t puts = files_put w t
call has_ops w t (dups_to old new cloexec) = (dup_to w t old new cloexec).0
call has_ops w t (dups_min old least cloexec) = (dup_min w t old least cloexec).0

unfoldable pub run : (ℕ → Bool) → World → List (ℕ × Call) → World
run has_ops w [] = w
run has_ops w ((t, c) ∷ cs) = run has_ops (call has_ops w t c) cs

-- Each call is made by a task whose table is in use.
unfoldable pub InUse : (ℕ → Bool) → World → List (ℕ × Call) → Type 0
InUse has_ops w [] = Unit
InUse has_ops w ((t, c) ∷ cs) = ((files_at w t).refs ≢ 0) × InUse has_ops (call has_ops w t c) cs

pub in_pool : (w : World) (t : ℕ) → (files_at w t).refs ≢ 0 → t < length w.tables
in_pool w t live = elim (Bool-cases (ltb t (length w.tables))) [
  | inl lt ↦ ground (arith, lt)
  | inr ge ↦
      absurd (live (ap (λ f. f.refs) (get_or_beyond w.tables t no_files (ground (arith, ge)))))
]

Kept-Shared :
    (n : ℕ) (w w' : World) (t : ℕ)
    → Shared n w
    → (files_at w t).refs ≢ 0
    → Kept no_extra t w w'
    → Shared n w'
Kept-Shared n w w' t s live k = record {
  sound = k.sound;
  clean = λ t' fd z. elim (Bool-cases (t' == t)) [
    | inl same ↦
        let is : t' ≡ t = ground (arith, same) in
        absurd (live (subst (λ y. (files_at w y).refs ≡ 0) is (sym (k.touch.refs t') ∙ z)))
    | inr apart ↦
        k.touch.others t' fd (ground (arith, apart)) ∙ s.clean t' fd (sym (k.touch.refs t') ∙ z)
  ];
  sized = λ t' lt. k.touch.sizes t' ∙ s.sized t' (omega (arith, lt, k.touch.count));
}

pub files_put-Shared :
    (n : ℕ) (w : World) (t : ℕ) → Shared n w → (files_at w t).refs ≢ 0 → Shared n (files_put w t)
unfolding files_put
files_put-Shared n w t s live =
    let lt = in_pool w t live in
    let some_user : ((files_at w t).refs == 0) ≡ false = ground (arith, live) in
    elim (Bool-cases ((files_at w t).refs - 1 == 0)) [
      | inl last ↦
          let one : (files_at w t).refs - 1 ≡ 0 = ground (arith, last) in
          rw (some_user, files_put) (rw one (emptied-Shared n w t s lt))
      | inr more ↦
          rw (some_user, files_put)
            (rw more (recounted-Shared n w t ((files_at w t).refs - 1) s lt (ground (arith, more))))
    ]

call-Shared :
    (has_ops : ℕ → Bool) (n : ℕ) (w : World) (t : ℕ) (c : Call)
    → Shared n w
    → (files_at w t).refs ≢ 0
    → Shared n (call has_ops w t c)
unfolding call close_all close_on_exec
call-Shared has_ops n w t (opens kind backing offset flags) s live =
    Kept-Shared n w _ t s live (fd_open-Kept has_ops w t kind backing offset flags s.sound)
call-Shared has_ops n w t (sets_end fd end) s live =
    Kept-Shared n w _ t s live (set_end-Kept w t fd end s.sound)
call-Shared has_ops n w t (sets_cloexec fd enabled) s live =
    Kept-Shared n w _ t s live (set_cloexec-Kept w t fd enabled s.sound)
call-Shared has_ops n w t (closes (pos fd)) s live =
    Kept-Shared n w _ t s live (close-Kept no_extra w t fd s.sound)
call-Shared has_ops n w t (closes (negsuc fd)) s live = unfold close in s
call-Shared has_ops n w t closes_all s live =
    Kept-Shared n w _ t s live (close_range-Kept (length (files_at w t).fd) 0 w t s.sound)
call-Shared has_ops n w t closes_on_exec s live =
    Kept-Shared n w _ t s live (exec_range-Kept (length (files_at w t).fd) 0 w t s.sound)
call-Shared has_ops n w t forks s live = (fork_inherit-Shared n w t s (in_pool w t live) live).0
call-Shared has_ops n w t puts s live = files_put-Shared n w t s live
call-Shared has_ops n w t (dups_to old new cloexec) s live =
    Kept-Shared n w _ t s live (dup_to-Kept w t old new cloexec s.sound)
call-Shared has_ops n w t (dups_min old least cloexec) s live =
    Kept-Shared n w _ t s live (dup_min-Kept w t old least cloexec s.sound)

-- Whatever tasks with tables in use open, duplicate, mark, close, inherit and give up: every
-- description has as many references as descriptors of all tables name it, descriptors name
-- descriptions of the pool, and a table without users has no descriptor in use.
pub run-Shared :
    (has_ops : ℕ → Bool) (n : ℕ) (w : World) (calls : List (ℕ × Call))
    → Shared n w
    → InUse has_ops w calls
    → Shared n (run has_ops w calls)
unfolding run InUse
run-Shared has_ops n w [] s live = s
run-Shared has_ops n w ((t, c) ∷ cs) s live =
    run-Shared has_ops n (call has_ops w t c) cs (call-Shared has_ops n w t c s live.0) live.1

drop_last :
    (w : World) (k : ℕ)
    → (ofd_at w k).refs ≡ 1
    → (drop_ref w k).closed ≡ record (ofd_at w k) { refs = 0 } ∷ w.closed
unfolding drop_ref
drop_last w k e = ground (arith, e)

drop_more :
    (w : World) (k : ℕ)
    → 1 < (ofd_at w k).refs
    → k < length w.ofds
    → ((drop_ref w k).closed ≡ w.closed)
      × (ofd_at (drop_ref w k) k ≡ record (ofd_at w k) { refs = (ofd_at w k).refs - 1 })
unfolding drop_ref
drop_more w k more lt =
    let test : ((ofd_at w k).refs - 1 == 0) ≡ false = ground arith in
    rw test (refl, get_or-set_self w.ofds k _ zero_ofd lt)

-- Closing a descriptor calls the close operation of its description exactly when no other
-- descriptor, of any task, names it; otherwise the description only loses one reference.
pub close_last :
    (w : World) (t fd k : ℕ)
    → Sound no_extra w
    → fd_lookup w t (pos fd) ≡ some k
    → ((total (suc k) w.tables ≡ 1)
        × ((close w t (pos fd)).0.closed ≡ record (ofd_at w k) { refs = 0 } ∷ w.closed))
      ⊎ ((1 < total (suc k) w.tables)
          × ((close w t (pos fd)).0.closed ≡ w.closed)
          × (ofd_at (close w t (pos fd)).0 k
              ≡ record (ofd_at w k) { refs = total (suc k) w.tables - 1 }))
close_last w t fd k s e =
    let (lt, named, k_lt) = fd_lookup-some w t fd k e in
    let (k_lt', live) = refs_pos no_extra w t fd k s lt named in
    let count : (ofd_at w k).refs ≡ total (suc k) w.tables = omega (arith, s.counted k k_lt) in
    let w1 = set_entry w t fd free_fd in
    elim (Bool-cases ((ofd_at w k).refs == 1)) [
      | inl one ↦
          let is : (ofd_at w k).refs ≡ 1 = ground (arith, one) in
          rw (close_used w t fd k e) (inl (omega (arith, is, count), drop_last w1 k is))
      | inr more ↦
          let many : 1 < (ofd_at w k).refs = ground (arith, more, live) in
          let (kept, less) = drop_more w1 k many k_lt in
          rw (close_used w t fd k e) (
            inr (
              omega (arith, many, count),
              kept,
              less ∙ ap (λ r. record (ofd_at w k) { refs = r - 1 }) count,
            ))
    ]
