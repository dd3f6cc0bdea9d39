-- ===== src/Task/Thread.antt =====
-- The thread constructor of src/proc/lxp_process.c when the thread shares all objects.
use lxp.Common.{
  ℕ, ◌+◌, ◌<◌, ◌≡◌, ◌∙◌, ap, true, false, Option, some, List, ◌∷◌, arith, ◌||◌, not, if◌then◌else◌,
  length, Result, ok, err,
}
use lxp.Common.Int.{ℤ}
use lxp.Errno.{eagain}
use lxp.Fd.{files_at, inc16, u16_max}
use lxp.Guest.{Mm}
use lxp.Resource.{refs_at, with_refs, Item, value_at, acquire}
use lxp.Resource.Counted.{Counted, acquire_shared}
use lxp.Task.{
  FsContext, ThreadGroup, Task, Store, Outcome, no_mm, no_group, no_sighand, no_fs_context,
  clone_vm, clone_fs, clone_files, clone_sighand, clone_thread, fork_table, with_sighand,
  fork_sighand, with_fs_context, with_files, resources_fork,
}
use lxp.Task.Child.{
  init_thread_child, positive, with_mm, mm_fork, child_group, with_group, group_fork, copied_values,
  lacks_objects, bad_flags, or_discard, then_group, then_resources, init_child,
}
use lxp.Task.Tables.{fork_table_shared, TablesCounted}
use lxp.Task.Balance.{holders, Balanced, holders_le}
use lxp.Task.Fork.{Complete, holding, room}
use lxp.Fd.Share.{set_files}
use lxp.Task.Init.{resources_fork_lem, group_fork_lem}
use lxp.Task.Launch.{mm_fork_lem, lacks_objects-Complete, steps}

-- CLONE_VM, CLONE_FS, CLONE_FILES, CLONE_SIGHAND and CLONE_THREAD
pub record SharesAll (flags : ℕ) : Type 0 where
  pub vm : clone_vm flags ≡ true
  pub fs : clone_fs flags ≡ true
  pub files : clone_files flags ≡ true
  pub sighand : clone_sighand flags ≡ true
  pub thread : clone_thread flags ≡ true

more_users {ℓ} : {A : Type ℓ} → List (Item A) → ℕ → List (Item A)
more_users os i = with_refs os i (inc16 (refs_at os i))

with_mm_shared :
    (h : ℕ → ℕ) (s : Store) (c : Task) (flags m : ℕ) (v : Mm)
    → clone_vm flags ≡ true
    → Counted h s.mms
    → h m < u16_max
    → with_mm s c (acquire (clone_vm flags) v s.mms m)
      ≡ (record s { mms = more_users s.mms m }, record c { mm = some m }, ok 0)
unfolding with_mm more_users
with_mm_shared h s c flags m v e counted room =
    ap (λ b. with_mm s c (acquire b v s.mms m)) e
    ∙ ap (with_mm s c) (acquire_shared h v s.mms m counted room)

with_group_shared :
    (h : ℕ → ℕ) (s : Store) (c : Task) (flags g : ℕ) (v : ThreadGroup)
    → clone_thread flags ≡ true
    → Counted h s.groups
    → h g < u16_max
    → (with_group s c (acquire (clone_thread flags) v s.groups g)).2 ≡ ok 0
unfolding with_group
with_group_shared h s c flags g v e counted room =
    ap (λ b. (with_group s c (acquire b v s.groups g)).2) e
    ∙ ap (λ r. (with_group s c r).2) (acquire_shared h v s.groups g counted room)

fork_sighand_shared :
    (hs : ℕ → ℕ) (s : Store) (c : Task) (rc : Result ℕ) (flags h : ℕ)
    → clone_sighand flags ≡ true
    → Counted hs s.sighands
    → hs h < u16_max
    → fork_sighand s c rc flags h
      ≡ (record s { sighands = more_users s.sighands h }, record c { sighand = some h }, ok 0)
unfolding fork_sighand with_sighand more_users
fork_sighand_shared hs s c rc flags h e counted room =
    let v = value_at no_sighand s.sighands h in
    ap (λ b. with_sighand s c rc (acquire b v s.sighands h)) e
    ∙ ap (with_sighand s c rc) (acquire_shared hs v s.sighands h counted room)

with_fs_context_shared :
    (hx : ℕ → ℕ) (s : Store) (c : Task) (rc : Result ℕ) (flags x h : ℕ) (v : FsContext)
    → clone_fs flags ≡ true
    → Counted hx s.fs_contexts
    → hx x < u16_max
    → with_fs_context s c rc flags h (acquire (clone_fs flags) v s.fs_contexts x)
      ≡ fork_sighand
          (record s { fs_contexts = more_users s.fs_contexts x })
          (record c { fs_context = some x })
          rc
          flags
          h
unfolding with_fs_context more_users
with_fs_context_shared hx s c rc flags x h v e counted room =
    ap (λ b. with_fs_context s c rc flags h (acquire b v s.fs_contexts x)) e
    ∙ ap (with_fs_context s c rc flags h) (acquire_shared hx v s.fs_contexts x counted room)

with_files_shared :
    (hf : ℕ → ℕ) (s : Store) (c : Task) (rc : Result ℕ) (flags t x h : ℕ)
    → clone_files flags ≡ true
    → TablesCounted hf s.world
    → hf t < u16_max
    → with_files s c rc flags x h (fork_table (clone_files flags) s.world t)
      ≡ with_fs_context
          (record s {
            world =
                set_files s.world t
                  (record (files_at s.world t) { refs = inc16 (files_at s.world t).refs });
          })
          (record c { files = some t })
          rc
          flags
          h
          (acquire (clone_fs flags) (value_at no_fs_context s.fs_contexts x) s.fs_contexts x)
unfolding with_files
with_files_shared hf s c rc flags t x h e counted room =
    ap (λ b. with_files s c rc flags x h (fork_table b s.world t)) e
    ∙ ap (with_files s c rc flags x h) (fork_table_shared hf s.world t counted room)

or_discard_ok : (o : Outcome) → o.2 ≡ ok 0 → (or_discard o).2 ≡ ok 0
unfolding or_discard
or_discard_ok (s, c, ok m) e = e
or_discard_ok (s, c, err m) e = absurd (ground (arith, e))

good_flags : (flags : ℕ) → SharesAll flags → bad_flags flags true ≡ false
unfolding bad_flags
good_flags flags a = ground (arith, a.vm, a.sighand, a.thread)

module _ (n : ℕ) (p : Task) (ts : List Task) (few : length ts + 1 < u16_max) (s : Store)
    (b : Balanced n (p ∷ ts) s) where
  below : (f : Task → Option ℕ) (i : ℕ) → holders f (p ∷ ts) i < u16_max
  below f i = omega (arith, few, holders_le f (p ∷ ts) i)

  steps_ok :
      (flags : ℕ) (child_pid : ℤ)
      → Complete p
      → positive child_pid ≡ true
      → SharesAll flags
      → (steps s p flags child_pid).2 ≡ ok 0
  unfolding then_group then_resources
  steps_ok flags child_pid all pid a =
      let q = p ∷ ts in
      let (m, is_m) = holding p.mm all.equipped.mm in
      let (t, is_t) = holding p.files all.equipped.files in
      let (x, is_x) = holding p.fs_context all.equipped.fs_context in
      let (h, is_h) = holding p.sighand all.equipped.sighand in
      let (g, is_g) = holding p.group all.group in
      let c0 = copied_values p child_pid in
      let c1 : Task = record c0 { mm = some m } in
      let s1 : Store = record s { mms = more_users s.mms m } in
      let w2 =
        set_files s.world t
          (record (files_at s.world t) { refs = inc16 (files_at s.world t).refs }) in
      let s2 : Store = record s1 { world = w2 } in
      let c2 : Task = record c1 { files = some t } in
      let s3 : Store = record s2 { fs_contexts = more_users s.fs_contexts x } in
      let c3 : Task = record c2 { fs_context = some x } in
      let s4 : Store = record s3 { sighands = more_users s.sighands h } in
      let c4 : Task = record c3 { sighand = some h } in
      let rc : Result ℕ = if clone_files flags then err eagain else ok 0 in
      let first : mm_fork s c0 p flags ≡ (s1, c1, ok 0) =
        mm_fork_lem s c0 p flags m is_m
        ∙ with_mm_shared (holders (λ t. t.mm) q) s c0 flags m (value_at no_mm s.mms m) a.vm b.mms
            (below (λ t. t.mm) m) in
      let second : resources_fork s1 c1 p flags ≡ (s4, c4, ok 0) =
        resources_fork_lem s1 c1 p flags t x h is_t is_x is_h
        ∙ with_files_shared (holders (λ t. t.files) q) s1 c1 rc flags t x h a.files b.files
            (below (λ t. t.files) t)
        ∙ with_fs_context_shared (holders (λ t. t.fs_context) q) s2 c2 rc flags x h
            (value_at no_fs_context s.fs_contexts x) a.fs b.fs_contexts
            (below (λ t. t.fs_context) x)
        ∙ fork_sighand_shared (holders (λ t. t.sighand) q) s3 c3 rc flags h a.sighand b.sighands
            (below (λ t. t.sighand) h) in
      let third : (group_fork s4 c4 p flags child_pid).2 ≡ ok 0 =
        ap (λ o. o.2) (group_fork_lem s4 c4 p flags child_pid g is_g pid)
        ∙ with_group_shared (holders (λ t. t.group) q) s4 c4 flags g
            (child_group child_pid (value_at no_group s.groups g)) a.thread b.groups
            (below (λ t. t.group) g) in
      ap (λ o. (then_group p flags child_pid (then_resources p flags o)).2) first
      ∙ ap (λ o. (then_group p flags child_pid o).2) second
      ∙ third

-- A thread that shares the address space, the filesystem context, the descriptor table, the signal
-- dispositions and the thread group is always created, however full the pools are, as long as the
-- creator holds one object of each kind, its id is positive, fewer than 65,535 tasks hold objects and
-- each object has as many references as tasks hold it.
pub init_thread_child_succeeds :
    (n : ℕ) (p : Task) (ts : List Task) (s : Store) (c : Task) (flags : ℕ) (child_tid : ℤ)
    → length ts + 1 < u16_max
    → Balanced n (p ∷ ts) s
    → lacks_objects p ≡ false
    → positive child_tid ≡ true
    → SharesAll flags
    → (init_thread_child s c p flags child_tid).2 ≡ ok 0
unfolding init_child
init_thread_child_succeeds n p ts s c flags child_tid few b has pid a =
    let passes : (not (positive child_tid) || lacks_objects p) ≡ false = ground (arith, has, pid) in
    rw (passes, init_child)
      (rw (good_flags flags a) (
        or_discard_ok (steps s p flags child_tid)
          (steps_ok n p ts few s b flags child_tid (lacks_objects-Complete p has) pid a)))
