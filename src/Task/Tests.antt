-- ===== src/Task/Tests.antt =====
-- Witnesses and runs of the child constructors of src/proc/lxp_process.c, with two objects in each
-- pool, of which a parent holds the first.
use lxp.Common.{ℕ, zero, suc, ◌≡◌, refl, arith, false, none, some, List, [], ◌∷◌, ok}
use lxp.Common.Int.{pos}
use lxp.Fd.{fd_lookup, close, close_range, drop_ref}
use lxp.Fd.Share.{
  some_full, retain_range, table_retain, free_table, files_new, inherit_into, fork_inherit,
  files_put,
}
use lxp.Fd.Tests.{blank, blank-Shared}
use lxp.Resource.{Item, refs_at, share, acquire}
use lxp.Resource.Counted.{Counted}
use lxp.Task.{
  Task, Store, no_fs_context, no_sighand, no_mm, no_group, reset_task, fork_table, with_fs_context,
  with_files, resources_fork,
}
use lxp.Task.Tables.{TablesCounted}
use lxp.Task.Child.{lacks_objects, init_child, init_thread_child}
use lxp.Task.Balance.{holders, Balanced}
use lxp.Task.Launch.{Launched, init_child-Launched}
use lxp.Task.Thread.{SharesAll, init_thread_child_succeeds}

abbrev parent : Task
parent = record reset_task {
  mm = some 0;
  files = some 0;
  fs_context = some 0;
  sighand = some 0;
  group = some 0;
  pid = pos 1;
}

abbrev two {ℓ} : {A : Type ℓ} → ℕ → A → List (Item A)
two refs a = record { refs = refs; value = a } ∷ record { refs = 0; value = a } ∷ []

abbrev store : Store
store = record {
  world = blank;
  fs_contexts = two 1 no_fs_context;
  sighands = two 1 no_sighand;
  mms = two 1 no_mm;
  groups = two 1 no_group;
}

two-Counted {ℓ} : {A : Type ℓ} (a : A) → Counted (holders (λ c. some 0) (parent ∷ [])) (two 1 a)
unfolding Counted refs_at
two-Counted a zero = refl
two-Counted a (suc zero) = ground arith
two-Counted a (suc (suc j)) = ground arith

blank-TablesCounted : TablesCounted (holders (λ c. c.files) (parent ∷ [])) blank
unfolding TablesCounted
blank-TablesCounted zero = refl
blank-TablesCounted (suc zero) = ground arith
blank-TablesCounted (suc (suc j)) = ground arith

store-Balanced : Balanced 2 (parent ∷ []) store
store-Balanced = record {
  tables = blank-Shared;
  files = blank-TablesCounted;
  fs_contexts = two-Counted no_fs_context;
  sighands = two-Counted no_sighand;
  mms = two-Counted no_mm;
  groups = two-Counted no_group;
}

init_child-Launched_example :
    Launched 2 (parent ∷ []) (init_child store reset_task parent 0 (pos 2) false)
init_child-Launched_example =
    init_child-Launched 2 parent [] store reset_task 0 (pos 2) false (omega arith) store-Balanced

-- LXP_CLONE_VM, LXP_CLONE_FS, LXP_CLONE_FILES, LXP_CLONE_SIGHAND and LXP_CLONE_THREAD
abbrev thread_flags : ℕ
thread_flags = 69376

thread_flags-SharesAll : SharesAll thread_flags
thread_flags-SharesAll = record {
  vm = refl;
  fs = refl;
  files = refl;
  sighand = refl;
  thread = refl;
}

parent_has_all : lacks_objects parent ≡ false
unfolding lacks_objects
parent_has_all = refl

init_thread_child_succeeds_example :
    (init_thread_child store reset_task parent thread_flags (pos 2)).2 ≡ ok 0
init_thread_child_succeeds_example =
    init_thread_child_succeeds 2 parent [] store reset_task thread_flags (pos 2) (omega arith)
      store-Balanced parent_has_all refl thread_flags-SharesAll

-- with a full count of the filesystem context, `lxp_proc_resources_fork` answers 0 to a process that
-- copies its descriptors, and leaves the child without any
abbrev full_store : Store
full_store = record store { fs_contexts = two 65535 no_fs_context }

full_context_answers_0 : (resources_fork full_store reset_task parent 512).2 ≡ ok 0
unfolding resources_fork with_files with_fs_context fork_table fork_inherit files_new free_table
    inherit_into table_retain some_full retain_range fd_lookup acquire share refs_at files_put
    close_range close drop_ref
full_context_answers_0 = refl

full_context_no_table : (resources_fork full_store reset_task parent 512).1.files ≡ none
unfolding resources_fork with_files with_fs_context fork_table fork_inherit files_new free_table
    inherit_into table_retain some_full retain_range fd_lookup acquire share refs_at files_put
    close_range close drop_ref
full_context_no_table = refl
