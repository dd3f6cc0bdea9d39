-- ===== src/Task/Child.antt =====
-- src/proc/lxp_process.c: the address space, the thread group and the values of a child, and the two
-- constructors of a child.
use lxp.Common.{
  ℕ, Bool, true, false, Option, none, some, List, ltb, ◌&&◌, ◌||◌, not, if◌then◌else◌, ok, err,
}
use lxp.Common.Int.{ℤ, pos, negsuc}
use lxp.Errno.{einval, eagain, enomem}
use lxp.Guest.{Mm}
use lxp.Resource.{Item, Acquired, got, full, exhausted, value_at, acquire}
use lxp.Task.{
  ThreadGroup, Task, Store, Outcome, no_mm, no_group, reset_task, clone_vm, clone_sighand,
  clone_thread, resources_fork, child_discard,
}

-- `n > 0`
abbrev pub positive : ℤ → Bool
positive (pos n) = ltb 0 n
positive (negsuc n) = false

-- lxp_proc_mm_fork once the address space was asked for
unfoldable pub with_mm : Store → Task → List (Item Mm) × Acquired → Outcome
with_mm s c (os, got i) = (record s { mms = os }, record c { mm = some i }, ok 0)
with_mm s c (os, full) = (s, record c { mm = none }, err eagain)
with_mm s c (os, exhausted) = (s, record c { mm = none }, err enomem)

unfoldable pub mm_fork : Store → Task → Task → ℕ → Outcome
unfolding with_mm
mm_fork s c p flags = elim p.mm [
  | none ↦ (s, c, err einval)
  | some m ↦ with_mm s c (acquire (clone_vm flags) (value_at no_mm s.mms m) s.mms m)
]

-- what a new thread group gets from the parent's
abbrev pub child_group : ℤ → ThreadGroup → ThreadGroup
child_group child_pid g = record no_group { tgid = child_pid; ppid = g.tgid; pgid = g.pgid }

-- lxp_proc_group_fork once the thread group was asked for
unfoldable pub with_group : Store → Task → List (Item ThreadGroup) × Acquired → Outcome
with_group s c (os, got i) = (record s { groups = os }, record c { group = some i }, ok 0)
with_group s c (os, full) = (s, record c { group = none }, err eagain)
with_group s c (os, exhausted) = (s, record c { group = none }, err enomem)

unfoldable pub group_fork : Store → Task → Task → ℕ → ℤ → Outcome
unfolding with_group
group_fork s c p flags child_pid = elim p.group [
  | none ↦ (s, c, err einval)
  | some g ↦
      if not (positive child_pid)
      then (s, c, err einval)
      else with_group s c (
          acquire (clone_thread flags) (child_group child_pid (value_at no_group s.groups g))
            s.groups g)
]

-- proc_child_copy_values
abbrev pub copied_values : Task → ℤ → Task
copied_values p child_pid = record reset_task {
  pid = child_pid;
  nice = p.nice;
  comm = p.comm;
  sig_blocked = p.sig_blocked;
  exec_file_idx = p.exec_file_idx;
  stack_lo = p.stack_lo;
  is_fdpic = p.is_fdpic;
}

abbrev pub holds_some : Option ℕ → Bool
holds_some none = false
holds_some (some i) = true

-- the guards of `proc_init_child` on the parent and on the flags
unfoldable pub lacks_objects : Task → Bool
lacks_objects p =
    not (holds_some p.mm)
    || not (holds_some p.files)
    || not (holds_some p.fs_context)
    || not (holds_some p.sighand)
    || not (holds_some p.group)

unfoldable pub bad_flags : ℕ → Bool → Bool
bad_flags flags thread =
    (clone_sighand flags && not (clone_vm flags))
    || (if thread
        then not (clone_thread flags && clone_vm flags && clone_sighand flags)
        else clone_thread flags)

-- the rest of `proc_init_child` after each call: on an error the child is discarded
unfoldable pub or_discard : Outcome → Outcome
unfolding child_discard
or_discard (s, c, ok n) = (s, c, ok n)
or_discard (s, c, err e) = let (s1, c1) = child_discard s c in (s1, c1, err e)

-- the call of the next constructor when the one before answered 0
unfoldable pub then_group : Task → ℕ → ℤ → Outcome → Outcome
unfolding group_fork
then_group p flags child_pid (s, c, ok n) = group_fork s c p flags child_pid
then_group p flags child_pid (s, c, err e) = (s, c, err e)

unfoldable pub then_resources : Task → ℕ → Outcome → Outcome
unfolding resources_fork
then_resources p flags (s, c, ok n) = resources_fork s c p flags
then_resources p flags (s, c, err e) = (s, c, err e)

-- proc_init_child
unfoldable pub init_child : Store → Task → Task → ℕ → ℤ → Bool → Outcome
unfolding lacks_objects bad_flags or_discard then_group then_resources mm_fork
init_child s c p flags child_pid thread =
    if not (positive child_pid) || lacks_objects p
    then (s, c, err einval)
    else if bad_flags flags thread
    then (s, c, err einval)
    else or_discard (
        then_group p flags child_pid
          (then_resources p flags (mm_fork s (copied_values p child_pid) p flags)))

-- lxp_proc_init_process_child and lxp_proc_init_thread_child
abbrev pub init_process_child : Store → Task → Task → ℕ → ℤ → Outcome
init_process_child s c p flags child_pid = init_child s c p flags child_pid false

abbrev pub init_thread_child : Store → Task → Task → ℕ → ℤ → Outcome
init_thread_child s c p flags child_tid = init_child s c p flags child_tid true
