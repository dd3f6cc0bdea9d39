-- ===== src/Task.antt =====
-- src/proc/lxp_process.c: the objects that a task holds, and how clone shares or copies them. A task
-- holds an object by its index in the pool, and `none` is the null pointer. Tables and descriptions
-- are those of Fd; the other pools are those of Resource. A task's host bindings, its image's files
-- and the parts of a task that belong to the coordinator are not modelled here; the child is another
-- task than its parent. `is_dynamic`, the arena, the break and the copied text of lxp_mm_t are not
-- part of `Mm`, which Guest has, and a copy copies all of them.
mod Child
mod Tables
mod Balance
mod Fork
mod Init
mod Launch
mod Thread
mod Tests
use lxp.Common.{
  ℕ, ◌+◌, ◌-◌, ◌/◌, ◌%◌, Bool, true, false, Option, none, some, List, [], ◌∷◌, ltb, ◌==◌, ◌&&◌,
  ◌||◌, not, if◌then◌else◌, replicate, Result, ok, err,
}
use lxp.Common.Int.{ℤ, pos, negsuc}
use lxp.Common.Mask.{Mask}
use lxp.Errno.{einval, eagain, enomem}
use lxp.Fd.{World, u16_max, inc16, files_at}
use lxp.Fd.Share.{set_files, fork_inherit, files_put}
use lxp.Guest.{Window, Mm}
use lxp.Proc.{Sighand}
use lxp.Resource.{Item, Acquired, got, full, exhausted, value_at, acquire, put_held}

-- lxp_fs_context_t
pub record FsContext : Type 0 where
  pub umask : ℕ
  pub cwd : List ℕ

-- lxp_thread_group_t
pub record ThreadGroup : Type 0 where
  pub tgid : ℤ
  pub ppid : ℤ
  pub pgid : ℤ
  pub exiting : Bool
  pub exit_status : ℤ
  pub children : List (List ℤ)
  pub live_children : ℕ

-- lxp_proc_t: the objects held and the values that a child inherits
pub record Task : Type 0 where
  pub mm : Option ℕ
  pub files : Option ℕ
  pub fs_context : Option ℕ
  pub sighand : Option ℕ
  pub group : Option ℕ
  pub pid : ℤ
  pub nice : ℤ
  pub comm : List ℕ
  pub sig_blocked : ℕ
  pub exec_file_idx : ℤ
  pub stack_lo : ℕ
  pub is_fdpic : Bool

-- g_files with g_ofd, and the other pools
pub record Store : Type 0 where
  pub world : World
  pub fs_contexts : List (Item FsContext)
  pub sighands : List (Item Sighand)
  pub mms : List (Item Mm)
  pub groups : List (Item ThreadGroup)

abbrev pub no_fs_context : FsContext
no_fs_context = record { umask = 0; cwd = [] }

abbrev pub no_sighand : Sighand
no_sighand = record { handler = λ sig. 0; restorer = 0; restart = λ i. false }

abbrev pub no_window : Window
no_window = record { lo = 0; hi = 0 }

abbrev pub no_mm : Mm
no_mm = record { region = no_window; pool = no_window; dev_map = no_window ∷ no_window ∷ [] }

abbrev pub no_group : ThreadGroup
no_group = record {
  tgid = pos 0;
  ppid = pos 0;
  pgid = pos 0;
  exiting = false;
  exit_status = pos 0;
  children = [];
  live_children = 0;
}

-- proc_child_reset
abbrev pub reset_task : Task
reset_task = record {
  mm = none;
  files = none;
  fs_context = none;
  sighand = none;
  group = none;
  pid = pos 0;
  nice = pos 0;
  comm = [];
  sig_blocked = 0;
  exec_file_idx = pos 0;
  stack_lo = 0;
  is_fdpic = false;
}

-- `flags & LXP_CLONE_VM` and the others
abbrev pub clone_vm : ℕ → Bool
clone_vm flags = flags / 256 % 2 == 1

abbrev pub clone_fs : ℕ → Bool
clone_fs flags = flags / 512 % 2 == 1

abbrev pub clone_files : ℕ → Bool
clone_files flags = flags / 1024 % 2 == 1

abbrev pub clone_sighand : ℕ → Bool
clone_sighand flags = flags / 2048 % 2 == 1

abbrev pub clone_thread : ℕ → Bool
clone_thread flags = flags / 65536 % 2 == 1

-- the pools, the child and the answer
abbrev pub Outcome : Type 0
Outcome = Store × Task × Result ℕ

abbrev pub put_files : World → Option ℕ → World
put_files w none = w
put_files w (some t) = files_put w t

-- lxp_proc_resources_put
abbrev pub resources_put : Store → Task → Store × Task
resources_put s c = (
  record s {
    world = put_files s.world c.files;
    fs_contexts = put_held no_fs_context s.fs_contexts c.fs_context;
    sighands = put_held no_sighand s.sighands c.sighand;
  },
  record c { files = none; fs_context = none; sighand = none },
)

-- lxp_proc_mm_put and lxp_proc_group_put
abbrev pub mm_put : Store → Task → Store × Task
mm_put s c = (record s { mms = put_held no_mm s.mms c.mm }, record c { mm = none })

abbrev pub group_put : Store → Task → Store × Task
group_put s c =
    (record s { groups = put_held no_group s.groups c.group }, record c { group = none })

-- lxp_proc_child_discard
unfoldable pub child_discard : Store → Task → Store × Task
child_discard s c =
    let (s1, c1) = resources_put s c in
    let (s2, c2) = mm_put s1 c1 in let (s3, c3) = group_put s2 c2 in (s3, reset_task)

-- the label `fail` of `lxp_proc_resources_fork`
abbrev pub failed : Store → Task → Result ℕ → Outcome
failed s c rc = let (s1, c1) = resources_put s c in (s1, c1, rc)

-- the table that the child gets of the table `t`
unfoldable pub fork_table : Bool → World → ℕ → World × Result ℕ
fork_table true w t =
    let f = files_at w t in
    if f.refs == u16_max
    then (w, err eagain)
    else (set_files w t (record f { refs = inc16 f.refs }), ok t)
fork_table false w t = fork_inherit w t

-- the end of `lxp_proc_resources_fork`, once the signal dispositions were asked for
unfoldable pub with_sighand : Store → Task → Result ℕ → List (Item Sighand) × Acquired → Outcome
with_sighand s c rc (os, got i) = (record s { sighands = os }, record c { sighand = some i }, ok 0)
with_sighand s c rc (os, full) = failed s c rc
with_sighand s c rc (os, exhausted) = failed s c (err enomem)

unfoldable pub fork_sighand : Store → Task → Result ℕ → ℕ → ℕ → Outcome
unfolding with_sighand
fork_sighand s c rc flags h =
    with_sighand s c rc
      (acquire (clone_sighand flags) (value_at no_sighand s.sighands h) s.sighands h)

-- the same once the filesystem context was asked for
unfoldable pub with_fs_context :
    Store → Task → Result ℕ → ℕ → ℕ → List (Item FsContext) × Acquired → Outcome
unfolding fork_sighand
with_fs_context s c rc flags h (os, got i) =
    fork_sighand (record s { fs_contexts = os }) (record c { fs_context = some i }) rc flags h
with_fs_context s c rc flags h (os, full) = failed s c rc
with_fs_context s c rc flags h (os, exhausted) = failed s c (err enomem)

-- the same once the table was asked for; `rc` is what a full count is answered with from then on
unfoldable pub with_files : Store → Task → Result ℕ → ℕ → ℕ → ℕ → World × Result ℕ → Outcome
unfolding with_fs_context
with_files s c rc flags x h (w, ok t) =
    with_fs_context (record s { world = w }) (record c { files = some t }) rc flags h
      (acquire (clone_fs flags) (value_at no_fs_context s.fs_contexts x) s.fs_contexts x)
with_files s c rc flags x h (w, err e) = failed (record s { world = w }) c (err e)

-- lxp_proc_resources_fork
unfoldable pub resources_fork : Store → Task → Task → ℕ → Outcome
unfolding with_files fork_table
resources_fork s c p flags = elim p.files [
  | none ↦ (s, c, err einval)
  | some t ↦ elim p.fs_context [
    | none ↦ (s, c, err einval)
    | some x ↦ elim p.sighand [
      | none ↦ (s, c, err einval)
      | some h ↦
          with_files s (record c { files = none; fs_context = none; sighand = none })
            (if clone_files flags then err eagain else ok 0) flags x h
            (fork_table (clone_files flags) s.world t)
    ]
  ]
]
