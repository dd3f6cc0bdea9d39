-- ===== src/Task/Init.antt =====
-- The constructors of a child of src/proc/lxp_process.c: resources, address space and thread group.
use lxp.Common.{
  ℕ, ◌+◌, ◌<◌, ◌≡◌, refl, sym, subst, true, false, none, some, List, ◌∷◌, arith, if◌then◌else◌,
  length, ok, err,
}
use lxp.Common.Int.{ℤ}
use lxp.Errno.{einval, eagain, enomem}
use lxp.Fd.{u16_max}
use lxp.Guest.{Mm}
use lxp.Resource.{Item, Acquired, got, full, exhausted, value_at, acquire}
use lxp.Resource.Counted.{Counted, users_after, is_full}
use lxp.Task.{
  ThreadGroup, Task, Store, no_group, clone_files, clone_thread, fork_table, with_files,
  resources_fork,
}
use lxp.Task.Child.{positive, with_mm, child_group, with_group, group_fork, holds_some}
use lxp.Task.Tables.{fork_table-Tabled}
use lxp.Task.Balance.{holders, Balanced, held_live}
use lxp.Task.Fork.{
  Forked, forked, gave_up, Equipped, Ready, Complete, holding, others, other_tables, room,
  with_files-Forked,
}

pub resources_fork_lem :
    (s : Store) (c p : Task) (flags t x h : ℕ)
    → p.files ≡ some t
    → p.fs_context ≡ some x
    → p.sighand ≡ some h
    → resources_fork s c p flags
      ≡ with_files s
          (record c { files = none; fs_context = none; sighand = none })
          (if clone_files flags then err eagain else ok 0)
          flags
          x
          h
          (fork_table (clone_files flags) s.world t)
unfolding resources_fork
resources_fork_lem s c p flags t x h e f g = rw (e, resources_fork) (rw f (rw g refl))

pub group_fork_lem :
    (s : Store) (c p : Task) (flags : ℕ) (child_pid : ℤ) (g : ℕ)
    → p.group ≡ some g
    → positive child_pid ≡ true
    → group_fork s c p flags child_pid
      ≡ with_group s c (
          acquire
            (clone_thread flags)
            (child_group child_pid (value_at no_group s.groups g))
            s.groups
            g)
unfolding group_fork
group_fork_lem s c p flags child_pid g e f = rw (e, group_fork) (rw f refl)

pub group_fork_bad :
    (s : Store) (c p : Task) (flags : ℕ) (child_pid : ℤ) (g : ℕ)
    → p.group ≡ some g
    → positive child_pid ≡ false
    → group_fork s c p flags child_pid ≡ (s, c, err einval)
unfolding group_fork
group_fork_bad s c p flags child_pid g e f = rw (e, group_fork) (rw f refl)

-- a child that holds no table, no context and no dispositions may as well have null pointers there
blank_child :
    (n : ℕ) (q : List Task) (s : Store) (c : Task)
    → Balanced n (c ∷ q) s
    → c.files ≡ none
    → c.fs_context ≡ none
    → c.sighand ≡ none
    → Balanced n (record c { files = none; fs_context = none; sighand = none } ∷ q) s
blank_child n q s c b no_f no_x no_h = record {
  tables = b.tables;
  files = other_tables c q s.world no_f b.files;
  fs_contexts = others (λ t. t.fs_context) c q s.fs_contexts no_x b.fs_contexts;
  sighands = others (λ t. t.sighand) c q s.sighands no_h b.sighands;
  mms = b.mms;
  groups = b.groups;
}

module _ (n : ℕ) (p : Task) (ts : List Task) (few : length ts + 1 < u16_max) where
  pub resources_fork-Forked :
      (s : Store) (c : Task) (flags : ℕ)
      → Balanced n (c ∷ p ∷ ts) s
      → c.files ≡ none
      → c.fs_context ≡ none
      → c.sighand ≡ none
      → Equipped p
      → holds_some c.mm ≡ true
      → Forked n (p ∷ ts) (Ready c.group) (resources_fork s c p flags)
  resources_fork-Forked s c flags b no_f no_x no_h ready m =
      let (t, is_t) = holding p.files ready.files in
      let (x, is_x) = holding p.fs_context ready.fs_context in
      let (h, is_h) = holding p.sighand ready.sighand in
      let tabled =
        fork_table-Tabled n (holders (λ t. t.files) (p ∷ ts)) (clone_files flags) s.world t b.tables
          (other_tables c (p ∷ ts) s.world no_f b.files) (held_live (λ t. t.files) p ts t is_t)
          (room n p ts few (λ t. t.files) t) in
      subst (Forked n (p ∷ ts) (Ready c.group))
        (sym (resources_fork_lem s c p flags t x h is_t is_x is_h))
        (with_files-Forked n p ts few s
          (record c { files = none; fs_context = none; sighand = none })
          (if clone_files flags then err eagain else ok 0) flags x h
          (blank_child n (p ∷ ts) s c b no_f no_x no_h) refl refl refl is_x is_h m
          (fork_table (clone_files flags) s.world t).0 (fork_table (clone_files flags) s.world t).1
          tabled)

  -- the child of `lxp_proc_mm_fork` still lacks the rest
  pub with_mm-Forked :
      (s : Store) (c : Task)
      → Balanced n (c ∷ p ∷ ts) s
      → c.mm ≡ none
      → (r : List (Item Mm) × Acquired) → is_full r.1 ≡ false
      → Counted (users_after (holders (λ x. x.mm) (p ∷ ts)) r.1) r.0
      → Forked n (p ∷ ts) (λ d. (i : ℕ) × (d ≡ record c { mm = some i })) (with_mm s c r)
  unfolding with_mm
  with_mm-Forked s c b no_m (os, got i) more counted =
      forked (record s { mms = os }) (record c { mm = some i }) 0
        (record {
          tables = b.tables;
          files = b.files;
          fs_contexts = b.fs_contexts;
          sighands = b.sighands;
          mms = counted;
          groups = b.groups;
        })
        (i, refl)
  with_mm-Forked s c b no_m (os, full) more counted = absurd (ground (arith, more))
  with_mm-Forked s c b no_m (os, exhausted) more counted =
      gave_up s (record c { mm = none }) enomem
        (record {
          tables = b.tables;
          files = b.files;
          fs_contexts = b.fs_contexts;
          sighands = b.sighands;
          mms = others (λ t. t.mm) c (p ∷ ts) s.mms no_m b.mms;
          groups = b.groups;
        })

  pub with_group-Forked :
      (s : Store) (c : Task)
      → Balanced n (c ∷ p ∷ ts) s
      → c.group ≡ none
      → Equipped c
      → (r : List (Item ThreadGroup) × Acquired) → is_full r.1 ≡ false
      → Counted (users_after (holders (λ x. x.group) (p ∷ ts)) r.1) r.0
      → Forked n (p ∷ ts) Complete (with_group s c r)
  unfolding with_group
  with_group-Forked s c b no_g has (os, got i) more counted =
      forked (record s { groups = os }) (record c { group = some i }) 0
        (record {
          tables = b.tables;
          files = b.files;
          fs_contexts = b.fs_contexts;
          sighands = b.sighands;
          mms = b.mms;
          groups = counted;
        })
        (record {
          equipped = record {
            mm = has.mm;
            files = has.files;
            fs_context = has.fs_context;
            sighand = has.sighand;
          };
          group = refl;
        })
  with_group-Forked s c b no_g has (os, full) more counted = absurd (ground (arith, more))
  with_group-Forked s c b no_g has (os, exhausted) more counted =
      gave_up s (record c { group = none }) enomem
        (record {
          tables = b.tables;
          files = b.files;
          fs_contexts = b.fs_contexts;
          sighands = b.sighands;
          mms = b.mms;
          groups = others (λ t. t.group) c (p ∷ ts) s.groups no_g b.groups;
        })
