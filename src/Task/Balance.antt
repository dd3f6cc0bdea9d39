-- ===== src/Task/Balance.antt =====
-- The balance of the pools of src/proc/lxp_process.c: each object has as many references as tasks
-- hold it. What a task takes and gives up keeps it.
use lxp.Common.{
  ℕ, ◌+◌, ◌≤◌, ◌≡◌, ◌≢◌, Option, none, some, List, [], ◌∷◌, arith, ◌==◌, length, Bool-cases, inl,
  inr,
}
use lxp.Fd.{World}
use lxp.Fd.Copy.{Shared}
use lxp.Resource.{Item, put_held}
use lxp.Resource.Counted.{one_at, Counted, put-Counted}
use lxp.Task.{Task, Store, child_discard, put_files, resources_put}
use lxp.Task.Tables.{TablesCounted, files_put-Counted}

-- `h` with the holder of what a field is
abbrev pub add_held : Option ℕ → (ℕ → ℕ) → ℕ → ℕ
add_held none h j = h j
add_held (some i) h j = one_at i j + h j

-- how many of the tasks hold the object `j`, by the field `f`
abbrev pub holders : (Task → Option ℕ) → List Task → ℕ → ℕ
holders f [] j = 0
holders f (c ∷ ts) j = add_held (f c) (holders f ts) j

-- The tables and descriptions are in order, and each object of each pool has as many references as
-- tasks hold it.
pub record Balanced (n : ℕ) (ts : List Task) (s : Store) : Type 0 where
  pub tables : Shared n s.world
  pub files : TablesCounted (holders (λ c. c.files) ts) s.world
  pub fs_contexts : Counted (holders (λ c. c.fs_context) ts) s.fs_contexts
  pub sighands : Counted (holders (λ c. c.sighand) ts) s.sighands
  pub mms : Counted (holders (λ c. c.mm) ts) s.mms
  pub groups : Counted (holders (λ c. c.group) ts) s.groups

add_held_le : (o : Option ℕ) (h : ℕ → ℕ) (j : ℕ) → add_held o h j ≤ 1 + h j
add_held_le none h j = omega arith
add_held_le (some i) h j = elim (Bool-cases (i == j)) [
  | inl e ↦ ground (arith, e)
  | inr e ↦ ground (arith, e)
]

pub holders_le : (f : Task → Option ℕ) (ts : List Task) (j : ℕ) → holders f ts j ≤ length ts
holders_le f [] j = omega arith
holders_le f (c ∷ ts) j = omega (arith, holders_le f ts j, add_held_le (f c) (holders f ts) j)

pub held_live :
    (f : Task → Option ℕ) (p : Task) (ts : List Task) (i : ℕ)
    → f p ≡ some i
    → holders f (p ∷ ts) i ≢ 0
held_live f p ts i e = rw e (ground arith)

pub put_held-Counted {ℓ} :
    {A : Type ℓ} (o : Option ℕ) (h : ℕ → ℕ) (blank : A) (os : List (Item A))
    → Counted (add_held o h) os
    → Counted h (put_held blank os o)
put_held-Counted none h blank os c = c
put_held-Counted (some i) h blank os c = put-Counted h blank os i c

put_files-Counted :
    (n : ℕ) (o : Option ℕ) (h : ℕ → ℕ) (w : World)
    → Shared n w
    → TablesCounted (add_held o h) w
    → Shared n (put_files w o) × TablesCounted h (put_files w o)
put_files-Counted n none h w s c = (s, c)
put_files-Counted n (some t) h w s c = files_put-Counted n h w t s c

pub resources_put-Balanced :
    (n : ℕ) (ts : List Task) (s : Store) (c : Task)
    → Balanced n (c ∷ ts) s
    → Balanced n ((resources_put s c).1 ∷ ts) (resources_put s c).0
resources_put-Balanced n ts s c b =
    let (tables, files) =
      put_files-Counted n c.files (holders (λ x. x.files) ts) s.world b.tables b.files in
    record {
      tables = tables;
      files = files;
      fs_contexts =
          put_held-Counted c.fs_context (holders (λ x. x.fs_context) ts) _ s.fs_contexts
            b.fs_contexts;
      sighands = put_held-Counted c.sighand (holders (λ x. x.sighand) ts) _ s.sighands b.sighands;
      mms = b.mms;
      groups = b.groups;
    }

-- When a task is discarded (lxp_proc_child_discard), which gives up all that it holds, each object
-- has as many references as the tasks that are left hold it, and the tables and descriptions are in
-- order.
pub child_discard-Balanced :
    (n : ℕ) (ts : List Task) (s : Store) (c : Task)
    → Balanced n (c ∷ ts) s
    → Balanced n ts (child_discard s c).0
unfolding child_discard
child_discard-Balanced n ts s c b =
    let r = resources_put-Balanced n ts s c b in
    record {
      tables = r.tables;
      files = r.files;
      fs_contexts = r.fs_contexts;
      sighands = r.sighands;
      mms = put_held-Counted c.mm (holders (λ x. x.mm) ts) _ s.mms b.mms;
      groups = put_held-Counted c.group (holders (λ x. x.group) ts) _ s.groups b.groups;
    }
