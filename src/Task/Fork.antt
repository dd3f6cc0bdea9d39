-- ===== src/Task/Fork.antt =====
-- The constructors of a child of src/proc/lxp_process.c keep the balance of the pools.
use lxp.Common.{
  ℕ, ◌+◌, ◌<◌, ◌≡◌, refl, sym, ◌∙◌, ap, true, false, Option, none, some, List, ◌∷◌, arith, length,
  Result, ok, err,
}
use lxp.Errno.{enomem}
use lxp.Fd.{World, u16_max}
use lxp.Proc.{Sighand}
use lxp.Resource.{Item, Acquired, got, full, exhausted, value_at}
use lxp.Resource.Counted.{Counted, users_after, is_full, acquire-Counted}
use lxp.Task.{
  FsContext, Task, Store, Outcome, no_sighand, no_fs_context, clone_fs, clone_sighand, with_sighand,
  fork_sighand, with_fs_context, with_files, failed,
}
use lxp.Task.Child.{holds_some}
use lxp.Task.Tables.{TablesCounted, Tabled, given, refused}
use lxp.Task.Balance.{add_held, holders, Balanced, holders_le, held_live, resources_put-Balanced}

-- What a constructor comes to, where `q` are the other tasks and the child `c` holds what `P` says.
pub data Forked (n : ℕ) (q : List Task) (P : Task → Type 0) : Outcome → Type 0 where
  forked : (s : Store) (c : Task) (m : ℕ) → Balanced n (c ∷ q) s → P c → Forked n q P (s, c, ok m)
  gave_up : (s : Store) (c : Task) (e : ℕ) → Balanced n (c ∷ q) s → Forked n q P (s, c, err e)

-- the objects that the child holds after `lxp_proc_resources_fork` and after the whole constructor
pub record Equipped (c : Task) : Type 0 where
  pub mm : holds_some c.mm ≡ true
  pub files : holds_some c.files ≡ true
  pub fs_context : holds_some c.fs_context ≡ true
  pub sighand : holds_some c.sighand ≡ true

-- the same, with the thread group not asked for yet
pub record Ready (g : Option ℕ) (c : Task) : Type 0 where
  pub equipped : Equipped c
  pub group : c.group ≡ g

pub record Complete (c : Task) : Type 0 where
  pub equipped : Equipped c
  pub group : holds_some c.group ≡ true

pub holding : (o : Option ℕ) → holds_some o ≡ true → (i : ℕ) × (o ≡ some i)
holding none e = absurd (ground (arith, e))
holding (some i) e = (i, refl)

failed-Forked :
    (n : ℕ) (q : List Task) (P : Task → Type 0) (s : Store) (c : Task) (e : ℕ)
    → Balanced n (c ∷ q) s
    → Forked n q P (failed s c (err e))
failed-Forked n q P s c e b = gave_up _ _ e (resources_put-Balanced n q s c b)

-- a pool as the other tasks hold it, when the child holds none of its objects
pub others {ℓ} :
    {A : Type ℓ} (f : Task → Option ℕ) (c : Task) (q : List Task) (os : List (Item A))
    → f c ≡ none
    → Counted (holders f (c ∷ q)) os
    → Counted (holders f q) os
unfolding Counted
others f c q os e b j = b j ∙ ap (λ o. add_held o (holders f q) j) e

pub other_tables :
    (c : Task) (q : List Task) (w : World)
    → c.files ≡ none
    → TablesCounted (holders (λ x. x.files) (c ∷ q)) w
    → TablesCounted (holders (λ x. x.files) q) w
unfolding TablesCounted
other_tables c q w e b j = b j ∙ ap (λ o. add_held o (holders (λ x. x.files) q) j) e

all_tables :
    (c : Task) (q : List Task) (w : World)
    → c.files ≡ none
    → TablesCounted (holders (λ x. x.files) q) w
    → TablesCounted (holders (λ x. x.files) (c ∷ q)) w
unfolding TablesCounted
all_tables c q w e b j = b j ∙ sym (ap (λ o. add_held o (holders (λ x. x.files) q) j) e)

with_sighand-Forked :
    (n : ℕ) (q : List Task) (s : Store) (c : Task) (rc : Result ℕ)
    → Balanced n (c ∷ q) s
    → holds_some c.mm ≡ true
    → holds_some c.files ≡ true
    → holds_some c.fs_context ≡ true
    → (r : List (Item Sighand) × Acquired) → is_full r.1 ≡ false
    → Counted (users_after (holders (λ x. x.sighand) q) r.1) r.0
    → Forked n q (Ready c.group) (with_sighand s c rc r)
unfolding with_sighand
with_sighand-Forked n q s c rc b m f x (os, got i) room counted =
    forked _ _ 0
      (record {
        tables = b.tables;
        files = b.files;
        fs_contexts = b.fs_contexts;
        sighands = counted;
        mms = b.mms;
        groups = b.groups;
      })
      (record {
        equipped = record { mm = m; files = f; fs_context = x; sighand = refl };
        group = refl;
      })
with_sighand-Forked n q s c rc b m f x (os, full) room counted = absurd (ground (arith, room))
with_sighand-Forked n q s c rc b m f x (os, exhausted) room counted =
    failed-Forked n q (Ready c.group) s c enomem b

module _ (n : ℕ) (p : Task) (ts : List Task) (few : length ts + 1 < u16_max) where
  pub room : (f : Task → Option ℕ) (i : ℕ) → holders f (p ∷ ts) i < u16_max
  room f i = omega (arith, few, holders_le f (p ∷ ts) i)

  fork_sighand-Forked :
      (s : Store) (c : Task) (rc : Result ℕ) (flags h : ℕ)
      → Balanced n (c ∷ p ∷ ts) s
      → c.sighand ≡ none
      → p.sighand ≡ some h
      → holds_some c.mm ≡ true
      → holds_some c.files ≡ true
      → holds_some c.fs_context ≡ true
      → Forked n (p ∷ ts) (Ready c.group) (fork_sighand s c rc flags h)
  unfolding fork_sighand
  fork_sighand-Forked s c rc flags h b e is m f x =
      let (more, counted) =
        acquire-Counted (holders (λ t. t.sighand) (p ∷ ts)) (clone_sighand flags)
          (value_at no_sighand s.sighands h) s.sighands h
          (others (λ t. t.sighand) c (p ∷ ts) s.sighands e b.sighands)
          (held_live (λ t. t.sighand) p ts h is) (room (λ t. t.sighand) h) in
      with_sighand-Forked n (p ∷ ts) s c rc b m f x _ more counted

  with_fs_context-Forked :
      (s : Store) (c : Task) (rc : Result ℕ) (flags h : ℕ)
      → Balanced n (c ∷ p ∷ ts) s
      → c.sighand ≡ none
      → p.sighand ≡ some h
      → holds_some c.mm ≡ true
      → holds_some c.files ≡ true
      → (r : List (Item FsContext) × Acquired) → is_full r.1 ≡ false
      → Counted (users_after (holders (λ x. x.fs_context) (p ∷ ts)) r.1) r.0
      → Forked n (p ∷ ts) (Ready c.group) (with_fs_context s c rc flags h r)
  unfolding with_fs_context
  with_fs_context-Forked s c rc flags h b e is m f (os, got i) more counted =
      fork_sighand-Forked (record s { fs_contexts = os }) (record c { fs_context = some i }) rc
        flags h
        (record {
          tables = b.tables;
          files = b.files;
          fs_contexts = counted;
          sighands = b.sighands;
          mms = b.mms;
          groups = b.groups;
        })
        e is m f refl
  with_fs_context-Forked s c rc flags h b e is m f (os, full) more counted =
      absurd (ground (arith, more))
  with_fs_context-Forked s c rc flags h b e is m f (os, exhausted) more counted =
      failed-Forked n (p ∷ ts) (Ready c.group) s c enomem b

  pub with_files-Forked :
      (s : Store) (c : Task) (rc : Result ℕ) (flags x h : ℕ)
      → Balanced n (c ∷ p ∷ ts) s
      → c.files ≡ none
      → c.fs_context ≡ none
      → c.sighand ≡ none
      → p.fs_context ≡ some x
      → p.sighand ≡ some h
      → holds_some c.mm ≡ true
      → (w : World) (r : Result ℕ) → Tabled n (holders (λ t. t.files) (p ∷ ts)) w r
      → Forked n (p ∷ ts) (Ready c.group) (with_files s c rc flags x h (w, r))
  unfolding with_files
  with_files-Forked s c rc flags x h b no_f no_x no_h is_x is_h m w r (given t tables files) =
      let b' : Balanced n (record c { files = some t } ∷ p ∷ ts) (record s { world = w }) = record {
        tables = tables;
        files = files;
        fs_contexts = b.fs_contexts;
        sighands = b.sighands;
        mms = b.mms;
        groups = b.groups;
      } in
      let (more, counted) =
        acquire-Counted (holders (λ t. t.fs_context) (p ∷ ts)) (clone_fs flags)
          (value_at no_fs_context s.fs_contexts x) s.fs_contexts x
          (others (λ t. t.fs_context) c (p ∷ ts) s.fs_contexts no_x b.fs_contexts)
          (held_live (λ t. t.fs_context) p ts x is_x) (room (λ t. t.fs_context) x) in
      with_fs_context-Forked (record s { world = w }) (record c { files = some t }) rc flags h b'
        no_h is_h m refl _ more counted
  with_files-Forked s c rc flags x h b no_f no_x no_h is_x is_h m w r (refused e tables files) =
      failed-Forked n (p ∷ ts) (Ready c.group) (record s { world = w }) c e
        (record {
          tables = tables;
          files = all_tables c (p ∷ ts) w no_f files;
          fs_contexts = b.fs_contexts;
          sighands = b.sighands;
          mms = b.mms;
          groups = b.groups;
        })
