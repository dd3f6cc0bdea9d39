-- ===== src/Task/Launch.antt =====
-- proc_init_child of src/proc/lxp_process.c: the steps of the constructor in their order.
use lxp.Common.{
  ℕ, ◌+◌, ◌<◌, ◌≡◌, refl, sym, ◌∙◌, ap, subst, Bool, false, none, some, List, ◌∷◌, arith, ◌||◌, not,
  length, Bool-cases, inl, inr, ok, err,
}
use lxp.Common.Int.{ℤ}
use lxp.Errno.{einval}
use lxp.Fd.{u16_max}
use lxp.Resource.{value_at, acquire}
use lxp.Resource.Counted.{acquire-Counted}
use lxp.Task.{Task, Store, Outcome, no_mm, no_group, clone_vm, clone_thread, resources_fork}
use lxp.Task.Child.{
  positive, with_mm, mm_fork, child_group, group_fork, copied_values, holds_some, lacks_objects,
  bad_flags, or_discard, then_group, then_resources, init_child,
}
use lxp.Task.Balance.{holders, Balanced, held_live, child_discard-Balanced}
use lxp.Task.Fork.{Forked, forked, gave_up, Ready, Complete, holding, others, room}
use lxp.Task.Init.{
  resources_fork-Forked, with_mm-Forked, with_group-Forked, group_fork_lem, group_fork_bad,
}

-- What a constructor of a child comes to, where `q` are the tasks that are there already.
pub data Launched (n : ℕ) (q : List Task) : Outcome → Type 0 where
  launched :
      (s : Store) (c : Task) (m : ℕ) → Balanced n (c ∷ q) s → Complete c → Launched n q (s, c, ok m)
  called_off : (s : Store) (c : Task) (e : ℕ) → Balanced n q s → Launched n q (s, c, err e)

or_discard-Launched :
    (n : ℕ) (q : List Task) (o : Outcome) → Forked n q Complete o → Launched n q (or_discard o)
unfolding or_discard
or_discard-Launched n q _ (forked s c m b all) = launched s c m b all
or_discard-Launched n q _ (gave_up s c e b) = called_off _ _ e (child_discard-Balanced n q s c b)

module _ (n : ℕ) (p : Task) (ts : List Task) (few : length ts + 1 < u16_max) where
  group_fork-Forked :
      (s : Store) (c : Task) (flags : ℕ) (child_pid : ℤ)
      → Balanced n (c ∷ p ∷ ts) s
      → Ready none c
      → Complete p
      → Forked n (p ∷ ts) Complete (group_fork s c p flags child_pid)
  unfolding group_fork
  group_fork-Forked s c flags child_pid b ready all =
      let (g, is) = holding p.group all.group in
      elim (Bool-cases (positive child_pid)) [
        | inl e ↦
            let make = child_group child_pid (value_at no_group s.groups g) in
            let (more, counted) =
              acquire-Counted (holders (λ t. t.group) (p ∷ ts)) (clone_thread flags) make s.groups g
                (others (λ t. t.group) c (p ∷ ts) s.groups ready.group b.groups)
                (held_live (λ t. t.group) p ts g is) (room n p ts few (λ t. t.group) g) in
            subst (Forked n (p ∷ ts) Complete) (sym (group_fork_lem s c p flags child_pid g is e)) (
              with_group-Forked n p ts few s c b ready.group ready.equipped
                (acquire (clone_thread flags) make s.groups g) more counted)
        | inr e ↦
            subst (Forked n (p ∷ ts) Complete) (sym (group_fork_bad s c p flags child_pid g is e))
              (gave_up s c einval b)
      ]

  then_group-Forked :
      (flags : ℕ) (child_pid : ℤ) (o : Outcome)
      → Complete p
      → Forked n (p ∷ ts) (Ready none) o
      → Forked n (p ∷ ts) Complete (then_group p flags child_pid o)
  unfolding then_group
  then_group-Forked flags child_pid _ all (forked s c m b ready) =
      group_fork-Forked s c flags child_pid b ready all
  then_group-Forked flags child_pid _ all (gave_up s c e b) = gave_up s c e b

  then_resources-Forked :
      (flags : ℕ) (child : Task) (o : Outcome)
      → Complete p
      → child.files ≡ none
      → child.fs_context ≡ none
      → child.sighand ≡ none
      → child.group ≡ none
      → Forked n (p ∷ ts) (λ d. (i : ℕ) × (d ≡ record child { mm = some i })) o
      → Forked n (p ∷ ts) (Ready none) (then_resources p flags o)
  unfolding then_resources
  then_resources-Forked flags child _ all f x h g (forked s c m b (i, is)) =
      subst (λ z. Forked n (p ∷ ts) (Ready z) (resources_fork s c p flags))
        (ap (λ d. d.group) is ∙ g)
        (resources_fork-Forked n p ts few s c flags b (ap (λ d. d.files) is ∙ f)
          (ap (λ d. d.fs_context) is ∙ x) (ap (λ d. d.sighand) is ∙ h) all.equipped
          (ap (λ d. holds_some d.mm) is))
  then_resources-Forked flags child _ all f x h g (gave_up s c e b) = gave_up s c e b

pub mm_fork_lem :
    (s : Store) (c p : Task) (flags m : ℕ)
    → p.mm ≡ some m
    → mm_fork s c p flags ≡ with_mm s c (acquire (clone_vm flags) (value_at no_mm s.mms m) s.mms m)
unfolding mm_fork
mm_fork_lem s c p flags m e = rw (e, mm_fork) refl

pub lacks_objects-Complete : (p : Task) → lacks_objects p ≡ false → Complete p
unfolding lacks_objects
lacks_objects-Complete p e = record {
  equipped = record {
    mm = ground (arith, e);
    files = ground (arith, e);
    fs_context = ground (arith, e);
    sighand = ground (arith, e);
  };
  group = ground (arith, e);
}

-- the steps of the constructor, once the guards have passed
abbrev pub steps : Store → Task → ℕ → ℤ → Outcome
steps s p flags child_pid =
    then_group p flags child_pid
      (then_resources p flags (mm_fork s (copied_values p child_pid) p flags))

steps-Launched :
    (n : ℕ) (p : Task) (ts : List Task) (s : Store) (flags : ℕ) (child_pid : ℤ)
    → length ts + 1 < u16_max
    → Balanced n (p ∷ ts) s
    → Complete p
    → Launched n (p ∷ ts) (or_discard (steps s p flags child_pid))
steps-Launched n p ts s flags child_pid few b all =
    let c = copied_values p child_pid in
    let (m, is) = holding p.mm all.equipped.mm in
    let b' : Balanced n (c ∷ p ∷ ts) s = record {
      tables = b.tables;
      files = b.files;
      fs_contexts = b.fs_contexts;
      sighands = b.sighands;
      mms = b.mms;
      groups = b.groups;
    } in
    let (more, counted) =
      acquire-Counted (holders (λ t. t.mm) (p ∷ ts)) (clone_vm flags) (value_at no_mm s.mms m) s.mms
        m b.mms (held_live (λ t. t.mm) p ts m is) (room n p ts few (λ t. t.mm) m) in
    let first =
      subst (Forked n (p ∷ ts) (λ d. (i : ℕ) × (d ≡ record c { mm = some i })))
        (sym (mm_fork_lem s c p flags m is))
        (with_mm-Forked n p ts few s c b' refl
          (acquire (clone_vm flags) (value_at no_mm s.mms m) s.mms m) more counted) in
    or_discard-Launched n (p ∷ ts) _ (
      then_group-Forked n p ts few flags child_pid _ all
        (then_resources-Forked n p ts few flags c _ all refl refl refl refl first))

-- Creating a child process or thread of a task `p`, where fewer than 65,535 tasks hold objects and
-- each object has as many references as tasks hold it: when the call succeeds, the child holds an
-- object of each of the five kinds and every count is that of the tasks with the child; when it fails,
-- at whatever step, every count is that of the tasks that were there. In both cases the descriptor
-- tables and the descriptions are in order.
pub init_child-Launched :
    (n : ℕ) (p : Task) (ts : List Task) (s : Store) (c : Task) (flags : ℕ) (child_pid : ℤ)
    (thread : Bool)
    → length ts + 1 < u16_max
    → Balanced n (p ∷ ts) s
    → Launched n (p ∷ ts) (init_child s c p flags child_pid thread)
unfolding init_child
init_child-Launched n p ts s c flags child_pid thread few b =
    elim (Bool-cases (not (positive child_pid) || lacks_objects p)) [
      | inl e ↦ rw (e, init_child) (called_off s c einval b)
      | inr e ↦ elim (Bool-cases (bad_flags flags thread)) [
        | inl f ↦ rw (e, init_child) (rw f (called_off s c einval b))
        | inr f ↦
            rw (e, init_child)
              (rw f (
                steps-Launched n p ts s flags child_pid few b
                  (lacks_objects-Complete p (ground (arith, e)))))
      ]
    ]
