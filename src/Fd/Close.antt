-- ===== src/Fd/Close.antt =====
-- close of src/fs/lxp_fd.c and the reference it gives up.
use lxp.Common.{
  ℕ, suc, ◌+◌, ◌-◌, ◌≤◌, ◌<◌, ◌≡◌, refl, ◌∙◌, ap, inl, inr, none, some, arith, ◌==◌, length, get_or,
  set, length-set, get_or-set_self, get_or-set_cases, Bool-cases, Option-cases, ok,
}
use lxp.Common.Int.{pos}
use lxp.Fd.{
  Fd, World, free_fd, zero_ofd, no_files, files_at, entry, ofd_at, set_entry, set_ofd, fd_lookup,
  drop_ref, close,
}
use lxp.Fd.Sound.{
  one_extra, Touch, Touch-tables, Touch-trans, Touch-entry, Sound, Sound-entry, Sound-ofd,
  Sound-closed, fd_lookup-some, table_lt, refs_pos, fd_lookup_used,
}

abbrev plus_one : (ℕ → ℕ) → ℕ → ℕ → ℕ
plus_one x k j = x j + one_extra k j

-- A reference without a descriptor is given up.
pub drop_ref-Sound :
    (x : ℕ → ℕ) (w : World) (k : ℕ)
    → Sound (plus_one x k) w
    → k < length w.ofds
    → 1 ≤ (ofd_at w k).refs
    → Sound x (drop_ref w k)
unfolding drop_ref
drop_ref-Sound x w k s lt live =
    let o = record (ofd_at w k) { refs = (ofd_at w k).refs - 1 } in
    elim (Bool-cases ((ofd_at w k).refs - 1 == 0)) [
      | inl last ↦ rw last (
          Sound-closed x (set_ofd w k zero_ofd) _ (
            Sound-ofd (plus_one x k) x w k zero_ofd s lt (ground (arith, last, live))
              (λ j ne. ground (arith, ne))))
      | inr more ↦ rw more (
          Sound-ofd (plus_one x k) x w k o s lt (ground (arith, live)) (λ j ne. ground (arith, ne)))
    ]

clear-Sound :
    (x : ℕ → ℕ) (w : World) (t fd k : ℕ)
    → Sound x w
    → fd < length (files_at w t).fd
    → (entry w t fd).ofd ≡ suc k
    → Sound (plus_one x k) (set_entry w t fd free_fd)
clear-Sound x w t fd k s lt e =
    Sound-entry x (plus_one x k) w t fd free_fd s (table_lt w t fd lt) lt (omega arith)
      (λ j. ground (arith, e))

pub close_used :
    (w : World) (t fd k : ℕ)
    → fd_lookup w t (pos fd) ≡ some k
    → close w t (pos fd) ≡ (drop_ref (set_entry w t fd free_fd) k, ok 0)
unfolding close
close_used w t fd k e = rw (e, close) refl

pub close_unused :
    (w : World) (t fd : ℕ) → fd_lookup w t (pos fd) ≡ none → (close w t (pos fd)).0 ≡ w
unfolding close
close_unused w t fd e = rw (e, close) refl

pub tables_drop_ref : (w : World) (k : ℕ) → (drop_ref w k).tables ≡ w.tables
unfolding drop_ref
tables_drop_ref w k = ground arith

-- What a call on the table `t` comes to: the counts hold still, and no other table is changed.
pub record Kept (x : ℕ → ℕ) (t : ℕ) (w w' : World) : Type 0 where
  pub sound : Sound x w'
  pub touch : Touch t w w'

pub same_world : (x : ℕ → ℕ) (t : ℕ) (w : World) → Sound x w → Kept x t w w
same_world x t w s = record { sound = s; touch = Touch-tables t w w refl }

pub close-Kept : (x : ℕ → ℕ) (w : World) (t fd : ℕ) → Sound x w → Kept x t w (close w t (pos fd)).0
close-Kept x w t fd s = elim (Option-cases (fd_lookup w t (pos fd))) [
  | inl e ↦ rw (close_unused w t fd e) (same_world x t w s)
  | inr (k, e) ↦
      let (lt, named, k_lt) = fd_lookup-some w t fd k e in
      let (k_lt', live) = refs_pos x w t fd k s lt named in
      rw (close_used w t fd k e) (record {
        sound =
            drop_ref-Sound x (set_entry w t fd free_fd) k (clear-Sound x w t fd k s lt named) k_lt
              live;
        touch =
            Touch-trans t w (set_entry w t fd free_fd) _ (Touch-entry t w fd free_fd)
              (Touch-tables t _ _ (tables_drop_ref (set_entry w t fd free_fd) k));
      })
]

length-drop_ref : (w : World) (k : ℕ) → length (drop_ref w k).ofds ≡ length w.ofds
unfolding drop_ref
length-drop_ref w k = elim (Bool-cases ((ofd_at w k).refs - 1 == 0)) [
  | inl e ↦ rw e (length-set w.ofds k zero_ofd)
  | inr e ↦ rw e (length-set w.ofds k _)
]

entry-set_self :
    (w : World) (t fd : ℕ) (e : Fd)
    → fd < length (files_at w t).fd
    → entry (set_entry w t fd e) t fd ≡ e
entry-set_self w t fd e lt =
    ap (λ f. get_or f.fd fd free_fd) (get_or-set_self w.tables t _ no_files (table_lt w t fd lt))
    ∙ get_or-set_self (files_at w t).fd fd e free_fd lt

length-set_entry :
    (w : World) (t fd : ℕ) (e : Fd) (t' : ℕ)
    → length (files_at (set_entry w t fd e) t').fd ≡ length (files_at w t').fd
length-set_entry w t fd e t' =
    elim (get_or-set_cases w.tables t t' (record (files_at w t) { fd = set (files_at w t).fd fd e })
      no_files) [
        | inl (here, new) ↦
            ap (λ f. length f.fd) new
            ∙ length-set (files_at w t).fd fd e
            ∙ ap (λ z. length (files_at w z).fd) here
        | inr old ↦ ap (λ f. length f.fd) old
      ]

-- Closing a descriptor frees its entry and keeps the sizes.
pub close_frees :
    (x : ℕ → ℕ) (w : World) (t fd k : ℕ)
    → Sound x w
    → fd < length (files_at w t).fd
    → (entry w t fd).ofd ≡ suc k
    → (entry (close w t (pos fd)).0 t fd ≡ free_fd)
      × (length (files_at (close w t (pos fd)).0 t).fd ≡ length (files_at w t).fd)
      × (length (close w t (pos fd)).0.ofds ≡ length w.ofds)
close_frees x w t fd k s lt e =
    let w' = set_entry w t fd free_fd in
    let same = tables_drop_ref w' k in
    rw (close_used w t fd k (fd_lookup_used x w t fd k s lt e)) (
      ap (λ ts. get_or (get_or ts t no_files).fd fd free_fd) same
          ∙ entry-set_self w t fd free_fd lt,
      ap (λ ts. length (get_or ts t no_files).fd) same ∙ length-set_entry w t fd free_fd t,
      length-drop_ref w' k,
    )
