-- ===== src/Fd/Copy.antt =====
-- Copying and giving up descriptor tables keeps the reference counts.
use lxp.Common.{
  ℕ, suc, ◌+◌, ◌-◌, ◌≤◌, ◌<◌, ◌≡◌, ◌≢◌, refl, sym, ◌∙◌, ap, subst, inl, inr, none, some, List, [],
  ◌∷◌, arith, ◌==◌, length, get_or, length-set, get_or-set_self, get_or-set_ne, get_or-set_cases,
  Bool-cases,
}
use lxp.Common.Int.{pos}
use lxp.Fd.{
  Fd, Files, World, u16_max, free_fd, zero_ofd, no_files, files_at, entry, ofd_at, inc16, fd_lookup,
  retained,
}
use lxp.Fd.Share.{set_files, retain_range, free_table}
use lxp.Fd.Count.{names_in, total, cells, total-set, cells-set, total_le}
use lxp.Fd.Sound.{no_extra, Sound, refs_pos}

-- The table `t` is counted already, but its descriptors `rest` have no references yet.
pub record Owed (t : ℕ) (rest : List Fd) (w : World) : Type 0 where
  pub counted :
      (k : ℕ)
      → k < length w.ofds
      → (ofd_at w k).refs + names_in (suc k) rest ≡ total (suc k) w.tables
  pub named : (t fd : ℕ) → (entry w t fd).ofd ≤ length w.ofds
  pub room : cells w.tables ≤ u16_max
  pub live :
      (fd k : ℕ)
      → fd < length (files_at w t).fd
      → (entry w t fd).ofd ≡ suc k
      → 1 ≤ (ofd_at w k).refs

retain_one :
    (t : ℕ) (c : Fd) (rest : List Fd) (w : World) (k : ℕ)
    → Owed t (c ∷ rest) w
    → c.ofd ≡ suc k
    → k < length w.ofds
    → Owed t rest (retained w k)
unfolding names_in
retain_one t c rest w k s e lt =
    let o = record (ofd_at w k) { refs = inc16 (ofd_at w k).refs } in
    let most : (ofd_at w k).refs + 1 ≤ u16_max =
      ground (arith, e, s.counted k lt, total_le (suc k) w.tables, s.room) in
    let exact : inc16 (ofd_at w k).refs ≡ (ofd_at w k).refs + 1 = omega (arith, most) in
    let here : (ofd_at (retained w k) k).refs ≡ (ofd_at w k).refs + 1 =
      ap (λ z. z.refs) (get_or-set_self w.ofds k o zero_ofd lt) ∙ exact in
    let there : (j : ℕ) → k ≢ j → (ofd_at (retained w k) j).refs ≡ (ofd_at w j).refs =
      λ j ne. ap (λ z. z.refs) (get_or-set_ne w.ofds k j o zero_ofd ne) in
    let sizes = length-set w.ofds k o in
    record {
      counted = λ j j_lt. elim (Bool-cases (k == j)) [
        | inl same ↦
            let is : k ≡ j = ground (arith, same) in
            subst
              (λ z. (ofd_at (retained w k) z).refs + names_in (suc z) rest ≡ total (suc z) w.tables)
              is (ground (arith, here, e, s.counted k lt))
        | inr apart ↦
            let ne : k ≢ j = ground (arith, apart) in
            ground (arith, there j ne, e, ne, s.counted j (omega (arith, sizes, j_lt)))
      ];
      named = λ t' fd. omega (arith, s.named t' fd, sizes);
      room = s.room;
      live = λ fd j fd_lt at. elim (Bool-cases (k == j)) [
        | inl same ↦
            let is : k ≡ j = ground (arith, same) in
            subst (λ z. 1 ≤ (ofd_at (retained w k) z).refs) is (omega (arith, here))
        | inr apart ↦ omega (arith, there j (ground (arith, apart)), s.live fd j fd_lt at)
      ];
    }

skip_one :
    (t : ℕ) (c : Fd) (rest : List Fd) (w : World) → Owed t (c ∷ rest) w → c.ofd ≡ 0 → Owed t rest w
unfolding names_in
skip_one t c rest w s z = record {
  counted = λ k lt. ground (arith, z, s.counted k lt);
  named = s.named;
  room = s.room;
  live = s.live;
}

lookup_free : (w : World) (t fd : ℕ) → (entry w t fd).ofd ≡ 0 → fd_lookup w t (pos fd) ≡ none
unfolding fd_lookup
lookup_free w t fd e = ground (arith, e)

lookup_live :
    (w : World) (t fd k : ℕ)
    → fd < length (files_at w t).fd
    → (entry w t fd).ofd ≡ suc k
    → k < length w.ofds
    → 1 ≤ (ofd_at w k).refs
    → fd_lookup w t (pos fd) ≡ some k
unfolding fd_lookup
lookup_live w t fd k lt e k_lt live = rw e (ground (arith, lt, live, k_lt))

retain_skips :
    (n fd : ℕ) (w : World) (t : ℕ)
    → fd_lookup w t (pos fd) ≡ none
    → retain_range (suc n) fd w t ≡ retain_range n (fd + 1) w t
unfolding retain_range
retain_skips n fd w t e =
    ap (λ o. retain_range n (fd + 1) (elim o [ none ↦ w | some k ↦ retained w k ]) t) e

retain_counts :
    (n fd : ℕ) (w : World) (t k : ℕ)
    → fd_lookup w t (pos fd) ≡ some k
    → retain_range (suc n) fd w t ≡ retain_range n (fd + 1) (retained w k) t
unfolding retain_range
retain_counts n fd w t k e =
    ap (λ o. retain_range n (fd + 1) (elim o [ none ↦ w | some k ↦ retained w k ]) t) e

pub retain_range-Owed :
    (t : ℕ) (rest : List Fd) (fd : ℕ) (w : World)
    → Owed t rest w
    → fd + length rest ≡ length (files_at w t).fd
    → ((i : ℕ) → i < length rest → entry w t (fd + i) ≡ get_or rest i free_fd)
    → Owed t [] (retain_range (length rest) fd w t)
      × ((retain_range (length rest) fd w t).tables ≡ w.tables)
      × (length (retain_range (length rest) fd w t).ofds ≡ length w.ofds)
retain_range-Owed t [] fd w s e same = unfold retain_range in (s, refl, refl)
retain_range-Owed t (c ∷ rest) fd w s e same =
    let here : (entry w t fd).ofd ≡ c.ofd =
      subst (λ z. (entry w t z).ofd ≡ c.ofd) (omega arith)
        (ap (λ x. x.ofd) (same 0 (omega arith))) in
    let same' : (i : ℕ) → i < length rest → entry w t (fd + 1 + i) ≡ get_or rest i free_fd = λ i lt.
      subst (λ z. entry w t z ≡ get_or rest i free_fd) (omega arith) (same (suc i) (omega arith)) in
    elim (Bool-cases (c.ofd == 0)) [
      | inl z ↦
          rw (retain_skips (length rest) fd w t (lookup_free w t fd (here ∙ ground (arith, z)))) (
            retain_range-Owed t rest (fd + 1) w (skip_one t c rest w s (ground (arith, z)))
              (omega (arith, e)) same')
      | inr z ↦
          let used : c.ofd ≡ suc (c.ofd - 1) = ground (arith, z) in
          let in_table : fd < length (files_at w t).fd = omega (arith, e) in
          let lt : c.ofd - 1 < length w.ofds = omega (arith, used, here, s.named t fd) in
          let found =
            lookup_live w t fd (c.ofd - 1) in_table (here ∙ used) lt
              (s.live fd (c.ofd - 1) in_table (here ∙ used)) in
          let (done, tables_kept, ofds_kept) =
            retain_range-Owed t rest (fd + 1) (retained w (c.ofd - 1))
              (retain_one t c rest w (c.ofd - 1) s used lt) (omega (arith, e)) same' in
          rw (retain_counts (length rest) fd w t (c.ofd - 1) found)
            (done, tables_kept, ofds_kept ∙ length-set w.ofds (c.ofd - 1) _)
    ]

-- A table without references has no descriptors in use, and all tables are of one size.
pub record Shared (n : ℕ) (w : World) : Type 0 where
  pub sound : Sound no_extra w
  pub clean : (t fd : ℕ) → (files_at w t).refs ≡ 0 → (entry w t fd).ofd ≡ 0
  pub sized : (t : ℕ) → t < length w.tables → length (files_at w t).fd ≡ n

pub names_in_none :
    (es : List Fd) (k : ℕ) → ((i : ℕ) → (get_or es i free_fd).ofd ≡ 0) → names_in (suc k) es ≡ 0
unfolding names_in
names_in_none [] k h = refl
names_in_none (e ∷ es) k h = ground (arith, h 0, names_in_none es k (λ i. h (suc i)))

pub free_table-some :
    (fs : List Files) (i t : ℕ)
    → free_table i fs ≡ some t
    → (d : ℕ) × (t ≡ i + d) × (d < length fs) × ((get_or fs d no_files).refs ≡ 0)
unfolding free_table
free_table-some [] i t e = absurd (ground (arith, e))
free_table-some (f ∷ fs) i t e = elim (Bool-cases (f.refs == 0)) [
  | inl z ↦ (0, ground (arith, e, z), omega arith, ground (arith, z))
  | inr z ↦
      let (d, at, lt, unused) = free_table-some fs (i + 1) t (ground (arith, e, z)) in
      (suc d, omega (arith, at), omega arith, unused)
]

-- A copy of the table `src` in the free table `t'` has descriptors, but owes the references.
pub copied-Owed :
    (n : ℕ) (w : World) (src t' refs : ℕ)
    → Shared n w
    → src < length w.tables
    → t' < length w.tables
    → (files_at w t').refs ≡ 0
    → Owed t'
        (files_at w src).fd
        (set_files w t' (record { refs = refs; fd = (files_at w src).fd }))
copied-Owed n w src t' refs s src_lt t_lt unused =
    let f : Files = record { refs = refs; fd = (files_at w src).fd } in
    let new = get_or-set_self w.tables t' f no_files t_lt in
    let sizes = s.sized src src_lt ∙ sym (s.sized t' t_lt) in
    let named' : (t fd : ℕ) → (entry (set_files w t' f) t fd).ofd ≤ length w.ofds = λ t fd.
      elim (get_or-set_cases w.tables t' t f no_files) [
        | inl (here, set_here) ↦
            omega (arith, ap (λ x. (get_or x.fd fd free_fd).ofd) set_here, s.sound.named src fd)
        | inr old ↦ omega (arith, ap (λ x. (get_or x.fd fd free_fd).ofd) old, s.sound.named t fd)
      ] in
    record {
      counted = λ k k_lt.
          let a = total-set (suc k) w.tables t' f t_lt in
          let b = names_in_none (files_at w t').fd k (λ i. s.clean t' i unused) in
          omega (arith, a, b, s.sound.counted k k_lt);
      named = named';
      room = omega (arith, cells-set w.tables t' f sizes, s.sound.room);
      live = λ fd k lt e.
          let same = ap (λ x. (get_or x.fd fd free_fd).ofd) new in
          let len = ap (λ x. length x.fd) new in
          (refs_pos no_extra w src fd k s.sound (omega (arith, lt, len)) (sym same ∙ e)).1;
    }
