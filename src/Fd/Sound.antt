-- ===== src/Fd/Sound.antt =====
-- The invariant of src/fs/lxp_fd.c: a description has as many references as descriptors name it.
use lxp.Common.{
  ℕ, suc, ◌+◌, ◌≤◌, ◌<◌, ◌≡◌, ◌≢◌, sym, ◌⊎◌, get_or-set_cases, ◌∙◌, ap, subst, inl, inr, some, List,
  arith, ltb, ◌==◌, if◌then◌else◌, length, get_or, set, length-set, get_or_beyond, get_or-set_self,
  get_or-set_ne, Bool-cases,
}
use lxp.Common.Int.{pos}
use lxp.Fd.{
  Fd, Ofd, Files, World, u16_max, free_fd, zero_ofd, no_files, files_at, entry, ofd_at, set_entry,
  set_ofd, fd_lookup,
}
use lxp.Fd.Count.{
  names, names_in, total, cells, names_in-set, total-set, cells-set, names_in-get_or, total-get_or,
}

-- References held by no descriptor: none, or one to `k`.
abbrev pub no_extra : ℕ → ℕ
no_extra j = 0

abbrev pub one_extra : ℕ → ℕ → ℕ
one_extra k j = if j == k then 1 else 0

-- Each description has a reference from each descriptor that names it, and `extra` more; descriptors
-- name descriptions of the pool; and there are no more descriptors than a count can hold.
pub record Sound (extra : ℕ → ℕ) (w : World) : Type 0 where
  pub counted : (k : ℕ) → k < length w.ofds → (ofd_at w k).refs ≡ total (suc k) w.tables + extra k
  pub named : (t fd : ℕ) → (entry w t fd).ofd ≤ length w.ofds
  pub room : cells w.tables ≤ u16_max

pub entry-set_entry :
    (w : World) (t fd : ℕ) (e : Fd) (t' fd' : ℕ)
    → (entry (set_entry w t fd e) t' fd').ofd ≡ e.ofd
      ⊎ (entry (set_entry w t fd e) t' fd').ofd ≡ (entry w t' fd').ofd
entry-set_entry w t fd e t' fd' =
    let f = record (files_at w t) { fd = set (files_at w t).fd fd e } in
    elim (get_or-set_cases w.tables t t' f no_files) [
      | inr same ↦ inr (ap (λ x. (get_or x.fd fd' free_fd).ofd) same)
      | inl (here, new) ↦ elim (get_or-set_cases (files_at w t).fd fd fd' e free_fd) [
        | inl (at, set_here) ↦
            inl (ap (λ x. (get_or x.fd fd' free_fd).ofd) new ∙ ap (λ x. x.ofd) set_here)
        | inr kept ↦ inr (
            ap (λ x. (get_or x.fd fd' free_fd).ofd) new
            ∙ ap (λ x. x.ofd) kept
            ∙ ap (λ z. (entry w z fd').ofd) here)
      ]
    ]

pub Sound-entry :
    (x x' : ℕ → ℕ) (w : World) (t fd : ℕ) (e : Fd)
    → Sound x w
    → t < length w.tables
    → fd < length (files_at w t).fd
    → e.ofd ≤ length w.ofds
    → ((k : ℕ) → names (suc k) (entry w t fd) + x k ≡ names (suc k) e + x' k)
    → Sound x' (set_entry w t fd e)
Sound-entry x x' w t fd e s ht hf he h = record {
  counted = λ k lt.
      let a = s.counted k lt in
      let b =
        total-set (suc k) w.tables t (record (files_at w t) { fd = set (files_at w t).fd fd e })
          ht in
      let c = names_in-set (suc k) (files_at w t).fd fd e hf in
      let d = h k in omega (arith, a, b, c, d);
  named = λ t' fd'. elim (entry-set_entry w t fd e t' fd') [
    | inl new ↦ omega (arith, new, he)
    | inr old ↦ omega (arith, old, s.named t' fd')
  ];
  room =
      let c =
        cells-set w.tables t (record (files_at w t) { fd = set (files_at w t).fd fd e })
          (length-set (files_at w t).fd fd e) in
      omega (arith, c, s.room);
}

pub Sound-ofd :
    (x x' : ℕ → ℕ) (w : World) (k : ℕ) (o : Ofd)
    → Sound x w
    → k < length w.ofds
    → o.refs + x k ≡ (ofd_at w k).refs + x' k
    → ((j : ℕ) → j ≢ k → x' j ≡ x j)
    → Sound x' (set_ofd w k o)
Sound-ofd x x' w k o s lt e other = record {
  counted = λ j j_lt. elim (Bool-cases (k == j)) [
    | inl same ↦
        let here : k ≡ j = ground (arith, same) in
        subst (λ z. (ofd_at (set_ofd w k o) z).refs ≡ total (suc z) w.tables + x' z) here
          (ap (λ z. z.refs) (get_or-set_self w.ofds k o zero_ofd lt)
            ∙ omega (arith, e, s.counted k lt))
    | inr apart ↦
        let kept = ap (λ z. z.refs) (get_or-set_ne w.ofds k j o zero_ofd (ground (arith, apart))) in
        let length_kept = length-set w.ofds k o in
        let was = s.counted j (omega (arith, length_kept, j_lt)) in
        let x_kept = other j (ground (arith, apart)) in omega (arith, kept, was, x_kept)
  ];
  named = λ t fd. omega (arith, s.named t fd, length-set w.ofds k o);
  room = s.room;
}

pub Sound-closed :
    (x : ℕ → ℕ) (w : World) (os : List Ofd) → Sound x w → Sound x (record w { closed = os })
Sound-closed x w os s = record { counted = s.counted; named = s.named; room = s.room }

-- What a descriptor that is looked up with success is.
pub fd_lookup-some :
    (w : World) (t fd k : ℕ)
    → fd_lookup w t (pos fd) ≡ some k
    → (fd < length (files_at w t).fd) × ((entry w t fd).ofd ≡ suc k) × (k < length w.ofds)
unfolding fd_lookup
fd_lookup-some w t fd k e = (ground arith, ground arith, ground arith)

-- Only a table of the pool has descriptors.
pub table_lt : (w : World) (t fd : ℕ) → fd < length (files_at w t).fd → t < length w.tables
table_lt w t fd lt = elim (Bool-cases (ltb t (length w.tables))) [
  | inl e ↦ ground (arith, e)
  | inr e ↦
      let beyond = ap (λ f. length f.fd) (get_or_beyond w.tables t no_files (ground (arith, e))) in
      absurd (omega (arith, beyond, lt))
]

-- A description that a descriptor names is counted at least once.
pub refs_pos :
    (x : ℕ → ℕ) (w : World) (t fd k : ℕ)
    → Sound x w
    → fd < length (files_at w t).fd
    → (entry w t fd).ofd ≡ suc k
    → (k < length w.ofds) × (1 ≤ (ofd_at w k).refs)
refs_pos x w t fd k s lt e =
    let k_lt : k < length w.ofds = omega (arith, e, s.named t fd) in
    let a = names_in-get_or (files_at w t).fd fd lt in
    let b = total-get_or (suc k) w.tables t (table_lt w t fd lt) in
    let a' = subst (λ o. 1 ≤ names_in o (files_at w t).fd) e a in
    (k_lt, omega (arith, a', b, s.counted k k_lt))

-- Whether a descriptor is in use is all that a look-up of it depends on.
pub fd_lookup_used :
    (x : ℕ → ℕ) (w : World) (t fd k : ℕ)
    → Sound x w
    → fd < length (files_at w t).fd
    → (entry w t fd).ofd ≡ suc k
    → fd_lookup w t (pos fd) ≡ some k
unfolding fd_lookup
fd_lookup_used x w t fd k s lt e =
    let (k_lt, live) = refs_pos x w t fd k s lt e in rw e (ground (arith, live))

-- What calls on the table `t` leave alone.
pub record Touch (t : ℕ) (w w' : World) : Type 0 where
  pub refs : (t' : ℕ) → (files_at w' t').refs ≡ (files_at w t').refs
  pub sizes : (t' : ℕ) → length (files_at w' t').fd ≡ length (files_at w t').fd
  pub count : length w'.tables ≡ length w.tables
  pub others : (t' fd : ℕ) → t' ≢ t → (entry w' t' fd).ofd ≡ (entry w t' fd).ofd

pub Touch-tables : (t : ℕ) (w w' : World) → w'.tables ≡ w.tables → Touch t w w'
Touch-tables t w w' e = record {
  refs = λ t'. ap (λ ts. (get_or ts t' no_files).refs) e;
  sizes = λ t'. ap (λ ts. length (get_or ts t' no_files).fd) e;
  count = ap (λ ts. length ts) e;
  others = λ t' fd ne. ap (λ ts. (get_or (get_or ts t' no_files).fd fd free_fd).ofd) e;
}

pub Touch-trans : (t : ℕ) (w w' w'' : World) → Touch t w w' → Touch t w' w'' → Touch t w w''
Touch-trans t w w' w'' a b = record {
  refs = λ t'. b.refs t' ∙ a.refs t';
  sizes = λ t'. b.sizes t' ∙ a.sizes t';
  count = b.count ∙ a.count;
  others = λ t' fd ne. b.others t' fd ne ∙ a.others t' fd ne;
}

pub Touch-entry : (t : ℕ) (w : World) (fd : ℕ) (e : Fd) → Touch t w (set_entry w t fd e)
Touch-entry t w fd e =
    let f : Files = record (files_at w t) { fd = set (files_at w t).fd fd e } in
    record {
      refs = λ t'. elim (get_or-set_cases w.tables t t' f no_files) [
        | inl (here, new) ↦ ap (λ x. x.refs) new ∙ ap (λ z. (files_at w z).refs) here
        | inr old ↦ ap (λ x. x.refs) old
      ];
      sizes = λ t'. elim (get_or-set_cases w.tables t t' f no_files) [
        | inl (here, new) ↦
            ap (λ x. length x.fd) new
            ∙ length-set (files_at w t).fd fd e
            ∙ ap (λ z. length (files_at w z).fd) here
        | inr old ↦ ap (λ x. length x.fd) old
      ];
      count = length-set w.tables t f;
      others = λ t' fd' ne.
          ap (λ x. (get_or x.fd fd' free_fd).ofd)
            (get_or-set_ne w.tables t t' f no_files (λ z. ne (sym z)));
    }
