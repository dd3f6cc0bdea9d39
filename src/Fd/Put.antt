-- ===== src/Fd/Put.antt =====
-- `files_put` and `lxp_proc_files_unshare` of src/proc/lxp_process.c: a table's last user closes it.
use lxp.Common.{
  ℕ, zero, suc, ◌+◌, ◌-◌, ◌<◌, ◌≡◌, ◌≢◌, refl, sym, ◌∙◌, ap, subst, ◌⊎◌, inl, inr, arith, ltb, ◌==◌,
  length, get_or, length-set, get_or-set_self, get_or-set_ne, get_or-set_cases, get_or_beyond,
  Bool-cases, Option-cases,
}
use lxp.Common.Int.{pos}
use lxp.Fd.{
  Files, World, free_fd, no_files, files_at, entry, set_entry, fd_lookup, close, close_range,
}
use lxp.Fd.Share.{set_files, cleared}
use lxp.Fd.Count.{total-set, cells-set}
use lxp.Fd.Sound.{no_extra, Sound, entry-set_entry}
use lxp.Fd.Close.{close-Kept, close_used, close_unused, close_frees, tables_drop_ref}
use lxp.Fd.Calls.{close_range-Kept}
use lxp.Fd.Copy.{Shared}
use lxp.Fd.Inherit.{cleared-Shared}

close-entry :
    (w : World) (t fd i : ℕ)
    → ((entry (close w t (pos fd)).0 t i).ofd ≡ 0)
      ⊎ ((entry (close w t (pos fd)).0 t i).ofd ≡ (entry w t i).ofd)
close-entry w t fd i = elim (Option-cases (fd_lookup w t (pos fd))) [
  | inl e ↦ inr (ap (λ x. (entry x t i).ofd) (close_unused w t fd e))
  | inr (k, e) ↦
      let done = ap (λ x. (entry x.0 t i).ofd) (close_used w t fd k e) in
      let kept =
        ap (λ ts. (get_or (get_or ts t no_files).fd i free_fd).ofd)
          (tables_drop_ref (set_entry w t fd free_fd) k) in
      elim (entry-set_entry w t fd free_fd t i) [
        | inl new ↦ inl (done ∙ kept ∙ new)
        | inr old ↦ inr (done ∙ kept ∙ old)
      ]
]

close_self : (w : World) (t fd : ℕ) → Sound no_extra w → (entry (close w t (pos fd)).0 t fd).ofd ≡ 0
close_self w t fd s = elim (Bool-cases ((entry w t fd).ofd == 0)) [
  | inl z ↦
      let free : (entry w t fd).ofd ≡ 0 = ground (arith, z) in
      elim (close-entry w t fd fd) [ inl e ↦ e | inr e ↦ e ∙ free ]
  | inr z ↦
      let used : (entry w t fd).ofd ≡ suc ((entry w t fd).ofd - 1) = ground (arith, z) in
      elim (Bool-cases (ltb fd (length (files_at w t).fd))) [
        | inl lt ↦ ap (λ x. x.ofd) (close_frees no_extra w t fd _ s (ground (arith, lt)) used).0
        | inr ge ↦
            let out = get_or_beyond (files_at w t).fd fd free_fd (ground (arith, ge)) in
            absurd (omega (arith, used, ap (λ x. x.ofd) out))
      ]
]

-- After the loop, no descriptor below its end is in use.
close_range_frees :
    (n fd : ℕ) (w : World) (t : ℕ)
    → Sound no_extra w
    → ((i : ℕ) → i < fd → (entry w t i).ofd ≡ 0)
    → (i : ℕ) → i < fd + n
    → (entry (close_range n fd w t) t i).ofd ≡ 0
unfolding close_range
close_range_frees zero fd w t s below i lt = below i (omega (arith, lt))
close_range_frees (suc n) fd w t s below i lt =
    close_range_frees n (fd + 1) (close w t (pos fd)).0 t (close-Kept no_extra w t fd s).sound
      (λ j j_lt. elim (Bool-cases (j == fd)) [
        | inl here ↦
            subst (λ z. (entry (close w t (pos fd)).0 t z).ofd ≡ 0) (ground (arith, here))
              (close_self w t fd s)
        | inr far ↦ elim (close-entry w t fd j) [
          | inl e ↦ e
          | inr e ↦ e ∙ below j (ground (arith, far, j_lt))
        ]
      ])
      i (omega (arith, lt))

-- The count of users of a table is no part of what descriptions count.
pub recounted-Sound :
    (w : World) (t refs : ℕ)
    → Sound no_extra w
    → t < length w.tables
    → Sound no_extra (set_files w t (record (files_at w t) { refs = refs }))
recounted-Sound w t refs s lt =
    let f : Files = record (files_at w t) { refs = refs } in
    record {
      counted = λ k k_lt. omega (arith, total-set (suc k) w.tables t f lt, s.counted k k_lt);
      named = λ t' fd. elim (get_or-set_cases w.tables t t' f no_files) [
        | inl (here, new) ↦ omega (arith, ap (λ x. (get_or x.fd fd free_fd).ofd) new, s.named t fd)
        | inr old ↦ omega (arith, ap (λ x. (get_or x.fd fd free_fd).ofd) old, s.named t' fd)
      ];
      room = omega (arith, cells-set w.tables t f refl, s.room);
    }

pub recounted-Shared :
    (n : ℕ) (w : World) (t refs : ℕ)
    → Shared n w
    → t < length w.tables
    → refs ≢ 0
    → Shared n (set_files w t (record (files_at w t) { refs = refs }))
recounted-Shared n w t refs s lt live =
    let f : Files = record (files_at w t) { refs = refs } in
    record {
      sound = recounted-Sound w t refs s.sound lt;
      clean = λ t' fd z. elim (get_or-set_cases w.tables t t' f no_files) [
        | inl (here, new) ↦ absurd (live (sym (ap (λ x. x.refs) new) ∙ z))
        | inr old ↦
            ap (λ x. (get_or x.fd fd free_fd).ofd) old
            ∙ s.clean t' fd (sym (ap (λ x. x.refs) old) ∙ z)
      ];
      sized = λ t' t_lt. elim (get_or-set_cases w.tables t t' f no_files) [
        | inl (here, new) ↦ ap (λ x. length x.fd) new ∙ s.sized t lt
        | inr old ↦
            ap (λ x. length x.fd) old ∙ s.sized t' (omega (arith, t_lt, length-set w.tables t f))
      ];
    }

-- The last user's table, emptied.
pub emptied-Shared :
    (n : ℕ) (w : World) (t : ℕ)
    → Shared n w
    → t < length w.tables
    → (let w1 = set_files w t (record (files_at w t) { refs = 0 }) in
        let w2 = close_range (length (files_at w t).fd) 0 w1 t in
        Shared n (set_files w2 t (record { refs = 0; fd = cleared (files_at w2 t).fd })))
emptied-Shared n w t s lt =
    let f : Files = record (files_at w t) { refs = 0 } in
    let w1 = set_files w t f in
    let s1 = recounted-Sound w t 0 s.sound lt in
    let m = length (files_at w t).fd in
    let kept = close_range-Kept m 0 w1 t s1 in
    let w2 = close_range m 0 w1 t in
    let at_t = get_or-set_self w.tables t f no_files lt in
    let size1 : length (files_at w1 t).fd ≡ m = ap (λ x. length x.fd) at_t in
    let count2 : length w2.tables ≡ length w.tables = kept.touch.count ∙ length-set w.tables t f in
    let old : (t' : ℕ) → t' ≢ t → files_at w1 t' ≡ files_at w t' =
      λ t' ne. get_or-set_ne w.tables t t' f no_files (λ z. ne (sym z)) in
    let sized2 : (t' : ℕ) → t' < length w2.tables → length (files_at w2 t').fd ≡ n = λ t' t_lt.
      elim (get_or-set_cases w.tables t t' f no_files) [
        | inl (here, new) ↦ kept.touch.sizes t' ∙ ap (λ x. length x.fd) new ∙ s.sized t lt
        | inr same ↦
            kept.touch.sizes t'
            ∙ ap (λ x. length x.fd) same
            ∙ s.sized t' (omega (arith, t_lt, count2))
      ] in
    cleared-Shared n w2 t 0 (files_at w2 t).fd kept.sound
      (λ t' fd ne z.
        kept.touch.others t' fd ne
        ∙ ap (λ x. (get_or x.fd fd free_fd).ofd) (old t' ne)
        ∙ s.clean t' fd (sym (ap (λ x. x.refs) (old t' ne)) ∙ sym (kept.touch.refs t') ∙ z))
      sized2 (omega (arith, lt, count2))
      (λ fd. elim (Bool-cases (ltb fd m)) [
        | inl fd_lt ↦
            close_range_frees m 0 w1 t s1 (λ i i_lt. absurd (omega (arith, i_lt))) fd
              (ground (arith, fd_lt))
        | inr ge ↦
            ap (λ x. x.ofd)
              (get_or_beyond (files_at w2 t).fd fd free_fd
                (ground (arith, ge, kept.touch.sizes t, size1)))
      ])
      (sized2 t (omega (arith, lt, count2)))
