-- ===== src/Fd/Inherit.antt =====
-- `lxp_fd_fork_inherit` of src/proc/lxp_process.c copies a table with a reference for each descriptor.
use lxp.Common.{
  ℕ, zero, suc, ◌<◌, ◌≡◌, ◌≢◌, refl, sym, ◌∙◌, ap, subst, inl, inr, List, [], ◌∷◌, arith, ◌==◌,
  length, get_or, set, length-set, get_or-set_self, get_or-set_ne, get_or-set_cases, Bool-cases,
}
use lxp.Fd.{Fd, Files, World, free_fd, no_files, files_at, entry}
use lxp.Fd.Share.{set_files, cleared}
use lxp.Fd.Count.{names_in, total-set, cells-set}
use lxp.Fd.Sound.{no_extra, Sound}
use lxp.Fd.Copy.{Owed, Shared, names_in_none}

cleared_free : (es : List Fd) (i : ℕ) → get_or (cleared es) i free_fd ≡ free_fd
cleared_free [] i = refl
cleared_free (e ∷ es) zero = refl
cleared_free (e ∷ es) (suc i) = cleared_free es i

length-cleared : (es : List Fd) → length (cleared es) ≡ length es
length-cleared [] = refl
length-cleared (e ∷ es) = ap suc (length-cleared es)

-- Clearing a table whose descriptors are all free.
pub cleared-Shared :
    (n : ℕ) (w : World) (t refs : ℕ) (es : List Fd)
    → Sound no_extra w
    → ((t' fd : ℕ) → t' ≢ t → (files_at w t').refs ≡ 0 → (entry w t' fd).ofd ≡ 0)
    → ((t' : ℕ) → t' < length w.tables → length (files_at w t').fd ≡ n)
    → t < length w.tables
    → ((fd : ℕ) → (entry w t fd).ofd ≡ 0)
    → length es ≡ n
    → Shared n (set_files w t (record { refs = refs; fd = cleared es }))
cleared-Shared n w t refs es s clean sized lt unused len =
    let f : Files = record { refs = refs; fd = cleared es } in
    let size = length-cleared es ∙ len in
    record {
      sound = record {
        counted = λ k k_lt.
            let a = total-set (suc k) w.tables t f lt in
            let b = names_in_none (files_at w t).fd k unused in
            let c = names_in_none (cleared es) k (λ i. ap (λ x. x.ofd) (cleared_free es i)) in
            omega (arith, a, b, c, s.counted k k_lt);
        named = λ t' fd. elim (get_or-set_cases w.tables t t' f no_files) [
          | inl (here, new) ↦ omega (
            arith,
            ap (λ x. (get_or x.fd fd free_fd).ofd) new,
            ap (λ x. x.ofd) (cleared_free es fd),
          )
          | inr old ↦ omega (arith, ap (λ x. (get_or x.fd fd free_fd).ofd) old, s.named t' fd)
        ];
        room = omega (arith, cells-set w.tables t f (size ∙ sym (sized t lt)), s.room);
      };
      clean = λ t' fd z. elim (Bool-cases (t == t')) [
        | inl same ↦
            let is : t ≡ t' = ground (arith, same) in
            subst (λ y. (entry (set_files w t f) y fd).ofd ≡ 0) is
              (ap (λ x. (get_or x.fd fd free_fd).ofd) (get_or-set_self w.tables t f no_files lt)
                ∙ ap (λ x. x.ofd) (cleared_free es fd))
        | inr apart ↦
            let ne : t ≢ t' = ground (arith, apart) in
            let old = get_or-set_ne w.tables t t' f no_files ne in
            ap (λ x. (get_or x.fd fd free_fd).ofd) old
            ∙ clean t' fd (λ y. ne (sym y)) (sym (ap (λ x. x.refs) old) ∙ z)
      ];
      sized = λ t' t_lt. elim (get_or-set_cases w.tables t t' f no_files) [
        | inl (here, new) ↦ ap (λ x. length x.fd) new ∙ size
        | inr old ↦
            ap (λ x. length x.fd) old ∙ sized t' (omega (arith, t_lt, length-set w.tables t f))
      ];
    }

abbrev pub one_user : Files → Files
one_user f = record { refs = 1; fd = f.fd }

abbrev pub with_tables : World → List Files → World
with_tables w ts = record w { tables = ts }

-- Once the references are there, the copied table is shared like the others.
pub Owed-Shared :
    (n : ℕ) (w w' : World) (t : ℕ) (f : Files)
    → Shared n w
    → t < length w.tables
    → Owed t [] w'
    → w'.tables ≡ set w.tables t f
    → f.refs ≢ 0
    → length f.fd ≡ n
    → Shared n w'
unfolding names_in
Owed-Shared n w w' t f s lt o e live size = record {
  sound = record {
    counted = λ k k_lt. omega (arith, o.counted k k_lt);
    named = o.named;
    room = o.room;
  };
  clean = λ t' fd z.
      let at' = ap (λ ts. get_or ts t' no_files) e in
      elim (get_or-set_cases w.tables t t' f no_files) [
        | inl (here, new) ↦ absurd (live (sym (ap (λ x. x.refs) (at' ∙ new)) ∙ z))
        | inr old ↦
            ap (λ x. (get_or x.fd fd free_fd).ofd) (at' ∙ old)
            ∙ s.clean t' fd (sym (ap (λ x. x.refs) (at' ∙ old)) ∙ z)
      ];
  sized = λ t' t_lt.
      let at' = ap (λ ts. get_or ts t' no_files) e in
      elim (get_or-set_cases w.tables t t' f no_files) [
        | inl (here, new) ↦ ap (λ x. length x.fd) (at' ∙ new) ∙ size
        | inr old ↦
            ap (λ x. length x.fd) (at' ∙ old)
            ∙ s.sized t' (omega (arith, t_lt, ap (λ ts. length ts) e, length-set w.tables t f))
      ];
}
