-- ===== src/Fd/Open.antt =====
-- lxp_fd_open of src/fs/lxp_fd.c and its search for a free descriptor.
use lxp.Common.{
  ℕ, suc, ◌+◌, ◌≤◌, ◌<◌, ◌≡◌, refl, subst, inl, inr, Bool, some, List, [], ◌∷◌, arith, leb, ◌==◌,
  ◌&&◌, ◌||◌, not, length, get_or, length-set, Bool-cases, Option-cases,
}
use lxp.Common.Int.{ℤ}
use lxp.Fd.{
  Fd, Ofd, World, free_fd, zero_ofd, files_at, entry, ofd_at, set_ofd, free_ofd_from, free_fd_from,
  fd_open, opened, wants_cloexec, pointing,
}
use lxp.Fd.Sound.{
  no_extra, one_extra, Touch-tables, Touch-trans, Touch-entry, Sound, Sound-entry, Sound-ofd,
  table_lt,
}
use lxp.Fd.Close.{Kept, same_world}

free_ofd_from-some :
    (os : List Ofd) (i k : ℕ)
    → free_ofd_from i os ≡ some k
    → (d : ℕ) × (k ≡ i + d) × (d < length os) × ((get_or os d zero_ofd).refs ≡ 0)
unfolding free_ofd_from
free_ofd_from-some [] i k e = absurd (ground (arith, e))
free_ofd_from-some (o ∷ os) i k e = elim (Bool-cases (o.refs == 0)) [
  | inl f ↦ (0, ground (arith, e, f), omega arith, ground (arith, f))
  | inr f ↦
      let (d, at, lt, unused) = free_ofd_from-some os (i + 1) k (ground (arith, e, f)) in
      (suc d, omega (arith, at), omega arith, unused)
]

free_fd_from-some :
    (es : List Fd) (least i k : ℕ)
    → free_fd_from least i es ≡ some k
    → (d : ℕ) × (k ≡ i + d) × (d < length es) × ((get_or es d free_fd).ofd ≡ 0) × (least ≤ k)
unfolding free_fd_from
free_fd_from-some [] least i k e = absurd (ground (arith, e))
free_fd_from-some (o ∷ es) least i k e = elim (Bool-cases (leb least i && o.ofd == 0)) [
  | inl f ↦ (0, ground (arith, e, f), omega arith, ground (arith, f), ground (arith, e, f))
  | inr f ↦
      let (d, at, lt, unused, enough) =
        free_fd_from-some es least (i + 1) k (ground (arith, e, f)) in
      (suc d, omega (arith, at), omega arith, unused, enough)
]

pub first_free_ofd :
    (w : World) (k : ℕ)
    → free_ofd_from 0 w.ofds ≡ some k
    → (k < length w.ofds) × ((ofd_at w k).refs ≡ 0)
first_free_ofd w k e =
    let (d, at, lt, unused) = free_ofd_from-some w.ofds 0 k e in
    let same : d ≡ k = omega (arith, at) in
    (omega (arith, at, lt), subst (λ z. (ofd_at w z).refs ≡ 0) same unused)

pub first_free_fd :
    (w : World) (t least k : ℕ)
    → free_fd_from least 0 (files_at w t).fd ≡ some k
    → (k < length (files_at w t).fd) × ((entry w t k).ofd ≡ 0) × (least ≤ k)
first_free_fd w t least k e =
    let (d, at, lt, unused, enough) = free_fd_from-some (files_at w t).fd least 0 k e in
    let same : d ≡ k = omega (arith, at) in
    (omega (arith, at, lt), subst (λ z. (entry w t z).ofd ≡ 0) same unused, enough)

-- A reference without a descriptor is given to a free descriptor.
pub fill-Kept :
    (w : World) (t fd k : ℕ) (cloexec : Bool)
    → Sound (one_extra k) w
    → fd < length (files_at w t).fd
    → (entry w t fd).ofd ≡ 0
    → k < length w.ofds
    → Kept no_extra t w (pointing w t fd (suc k) cloexec)
fill-Kept w t fd k cloexec s lt e k_lt = record {
  sound =
      Sound-entry (one_extra k) no_extra w t fd (record { ofd = suc k; cloexec = cloexec }) s
        (table_lt w t fd lt) lt (omega arith) (λ j. ground (arith, e));
  touch = Touch-entry t w fd (record { ofd = suc k; cloexec = cloexec });
}

-- A change of descriptions alone, before a call.
pub after_ofds :
    (x : ℕ → ℕ) (t : ℕ) (w w1 w2 : World) → w1.tables ≡ w.tables → Kept x t w1 w2 → Kept x t w w2
after_ofds x t w w1 w2 e k = record {
  sound = k.sound;
  touch = Touch-trans t w w1 w2 (Touch-tables t w w1 e) k.touch;
}

pub fd_open-Kept :
    (has_ops : ℕ → Bool) (w : World) (t kind : ℕ) (backing : ℤ) (offset flags : ℕ)
    → Sound no_extra w
    → Kept no_extra t w (fd_open has_ops w t kind backing offset flags).0
unfolding fd_open
fd_open-Kept has_ops w t kind backing offset flags s =
    elim (Bool-cases (leb 12 kind || not (has_ops kind))) [
      | inl bad ↦ rw bad (same_world no_extra t w s)
      | inr good ↦ elim (Option-cases (free_ofd_from 0 w.ofds)) [
        | inl e ↦ rw good (rw e (same_world no_extra t w s))
        | inr (oi, e) ↦ elim (Option-cases (free_fd_from 0 0 (files_at w t).fd)) [
          | inl f ↦ rw good (rw e (rw f (same_world no_extra t w s)))
          | inr (fd, f) ↦
              let (oi_lt, unused) = first_free_ofd w oi e in
              let (fd_lt, free, least) = first_free_fd w t 0 fd f in
              rw good (
                rw e (
                  rw f (
                    after_ofds no_extra t w (set_ofd w oi (opened kind backing offset flags)) _ refl
                      (fill-Kept (set_ofd w oi (opened kind backing offset flags)) t fd oi
                        (wants_cloexec flags)
                        (Sound-ofd no_extra (one_extra oi) w oi (opened kind backing offset flags) s
                          oi_lt (ground (arith, unused)) (λ j ne. ground (arith, ne)))
                        fd_lt free
                        (omega (
                          arith,
                          oi_lt,
                          length-set w.ofds oi (opened kind backing offset flags),
                        ))))))
        ]
      ]
    ]
