-- ===== src/Fd/Dup.antt =====
-- The duplications of src/fs/lxp_fd.c.
use lxp.Common.{
  ℕ, suc, ◌+◌, ◌-◌, ◌≤◌, ◌<◌, ◌≡◌, sym, ◌∙◌, ap, subst, inl, inr, Bool, some, arith, leb, ◌==◌,
  length, length-set, Bool-cases, Option-cases,
}
use lxp.Common.Int.{ℤ, pos, negsuc}
use lxp.Fd.{
  World, u16_max, files_at, entry, ofd_at, inc16, fd_lookup, free_fd_from, close, fd_retain,
  retained, put_on, dup_to, dup_min,
}
use lxp.Fd.Count.{total_le}
use lxp.Fd.Sound.{no_extra, one_extra, Touch-trans, Sound, Sound-ofd, fd_lookup-some}
use lxp.Fd.Close.{Kept, same_world, close-Kept, close_frees}
use lxp.Fd.Open.{first_free_fd, fill-Kept, after_ofds}

pub fd_retain-Sound :
    (w w' : World) (k : ℕ)
    → Sound no_extra w
    → k < length w.ofds
    → fd_retain w k ≡ some w'
    → (w' ≡ retained w k) × Sound (one_extra k) w'
unfolding fd_retain
fd_retain-Sound w w' k s lt e =
    let most : (ofd_at w k).refs ≤ u16_max =
      omega (arith, s.counted k lt, total_le (suc k) w.tables, s.room) in
    elim (Bool-cases ((ofd_at w k).refs == u16_max)) [
      | inl full ↦ absurd (ground (arith, e, full))
      | inr more ↦
          let exact : inc16 (ofd_at w k).refs ≡ (ofd_at w k).refs + 1 =
            ground (arith, more, most) in
          let is : w' ≡ retained w k = ground (arith, e, more) in
          (
            is,
            subst (Sound (one_extra k)) (sym is) (
                Sound-ofd no_extra (one_extra k) w k
                  (record (ofd_at w k) { refs = inc16 (ofd_at w k).refs }) s lt
                  (ground (arith, exact)) (λ j ne. ground (arith, ne))),
          )
    ]

put_on-Kept :
    (w : World) (t fd k : ℕ) (cloexec : Bool)
    → Sound (one_extra k) w
    → fd < length (files_at w t).fd
    → k < length w.ofds
    → Kept no_extra t w (put_on w t fd (suc k) cloexec)
unfolding put_on
put_on-Kept w t fd k cloexec s lt k_lt = elim (Bool-cases ((entry w t fd).ofd == 0)) [
  | inl e ↦ rw e (fill-Kept w t fd k cloexec s lt (ground (arith, e)) k_lt)
  | inr e ↦
      let used : (entry w t fd).ofd ≡ suc ((entry w t fd).ofd - 1) = ground (arith, e) in
      let (free, tables_kept, ofds_kept) = close_frees (one_extra k) w t fd _ s lt used in
      rw e (
        let closed = close-Kept (one_extra k) w t fd s in
        let filled =
          fill-Kept (close w t (pos fd)).0 t fd k cloexec closed.sound
            (omega (arith, lt, tables_kept)) (ap (λ x. x.ofd) free)
            (omega (arith, k_lt, ofds_kept)) in
        record {
          sound = filled.sound;
          touch = Touch-trans t w (close w t (pos fd)).0 _ closed.touch filled.touch;
        })
]

pub dup_to-Kept :
    (w : World) (t : ℕ) (oldfd newfd : ℤ) (cloexec : Bool)
    → Sound no_extra w
    → Kept no_extra t w (dup_to w t oldfd newfd cloexec).0
unfolding dup_to
dup_to-Kept w t (negsuc n) newfd cloexec s = same_world no_extra t w s
dup_to-Kept w t (pos oldfd) (negsuc n) cloexec s = same_world no_extra t w s
dup_to-Kept w t (pos oldfd) (pos newfd) cloexec s =
    elim (Option-cases (fd_lookup w t (pos oldfd))) [
      | inl e ↦ rw (e, dup_to) (same_world no_extra t w s)
      | inr (k, e) ↦ elim (Bool-cases (leb (length (files_at w t).fd) newfd)) [
        | inl f ↦ rw (e, dup_to) (rw f (same_world no_extra t w s))
        | inr f ↦ elim (Bool-cases (oldfd == newfd)) [
          | inl g ↦ rw (e, dup_to) (rw f (rw g (same_world no_extra t w s)))
          | inr g ↦ elim (Option-cases (fd_retain w k)) [
            | inl h ↦ rw (e, dup_to) (rw f (rw g (rw h (same_world no_extra t w s))))
            | inr (w1, h) ↦
                let (lt, named, k_lt) = fd_lookup-some w t oldfd k e in
                let (is, extra) = fd_retain-Sound w w1 k s k_lt h in
                let tables_kept = ap (λ x. length (files_at x t).fd) is in
                let ofds_kept = ap (λ x. length x.ofds) is ∙ length-set w.ofds k _ in
                rw (e, dup_to)
                  (rw f (
                    rw g (
                      rw h (
                        rw named (
                          after_ofds no_extra t w w1 _ (ap (λ x. x.tables) is) (
                            put_on-Kept w1 t newfd k cloexec extra (ground (arith, f, tables_kept))
                              (omega (arith, ofds_kept, k_lt))))))))
          ]
        ]
      ]
    ]

pub dup_min-Kept :
    (w : World) (t : ℕ) (oldfd minfd : ℤ) (cloexec : Bool)
    → Sound no_extra w
    → Kept no_extra t w (dup_min w t oldfd minfd cloexec).0
unfolding dup_min
dup_min-Kept w t (negsuc n) minfd cloexec s = same_world no_extra t w s
dup_min-Kept w t (pos oldfd) (negsuc n) cloexec s =
    elim (Option-cases (fd_lookup w t (pos oldfd))) [
      | inl e ↦ rw (e, dup_min) (same_world no_extra t w s)
      | inr (k, e) ↦ rw (e, dup_min) (same_world no_extra t w s)
    ]
dup_min-Kept w t (pos oldfd) (pos least) cloexec s =
    elim (Option-cases (fd_lookup w t (pos oldfd))) [
      | inl e ↦ rw (e, dup_min) (same_world no_extra t w s)
      | inr (k, e) ↦ elim (Option-cases (free_fd_from least 0 (files_at w t).fd)) [
        | inl f ↦ rw (e, dup_min) (rw f (same_world no_extra t w s))
        | inr (fd, f) ↦ elim (Option-cases (fd_retain w k)) [
          | inl h ↦ rw (e, dup_min) (rw f (rw h (same_world no_extra t w s)))
          | inr (w1, h) ↦
              let (lt, named, k_lt) = fd_lookup-some w t oldfd k e in
              let (fd_lt, free, enough) = first_free_fd w t least fd f in
              let (is, extra) = fd_retain-Sound w w1 k s k_lt h in
              let tables_kept = ap (λ x. length (files_at x t).fd) is in
              let ofds_kept = ap (λ x. length x.ofds) is ∙ length-set w.ofds k _ in
              let free' = ap (λ x. (entry x t fd).ofd) is ∙ free in
              rw (e, dup_min)
                (rw f (
                  rw h (
                    rw named (
                      after_ofds no_extra t w w1 _ (ap (λ x. x.tables) is) (
                        fill-Kept w1 t fd k cloexec extra (omega (arith, fd_lt, tables_kept)) free'
                          (omega (arith, ofds_kept, k_lt)))))))
        ]
      ]
    ]
