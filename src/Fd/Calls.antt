-- ===== src/Fd/Calls.antt =====
-- The calls of src/fs/lxp_fd.c that change or close descriptors, one or a range.
use lxp.Common.{ℕ, zero, suc, ◌+◌, refl, inl, inr, Bool, Bool-cases, Option-cases}
use lxp.Common.Int.{ℤ, pos, negsuc}
use lxp.Fd.{
  Fd, World, entry, ofd_at, set_ofd, fd_lookup, set_end, set_cloexec, close, close_range,
  is_cloexec, exec_range,
}
use lxp.Fd.Sound.{
  no_extra, Touch-tables, Touch-trans, Touch-entry, Sound, Sound-entry, Sound-ofd, fd_lookup-some,
  table_lt,
}
use lxp.Fd.Close.{Kept, same_world, close-Kept}

pub set_end-Kept :
    (w : World) (t : ℕ) (fd : ℤ) (end : Bool)
    → Sound no_extra w
    → Kept no_extra t w (set_end w t fd end).0
unfolding set_end
set_end-Kept w t (negsuc n) end s = unfold fd_lookup in same_world no_extra t w s
set_end-Kept w t (pos fd) end s = elim (Option-cases (fd_lookup w t (pos fd))) [
  | inl e ↦ rw (e, set_end) (same_world no_extra t w s)
  | inr (k, e) ↦
      let (lt, named, k_lt) = fd_lookup-some w t fd k e in
      rw (e, set_end)
        (record {
          sound =
              Sound-ofd no_extra no_extra w k (record (ofd_at w k) { rw = end }) s k_lt refl
                (λ j ne. refl);
          touch = Touch-tables t w (set_ofd w k (record (ofd_at w k) { rw = end })) refl;
        })
]

pub set_cloexec-Kept :
    (w : World) (t : ℕ) (fd : ℤ) (enabled : Bool)
    → Sound no_extra w
    → Kept no_extra t w (set_cloexec w t fd enabled).0
unfolding set_cloexec
set_cloexec-Kept w t (negsuc n) enabled s = same_world no_extra t w s
set_cloexec-Kept w t (pos fd) enabled s = elim (Option-cases (fd_lookup w t (pos fd))) [
  | inl e ↦ rw (e, set_cloexec) (same_world no_extra t w s)
  | inr (k, e) ↦
      let (lt, named, k_lt) = fd_lookup-some w t fd k e in
      let f : Fd = record (entry w t fd) { cloexec = enabled } in
      rw (e, set_cloexec)
        (record {
          sound =
              Sound-entry no_extra no_extra w t fd f s (table_lt w t fd lt) lt (s.named t fd)
                (λ j. refl);
          touch = Touch-entry t w fd f;
        })
]

pub Kept-trans :
    (t : ℕ) (w w' w'' : World)
    → Kept no_extra t w w'
    → Kept no_extra t w' w''
    → Kept no_extra t w w''
Kept-trans t w w' w'' a b = record {
  sound = b.sound;
  touch = Touch-trans t w w' w'' a.touch b.touch;
}

pub close_range-Kept :
    (n fd : ℕ) (w : World) (t : ℕ) → Sound no_extra w → Kept no_extra t w (close_range n fd w t)
unfolding close_range
close_range-Kept zero fd w t s = same_world no_extra t w s
close_range-Kept (suc n) fd w t s =
    let one = close-Kept no_extra w t fd s in
    Kept-trans t w (close w t (pos fd)).0 _ one
      (close_range-Kept n (fd + 1) (close w t (pos fd)).0 t one.sound)

pub exec_range-Kept :
    (n fd : ℕ) (w : World) (t : ℕ) → Sound no_extra w → Kept no_extra t w (exec_range n fd w t)
unfolding exec_range
exec_range-Kept zero fd w t s = same_world no_extra t w s
exec_range-Kept (suc n) fd w t s = elim (Bool-cases (is_cloexec w t fd)) [
  | inl e ↦
      let one = close-Kept no_extra w t fd s in
      rw (e, exec_range)
        (Kept-trans t w (close w t (pos fd)).0 _ one
          (exec_range-Kept n (fd + 1) (close w t (pos fd)).0 t one.sound))
  | inr e ↦ rw (e, exec_range) (exec_range-Kept n (fd + 1) w t s)
]
