-- ===== src/Eventfd/Tests.antt =====
-- Witnesses and runs of src/fs/lxp_eventfd.c.
use lxp.Common.{◌≡◌, refl, true, List, [], ◌∷◌, ok, err}
use lxp.Common.Int.{pos}
use lxp.Errno.{eagain}
use lxp.Eventfd.{Efd, zeroed, new, new_from, read, take_word}

abbrev pool : List Efd
pool = zeroed ∷ record { ctr = 5; flags = 0; used = true } ∷ []

new_takes_first : (new pool 3 1).0 ≡ ok 0
unfolding new new_from
new_takes_first = refl

empty_read : (read (new pool 0 0).1 (pos 0) 8 true).0 ≡ err eagain
unfolding new new_from read take_word
empty_read = refl
