-- ===== src/Pipe/Queue.antt =====
-- A pipe as its users see it: a queue of bytes of bounded length with open ends.
use lxp.Common.{
  ℕ, ◌-◌, min, Bool, false, List, [], ◌∷◌, ◌++◌, ltb, ◌==◌, ◌&&◌, not, if◌then◌else◌, length, take,
  drop, Result, ok, err,
}
use lxp.Errno.{eagain, epipe}
use lxp.Pipe.{up, down}

pub record Channel : Type 0 where
  pub bytes : List ℕ
  pub readers : ℕ
  pub writers : ℕ
  pub used : Bool

-- What a descriptor's operations do to one pipe.
pub data Op : Type 0 where
  reads : ℕ → Op
  writes : List ℕ → Op
  -- the write end, if true
  opens closes : Bool → Op

-- The answer of an operation, and the bytes that it hands out.
abbrev pub Reply : Type 0
Reply = Result ℕ × List ℕ

unfoldable pub gone : Channel
gone = record { bytes = []; readers = 0; writers = 0; used = false }

unfoldable pub drop_gone : Channel → Channel
unfolding gone
drop_gone c = if c.readers == 0 && c.writers == 0 then gone else c

unfoldable pub get : Channel → ℕ → Reply × Channel
get c len =
    let n = min len (length c.bytes) in
    if length c.bytes == 0
    then ((if ltb 0 c.writers then err eagain else ok 0, []), c)
    else ((ok n, take n c.bytes), record c { bytes = drop n c.bytes })

unfoldable pub put : ℕ → Channel → List ℕ → Reply × Channel
put size c src =
    let n = min (length src) (size - length c.bytes) in
    if c.readers == 0
    then ((err epipe, []), c)
    else if length c.bytes == size
    then ((err eagain, []), c)
    else ((ok n, []), record c { bytes = c.bytes ++ take n src })

unfoldable pub open_end : Channel → Bool → Channel
open_end c write_end =
    if not c.used
    then c
    else if write_end
    then record c { writers = up c.writers }
    else record c { readers = up c.readers }

unfoldable pub close_end : Channel → Bool → Channel
unfolding drop_gone
close_end c write_end =
    if not c.used
    then c
    else drop_gone (
        if write_end
        then record c { writers = down c.writers }
        else record c { readers = down c.readers })

unfoldable pub step : ℕ → Channel → Op → Reply × Channel
unfolding get put open_end close_end
step size c (reads len) = get c len
step size c (writes src) = put size c src
step size c (opens e) = ((ok 0, []), open_end c e)
step size c (closes e) = ((ok 0, []), close_end c e)

unfoldable pub run : ℕ → Channel → List Op → List Reply
run size c [] = []
run size c (op ∷ ops) = let (r, c') = step size c op in r ∷ run size c' ops
