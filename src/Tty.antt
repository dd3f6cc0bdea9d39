-- ===== src/Tty.antt =====
-- src/fs/lxp_tty.c and src/fs/lxp_tty.h: the terminal settings that the console and the ptys share. A
-- flag word is a number, and c_cc is the function from its indices. What a command reads from the
-- guest is an argument, `none` where the read fails, and whether the guest's memory can be written.
use lxp.Common.{
  ℕ, ◌/◌, ◌%◌, Bool, Option, none, some, ltb, ◌==◌, ◌||◌, not, if◌then◌else◌, Result, ok, err,
}
use lxp.Common.Int.{ℤ, pos, negsuc}
use lxp.Errno.{efault, enotty}

-- lxp_termios and lxp_winsize
pub record Termios : Type 0 where
  pub iflag : ℕ
  pub oflag : ℕ
  pub cflag : ℕ
  pub lflag : ℕ
  pub cc : ℕ → ℕ

pub record Winsize : Type 0 where
  pub row : ℕ
  pub col : ℕ
  pub xpixel : ℕ
  pub ypixel : ℕ

-- lxp_tty_t
pub record Tty : Type 0 where
  pub termios : Termios
  pub winsize : Winsize
  pub fg_pgrp : ℤ

-- LXP_ISIG, LXP_ICANON, LXP_ECHO, LXP_ICRNL, LXP_OPOST and LXP_ONLCR
abbrev pub isig : Termios → Bool
isig t = t.lflag % 2 == 1

abbrev pub icanon : Termios → Bool
icanon t = t.lflag / 2 % 2 == 1

abbrev pub echo : Termios → Bool
echo t = t.lflag / 8 % 2 == 1

abbrev pub icrnl : Termios → Bool
icrnl t = t.iflag / 256 % 2 == 1

abbrev pub opost : Termios → Bool
opost t = t.oflag % 2 == 1

abbrev pub onlcr : Termios → Bool
onlcr t = t.oflag / 4 % 2 == 1

-- LXP_VINTR, LXP_VERASE, LXP_VEOF and LXP_VSUSP
abbrev pub vintr : ℕ
vintr = 0

abbrev pub verase : ℕ
verase = 2

abbrev pub veof : ℕ
veof = 4

abbrev pub vsusp : ℕ
vsusp = 10

abbrev pub default_cc : ℕ → ℕ
default_cc i =
    if i == vintr
    then 3
    else if i == verase
    then 127
    else if i == veof
    then 4
    else if i == vsusp
    then 26
    else if i == 6
    then 1
    else 0

-- LXP_TTY_DEFAULTS
abbrev pub tty_defaults : Tty
tty_defaults = record {
  termios = record { iflag = 256; oflag = 5; cflag = 176; lflag = 11; cc = default_cc };
  winsize = record { row = 24; col = 80; xpixel = 0; ypixel = 0 };
  fg_pgrp = pos 0;
}

-- lxp_tty_signal_for
unfoldable pub signal_for : Tty → ℕ → ℕ
signal_for tty c =
    if not (isig tty.termios) || c == 0
    then 0
    else if c == tty.termios.cc vintr
    then 2
    else if c == tty.termios.cc vsusp
    then 20
    else 0

-- a terminal command, with what it reads
pub data Command : Type 0 where
  get_attr get_size get_group controlling other : Command
  set_attr : Option Termios → Command
  set_size : Option Winsize → Command
  set_group : Option ℤ → Command

-- What a command stores in the guest's memory, or nothing.
pub data Told : Type 0 where
  nothing : Told
  settings : Termios → Told
  size : Winsize → Told
  group : ℕ → Told
  number : ℕ → Told

-- lxp_copy_to_guest, where the terminal stays as it is
abbrev pub stored : {A : Type 0} → Bool → A → Told → A × Result ℕ × Told
stored writable a t = if writable then (a, ok 0, t) else (a, err efault, nothing)

abbrev pub group_or : ℤ → ℕ → ℕ
group_or (pos g) pid = if ltb 0 g then g else pid
group_or (negsuc g) pid = pid

-- lxp_tty_ioctl for the task with that number: the terminal, the answer and what is stored
unfoldable pub tty_ioctl : Bool → ℕ → Tty → Command → Tty × Result ℕ × Told
tty_ioctl writable pid tty get_attr = stored writable tty (settings tty.termios)
tty_ioctl writable pid tty (set_attr none) = (tty, err efault, nothing)
tty_ioctl writable pid tty (set_attr (some t)) = (record tty { termios = t }, ok 0, nothing)
tty_ioctl writable pid tty get_size = stored writable tty (size tty.winsize)
tty_ioctl writable pid tty (set_size none) = (tty, err efault, nothing)
tty_ioctl writable pid tty (set_size (some w)) = (record tty { winsize = w }, ok 0, nothing)
tty_ioctl writable pid tty (set_group none) = (tty, err efault, nothing)
tty_ioctl writable pid tty (set_group (some g)) = (record tty { fg_pgrp = g }, ok 0, nothing)
tty_ioctl writable pid tty get_group = stored writable tty (group (group_or tty.fg_pgrp pid))
tty_ioctl writable pid tty controlling = (tty, ok 0, nothing)
tty_ioctl writable pid tty other = (tty, err enotty, nothing)
