-- ===== src/Errno.antt =====
-- src/lxp_linux_uapi.h: the error numbers that the modelled code returns, negated in the source.
pub mod Translate
mod Tests
use lxp.Common.{ℕ}

abbrev pub eperm : ℕ
eperm = 1

abbrev pub enoent : ℕ
enoent = 2

abbrev pub esrch : ℕ
esrch = 3

abbrev pub eintr : ℕ
eintr = 4

abbrev pub eio : ℕ
eio = 5

abbrev pub e2big : ℕ
e2big = 7

abbrev pub enoexec : ℕ
enoexec = 8

abbrev pub ebadf : ℕ
ebadf = 9

abbrev pub echild : ℕ
echild = 10

abbrev pub eagain : ℕ
eagain = 11

abbrev pub enomem : ℕ
enomem = 12

abbrev pub eacces : ℕ
eacces = 13

abbrev pub efault : ℕ
efault = 14

abbrev pub ebusy : ℕ
ebusy = 16

abbrev pub eexist : ℕ
eexist = 17

abbrev pub exdev : ℕ
exdev = 18

abbrev pub enodev : ℕ
enodev = 19

abbrev pub enotdir : ℕ
enotdir = 20

abbrev pub eisdir : ℕ
eisdir = 21

abbrev pub einval : ℕ
einval = 22

abbrev pub emfile : ℕ
emfile = 24

abbrev pub enotty : ℕ
enotty = 25

abbrev pub efbig : ℕ
efbig = 27

abbrev pub enospc : ℕ
enospc = 28

abbrev pub espipe : ℕ
espipe = 29

abbrev pub erofs : ℕ
erofs = 30

abbrev pub epipe : ℕ
epipe = 32

abbrev pub erange : ℕ
erange = 34

abbrev pub enametoolong : ℕ
enametoolong = 36

abbrev pub enosys : ℕ
enosys = 38

abbrev pub enotempty : ℕ
enotempty = 39

abbrev pub eloop : ℕ
eloop = 40

abbrev pub eoverflow : ℕ
eoverflow = 75

abbrev pub enotsock : ℕ
enotsock = 88

abbrev pub emsgsize : ℕ
emsgsize = 90

abbrev pub eprotonosupport : ℕ
eprotonosupport = 93

abbrev pub eopnotsupp : ℕ
eopnotsupp = 95

abbrev pub eafnosupport : ℕ
eafnosupport = 97

abbrev pub eaddrinuse : ℕ
eaddrinuse = 98

abbrev pub eaddrnotavail : ℕ
eaddrnotavail = 99

abbrev pub enetunreach : ℕ
enetunreach = 101

abbrev pub econnreset : ℕ
econnreset = 104

abbrev pub eisconn : ℕ
eisconn = 106

abbrev pub enotconn : ℕ
enotconn = 107

abbrev pub etimedout : ℕ
etimedout = 110

abbrev pub econnrefused : ℕ
econnrefused = 111

abbrev pub ehostunreach : ℕ
ehostunreach = 113

abbrev pub ealready : ℕ
ealready = 114

abbrev pub einprogress : ℕ
einprogress = 115

abbrev pub estale : ℕ
estale = 116
