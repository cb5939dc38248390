-- ===== src/Prelude/Errno.antt =====
-- The error numbers of Linux that the program returns or tests.
use Prim.Native.Nat.{ℕ}

abbrev pub eperm : ℕ
eperm = 1

abbrev pub eintr : ℕ
eintr = 4

abbrev pub eio : ℕ
eio = 5

abbrev pub ebadf : ℕ
ebadf = 9

abbrev pub echild : ℕ
echild = 10

abbrev pub eagain : ℕ
eagain = 11

abbrev pub enomem : ℕ
enomem = 12

abbrev pub eexist : ℕ
eexist = 17

abbrev pub enodev : ℕ
enodev = 19

abbrev pub enotdir : ℕ
enotdir = 20

abbrev pub einval : ℕ
einval = 22

abbrev pub enametoolong : ℕ
enametoolong = 36

abbrev pub econnrefused : ℕ
econnrefused = 111

abbrev pub etimedout : ℕ
etimedout = 110

abbrev pub ebadrqc : ℕ
ebadrqc = 56

abbrev pub ecomm : ℕ
ecomm = 70

abbrev pub eproto : ℕ
eproto = 71
