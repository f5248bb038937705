-- ===== src/Rtdm/Errno.antt =====
-- The error numbers that the drivers return, and a C result that is a value or a negated error.
pub data Errno : Type 0 where
  eperm eintr eio enxio eagain ebadf enomem efault ebusy eexist enodev einval enotty enospc epipe
        edom enosys eidrm ecomm emsgsize enoprotoopt eprotonosupport eopnotsupp enetdown etimedout
        ewouldblock :
      Errno

-- `ok a` is a result that is not negative, `err e` is -e.
pub data Result {ℓ} (A : Type ℓ) : Type ℓ where
  ok : A → Result A
  err : Errno → Result A

-- An `int` that is 0 or a negated error.
abbrev pub Status : Type 0
Status = Result (Unit {0})
