-- ===== src/Errno/Translate.antt =====
-- src/lxp_errno.c: the codes of include/lxp/lxp_types.h against the error numbers. A code or an error
-- number that the source writes negated is a table's key by its absolute value.
use lxp.Common.{
  ℕ, zero, suc, ◌+◌, ◌≡◌, refl, List, [], ◌∷◌, ◌==◌, if◌then◌else◌, Bool-cases, inl, inr, All,
}
use lxp.Common.Int.{ℤ, pos, negsuc}
use lxp.Errno.{
  eagain, enodev, einval, e2big, ebusy, erofs, eacces, eperm, enomem, etimedout, eopnotsupp,
  enoexec, enosys, enoent, eexist, enospc, enotdir, eisdir, enotempty, enametoolong, ebadf, exdev,
  econnrefused, enetunreach, eaddrinuse, eaddrnotavail, econnreset, epipe, eio,
}

-- `-n`
abbrev pub neg : ℕ → ℤ
neg zero = pos 0
neg (suc n) = negsuc n

-- a `switch` over negated numbers
unfoldable pub lookup : ℕ → List (ℕ × ℕ) → ℕ → ℕ
lookup default [] key = default
lookup default ((k, v) ∷ rest) key = if k == key then v else lookup default rest key

-- lxp_err_t
abbrev pub not_registered : ℕ
not_registered = 1

abbrev pub err_invalid_param : ℕ
err_invalid_param = 2

abbrev pub err_no_memory : ℕ
err_no_memory = 3

abbrev pub err_timeout : ℕ
err_timeout = 4

abbrev pub err_not_supported : ℕ
err_not_supported = 5

abbrev pub err_queue_full : ℕ
err_queue_full = 6

abbrev pub err_would_block : ℕ
err_would_block = 18

abbrev pub err_io : ℕ
err_io = 29

-- the cases of `lxp_errno_from_err`; LXP_ERR_EOF, 19, is no error
abbrev pub errno_cases : List (ℕ × ℕ)
errno_cases =
    (19, 0)
    ∷ (err_would_block, eagain)
    ∷ (err_queue_full, eagain)
    ∷ (not_registered, enodev)
    ∷ (err_invalid_param, einval)
    ∷ (30, ebusy)
    ∷ (28, erofs)
    ∷ (33, eacces)
    ∷ (err_no_memory, enomem)
    ∷ (err_timeout, etimedout)
    ∷ (err_not_supported, eopnotsupp)
    ∷ (21, enoent)
    ∷ (23, eexist)
    ∷ (24, enospc)
    ∷ (25, enotdir)
    ∷ (26, eisdir)
    ∷ (27, enotempty)
    ∷ (31, enametoolong)
    ∷ (32, ebadf)
    ∷ (34, exdev)
    ∷ (8, econnrefused)
    ∷ (9, enetunreach)
    ∷ (10, eaddrinuse)
    ∷ (22, eaddrnotavail)
    ∷ (11, econnreset)
    ∷ (13, epipe)
    ∷ []

-- the cases of `lxp_err_from_errno`
abbrev pub err_cases : List (ℕ × ℕ)
err_cases =
    (eagain, err_would_block)
    ∷ (enodev, not_registered)
    ∷ (einval, err_invalid_param)
    ∷ (e2big, err_invalid_param)
    ∷ (ebusy, 30)
    ∷ (erofs, 28)
    ∷ (eacces, 33)
    ∷ (eperm, 33)
    ∷ (enomem, err_no_memory)
    ∷ (etimedout, err_timeout)
    ∷ (eopnotsupp, err_not_supported)
    ∷ (enoexec, err_not_supported)
    ∷ (enosys, err_not_supported)
    ∷ (enoent, 21)
    ∷ (eexist, 23)
    ∷ (enospc, 24)
    ∷ (enotdir, 25)
    ∷ (eisdir, 26)
    ∷ (enotempty, 27)
    ∷ (enametoolong, 31)
    ∷ (ebadf, 32)
    ∷ (exdev, 34)
    ∷ (econnrefused, 8)
    ∷ (enetunreach, 9)
    ∷ (eaddrinuse, 10)
    ∷ (eaddrnotavail, 22)
    ∷ (econnreset, 11)
    ∷ (epipe, 13)
    ∷ []

-- lxp_errno_from_err
unfoldable pub errno_from_err : ℤ → ℤ
unfolding lookup
errno_from_err (pos zero) = pos 0
errno_from_err (pos (suc n)) = neg eio
errno_from_err (negsuc n) = neg (lookup eio errno_cases (n + 1))

-- lxp_net_errno_from_err
unfoldable pub net_errno_from_err : ℤ → ℤ
net_errno_from_err (negsuc n) =
    if n + 1 == err_timeout then neg eagain else errno_from_err (negsuc n)
net_errno_from_err (pos n) = errno_from_err (pos n)

-- lxp_err_from_errno
unfoldable pub err_from_errno : ℤ → ℤ
unfolding lookup
err_from_errno (pos zero) = pos 0
err_from_errno (pos (suc n)) = neg err_io
err_from_errno (negsuc n) = neg (lookup err_io err_cases (n + 1))

-- What holds of every value of a table, and of the default, holds of what is looked up.
lookup-All :
    (P : ℕ → Type 0) (default : ℕ) (cases : List (ℕ × ℕ)) (key : ℕ)
    → All (λ c. P c.1) cases
    → P default
    → P (lookup default cases key)
unfolding lookup
lookup-All P default [] key h d = d
lookup-All P default ((k, v) ∷ rest) key h d = elim (Bool-cases (k == key)) [
  | inl e ↦ rw e h.0
  | inr e ↦ rw e (lookup-All P default rest key h.1 d)
]

Stable : ℕ → Type 0
Stable e = errno_from_err (err_from_errno (neg e)) ≡ neg e

StableErr : ℕ → Type 0
StableErr e = err_from_errno (errno_from_err (neg e)) ≡ neg e

-- An error number that came from a code comes back unchanged when it is turned into a code and into
-- an error number again, whatever the code was.
pub errno_round_trip :
    (err : ℤ) → errno_from_err (err_from_errno (errno_from_err err)) ≡ errno_from_err err
unfolding Stable errno_from_err err_from_errno
errno_round_trip (pos zero) = refl
errno_round_trip (pos (suc n)) = refl
errno_round_trip (negsuc n) =
    lookup-All Stable eio errno_cases (n + 1)
      (
        refl,
        (
          refl,
          (
            refl,
            (
              refl,
              (
                refl,
                (
                  refl,
                  (
                    refl,
                    (
                      refl,
                      (
                        refl,
                        (
                          refl,
                          (
                            refl,
                            (
                              refl,
                              (
                                refl,
                                (
                                  refl,
                                  (
                                    refl,
                                    (
                                      refl,
                                      (
                                        refl,
                                        (
                                          refl,
                                          (
                                            refl,
                                            (
                                              refl,
                                              (refl, (refl, (refl, (refl, (refl, (refl, tt)))))),
                                            ),
                                          ),
                                        ),
                                      ),
                                    ),
                                  ),
                                ),
                              ),
                            ),
                          ),
                        ),
                      ),
                    ),
                  ),
                ),
              ),
            ),
          ),
        ),
      )
      refl

-- A code that came from an error number comes back unchanged when it is turned into an error number
-- and into a code again, whatever the error number was.
pub err_round_trip : (e : ℤ) → err_from_errno (errno_from_err (err_from_errno e)) ≡ err_from_errno e
unfolding StableErr errno_from_err err_from_errno
err_round_trip (pos zero) = refl
err_round_trip (pos (suc n)) = refl
err_round_trip (negsuc n) =
    lookup-All StableErr err_io err_cases (n + 1)
      (
        refl,
        (
          refl,
          (
            refl,
            (
              refl,
              (
                refl,
                (
                  refl,
                  (
                    refl,
                    (
                      refl,
                      (
                        refl,
                        (
                          refl,
                          (
                            refl,
                            (
                              refl,
                              (
                                refl,
                                (
                                  refl,
                                  (
                                    refl,
                                    (
                                      refl,
                                      (
                                        refl,
                                        (
                                          refl,
                                          (
                                            refl,
                                            (
                                              refl,
                                              (
                                                refl,
                                                (
                                                  refl,
                                                  (
                                                    refl,
                                                    (refl, (refl, (refl, (refl, (refl, tt))))),
                                                  ),
                                                ),
                                              ),
                                            ),
                                          ),
                                        ),
                                      ),
                                    ),
                                  ),
                                ),
                              ),
                            ),
                          ),
                        ),
                      ),
                    ),
                  ),
                ),
              ),
            ),
          ),
        ),
      )
      refl
