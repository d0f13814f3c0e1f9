-- ===== src/Uring.antt =====
-- What both io_uring flavors (echo_server/flavors/iouring and echo_server/flavors/iouring_zc) use of
-- liburing and the kernel: the entries of the two rings. liburing itself is not modelled.
use kernel_net.Prelude.{ℕ, suc, Bool, List, ℤ, ◌==◌}

-- What a submission entry asks of the kernel.
pub data Call : Type 0 where
  accept_on : (listen_fd : ℤ) → Call
  recv_into : (client_fd : ℤ) (size : ℕ) → Call
  send_from : (client_fd : ℤ) (len : ℕ) → Call
  send_zc_from : (client_fd : ℤ) (len : ℕ) → Call

-- A submission entry with its user data, the pointer to the request.
pub record Sqe : Type 0 where
  pub call : Call
  pub request : ℕ

-- A completion entry; `filled` is what the kernel wrote to the buffer, if it was asked to.
pub record Cqe : Type 0 where
  pub request : ℕ
  pub res : ℤ
  pub filled : List ℕ

-- The platform: its error numbers, and whether `io_uring_get_sqe` has an entry to give, when so
-- many have been prepared since the last submit.
pub record Platform : Type 0 where
  pub eagain : ℕ
  pub etime : ℕ
  pub eintr : ℕ
  pub sqe_left : ℕ → Bool

-- `res == -errno`, for a result `negsuc code`.
abbrev pub is_errno : ℕ → ℕ → Bool
is_errno n code = suc n == code
