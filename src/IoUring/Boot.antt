-- ===== src/IoUring/Boot.antt =====
-- The constructor's error paths.
use kernel_net.Prelude.{◌≡◌, refl, List, [], ◌∷◌, ℤ, pos, negsuc}
use kernel_net.IoUring.{
  constructed, Built, threw, built, init_ring, listening, bound, construct_from,
}

-- The descriptor that `socket` hands out, if it does.
abbrev pub opened : ℤ → List ℤ
opened (pos fd) = pos fd ∷ []
opened (negsuc _) = []

-- What the caller is left with: what the constructor closed, or what the server holds.
abbrev pub Accounts : Built → List ℤ → Type 0
Accounts (threw closed) fds = closed ≡ fds
Accounts (built s) fds = (s.listen_fd ∷ [] ≡ fds) × (s ≡ constructed s.listen_fd)

-- Whichever call fails, a constructor that throws has closed the descriptor that `socket` gave it,
-- if any; one that succeeds gives a new server that holds this descriptor.
pub construct_from-Accounts :
    (socket bind listen queue_init : ℤ)
    → Accounts (construct_from socket bind listen queue_init) (opened socket)
unfolding construct_from bound listening init_ring constructed
construct_from-Accounts (negsuc _) bind listen queue_init = refl
construct_from-Accounts (pos fd) (negsuc _) listen queue_init = refl
construct_from-Accounts (pos fd) (pos _) (negsuc _) queue_init = refl
construct_from-Accounts (pos fd) (pos _) (pos _) (negsuc _) = refl
construct_from-Accounts (pos fd) (pos _) (pos _) (pos _) = (refl, refl)
