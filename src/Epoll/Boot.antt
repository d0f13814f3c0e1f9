-- ===== src/Epoll/Boot.antt =====
-- The constructor's error paths.
use kernel_net.Prelude.{ℕ, ◌≡◌, refl, ◌&&◌, List, [], ◌∷◌, ◌++◌, ℤ, pos, negsuc, if◌then◌else◌}
use kernel_net.Epoll.{
  Calls, Built, threw, built, succeeds, watch_listen, create_epoll, listening, construct,
}

abbrev descriptor : ℤ → List ℕ
descriptor (pos fd) = fd ∷ []
descriptor (negsuc _) = []

-- The descriptors that the kernel hands out: `socket` is called first, and `epoll_create1` after
-- `socket`, `bind` and `listen` have succeeded.
unfoldable pub opened : Calls → List ℕ
opened c =
    descriptor c.socket
    ++ (if succeeds c.socket && succeeds c.bind && succeeds c.listen
        then descriptor c.epoll_create
        else [])

-- What the caller is left with: what the constructor closed, and what the server holds.
abbrev pub Accounts : Built → List ℕ → Type 0
Accounts (threw closed) fds = closed ≡ fds
Accounts (built s epoll_fd) fds = s.listen_fd ∷ epoll_fd ∷ [] ≡ fds

by_answers :
    (socket bind listen epoll_create epoll_ctl : ℤ)
    → (let c : Calls = record {
      socket = socket;
      bind = bind;
      listen = listen;
      epoll_create = epoll_create;
      epoll_ctl = epoll_ctl;
    } in
        Accounts (construct c) (opened c))
unfolding construct listening create_epoll watch_listen opened
by_answers (negsuc _) bind listen epoll_create epoll_ctl = refl
by_answers (pos fd) (negsuc _) listen epoll_create epoll_ctl = refl
by_answers (pos fd) (pos _) (negsuc _) epoll_create epoll_ctl = refl
by_answers (pos fd) (pos _) (pos _) (negsuc _) epoll_ctl = refl
by_answers (pos fd) (pos _) (pos _) (pos _) (negsuc _) = refl
by_answers (pos fd) (pos _) (pos _) (pos _) (pos _) = refl

-- Whichever call fails, a constructor that throws has closed exactly the descriptors that it was
-- given, once each; one that succeeds holds exactly those.
pub construct-Accounts : (c : Calls) → Accounts (construct c) (opened c)
construct-Accounts c = by_answers c.socket c.bind c.listen c.epoll_create c.epoll_ctl
