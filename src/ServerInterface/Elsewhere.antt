-- ===== src/ServerInterface/Elsewhere.antt =====
-- The builds for platforms that a flavor does not support: stubs of the servers, whose constructors throw,
-- and the main functions with them.
use Prim.Native.String.{String}
use kernel_net.Prelude.{◌≡◌, refl, Bool, true, false, List, Option, none, some}
use kernel_net.Arguments.{Numbers, Parsed, usage, threw, parsed, parse_loop}
use kernel_net.Main.{
  Options, iouring_defaults, iouring_zc_defaults, kind, Exit, exited, serve, main,
}
use kernel_net.Main.Exits.{exit_code}
use kernel_net.ServerInterface.{ServerInterface, Obeys}

-- What is left of an io_uring server.
pub record Stub : Type 0 where
  pub running : Bool

-- The constructors throw.
unfoldable pub iouring_construct : Options → Option Stub
iouring_construct o = none

unfoldable pub iouring_zc_construct : Options → Option Stub
iouring_zc_construct o = none

-- `run` does nothing, `shutdown` only sets the flag.
unfoldable pub iouring_shutdown : Stub → Stub
iouring_shutdown p = record { running = false }

unfoldable pub iouring_zc_shutdown : Stub → Stub
iouring_zc_shutdown p = record { running = false }

abbrev pub iouring_stub : ServerInterface Stub
iouring_stub = record { run = λ p. some (some p); shutdown = iouring_shutdown; destroy = λ p. p }

abbrev pub iouring_zc_stub : ServerInterface Stub
iouring_zc_stub = record {
  run = λ p. some (some p);
  shutdown = iouring_zc_shutdown;
  destroy = λ p. p;
}

-- The constructor of the kqueue server throws; `run` and `shutdown` do nothing.
pub data KqueueStub : Type 0 where
  nothing : KqueueStub

unfoldable pub kqueue_construct : Options → Option KqueueStub
kqueue_construct o = none

unfoldable pub kqueue_run : KqueueStub → KqueueStub
kqueue_run p = p

unfoldable pub kqueue_shutdown : KqueueStub → KqueueStub
kqueue_shutdown p = p

abbrev pub made : {S : Type 0} → Option S → Bool
made none = false
made (some p) = true

-- `main` of the io_uring programs, whose stub returns from `run` at once.
unfoldable pub main_iouring : Numbers → List String → Option Exit
main_iouring numbers = main numbers iouring_defaults (λ o. some (made (iouring_construct o)))

unfoldable pub main_iouring_zc : Numbers → List String → Option Exit
main_iouring_zc numbers =
    main numbers iouring_zc_defaults (λ o. some (made (iouring_zc_construct o)))

-- `main` of the kqueue program does not look at its arguments.
unfoldable pub main_kqueue : List String → Option Exit
main_kqueue argv = some (exited 1)

pub iouring_stub-Obeys : Obeys iouring_stub
iouring_stub-Obeys p e = cc

pub iouring_zc_stub-Obeys : Obeys iouring_zc_stub
iouring_zc_stub-Obeys p e = cc

served :
    (f : Options → Bool) (r : Parsed Options) → serve (λ o. some (f o)) r ≡ some (exit_code f r)
unfolding serve
served f usage = refl
served f threw = refl
served f (parsed o) = refl

module _ (numbers : Numbers) (argv : List String) where
  -- No io_uring program serves: each ends with 1 when its arguments can be read and do not ask for
  -- the usage.
  pub main_iouring_fails :
      main_iouring numbers argv
      ≡ some (exit_code (λ o. false) (parse_loop (kind numbers) argv iouring_defaults))
  unfolding main_iouring main iouring_construct
  main_iouring_fails = served (λ o. false) (parse_loop (kind numbers) argv iouring_defaults)

  pub main_iouring_zc_fails :
      main_iouring_zc numbers argv
      ≡ some (exit_code (λ o. false) (parse_loop (kind numbers) argv iouring_zc_defaults))
  unfolding main_iouring_zc main iouring_zc_construct
  main_iouring_zc_fails = served (λ o. false) (parse_loop (kind numbers) argv iouring_zc_defaults)
