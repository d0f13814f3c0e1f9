-- ===== src/Ring/Demo.antt =====
-- The main function of ring_buffer.cc: one push and one pop on a buffer of 1024 slots. `none` when it
-- prints nothing.
use kernel_net.Prelude.{ℕ, ◌≡◌, refl, Option, none, some, if◌then◌else◌}
use kernel_net.Ring.{init, push, pop}

unfoldable pub main : Option ℕ
main =
    let (_, token_queue) = push 1024 42 (init 1024 0) in
    let (received, received_token, _) = pop 1024 0 token_queue in
    if received then some received_token else none

prints_token : main ≡ some 42
unfolding main init push pop
prints_token = refl
