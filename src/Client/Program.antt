-- ===== src/Client/Program.antt =====
-- The main function of the client, without what it prints.
use Prim.Native.String.{String}
use kernel_net.Prelude.{List, Option, some, ◌>>=◌}
use kernel_net.Arguments.{Numbers, Parsed, usage, threw, parsed, parse_loop}
use kernel_net.Client.{Connection, Doubles, Stats, run_benchmark}
use kernel_net.Client.Config.{Config, defaults, kind}

-- What happens to the connections of each thread, and the time that passes, are inputs.
unfoldable pub main :
    {D : Type 0}
    → Numbers
    → Doubles D
    → (Config → List (List (Connection D)))
    → (Config → D)
    → List String
    → Option (Parsed (Stats D))
main numbers d inputs elapsed_sec argv = elim (parse_loop (kind numbers) argv defaults) [
  | usage ↦ some usage
  | threw ↦ some threw
  | parsed c ↦
      run_benchmark d c.connections c.requests c.message_size c.threads (inputs c) (elapsed_sec c)
      >>= λ s. some (parsed s)
]
