-- ===== src/Client/Config.antt =====
-- The arguments of the client.
use Prim.Native.String.{String}
use text.Mathlib.Text.{◌==◌ as str_eq}
use kernel_net.Prelude.{
  ℕ, ◌*◌, ◌%◌, ◌^◌, ◌<◌, ◌≡◌, refl, List, [], ◌∷◌, ◌++◌, Option, some, pos, ◌>>=◌, if◌then◌else◌,
  arith,
}
use kernel_net.Arguments.{Numbers, to_uint16, Kind, sets, help, skipped, parsed, parse_loop}
use kernel_net.Arguments.Items.{Item, given, render, Fits, set, set_all, parse_loop-append}

pub record Config : Type 0 where
  pub host : String
  pub port : ℕ
  pub connections : ℕ
  pub requests : ℕ
  pub message_size : ℕ
  pub threads : ℕ

abbrev pub defaults : Config
defaults = record {
  host = "127.0.0.1";
  port = 8080;
  connections = 10;
  requests = 1000;
  message_size = 64;
  threads = 2;
}

-- `size_t total_req = connections * requests`
unfoldable pub total_req : Config → ℕ
total_req c = c.connections * c.requests % 2 ^ 64

module _ (numbers : Numbers) where
  open numbers use {stoi, stoul}

  unfoldable pub set_host : String → Config → Option Config
  set_host value c = some (record c { host = value })

  unfoldable pub set_port : String → Config → Option Config
  set_port value c = stoi value >>= λ n. some (record c { port = to_uint16 n })

  unfoldable pub set_connections : String → Config → Option Config
  set_connections value c = stoul value >>= λ n. some (record c { connections = n })

  unfoldable pub set_requests : String → Config → Option Config
  set_requests value c = stoul value >>= λ n. some (record c { requests = n })

  unfoldable pub set_message_size : String → Config → Option Config
  set_message_size value c = stoul value >>= λ n. some (record c { message_size = n })

  unfoldable pub set_threads : String → Config → Option Config
  set_threads value c = stoul value >>= λ n. some (record c { threads = n })

  -- The tests of the loop.
  unfoldable pub kind : String → Kind Config
  kind arg =
      if str_eq arg "--host"
      then sets set_host
      else if str_eq arg "--port"
      then sets set_port
      else if str_eq arg "--connections"
      then sets set_connections
      else if str_eq arg "--requests"
      then sets set_requests
      else if str_eq arg "--size"
      then sets set_message_size
      else if str_eq arg "--threads"
      then sets set_threads
      else if str_eq arg "--help"
      then help
      else skipped

  -- The texts of the numbers of a configuration.
  pub record Texts (c : Config) : Type 0 where
    pub port : String
    pub connections : String
    pub requests : String
    pub size : String
    pub threads : String
    pub reads_port : stoi port ≡ some (pos c.port)
    pub reads_connections : stoul connections ≡ some c.connections
    pub reads_requests : stoul requests ≡ some c.requests
    pub reads_size : stoul size ≡ some c.message_size
    pub reads_threads : stoul threads ≡ some c.threads

  unfoldable pub flags : (c : Config) → Texts c → List Item
  flags c t =
      given "--host" c.host
      ∷ given "--port" t.port
      ∷ given "--connections" t.connections
      ∷ given "--requests" t.requests
      ∷ given "--size" t.size
      ∷ given "--threads" t.threads
      ∷ []

  -- A configuration with a port below 2^16, written out as flags with texts that read as its
  -- numbers, is parsed back, whatever items with readable numbers stand before.
  pub parse_loop-Texts :
      (before : List Item) (earlier c : Config) (t : Texts c)
      → Fits kind before
      → set_all kind before defaults ≡ some earlier
      → c.port < 2 ^ 16
      → parse_loop kind (render (before ++ flags c t)) defaults ≡ parsed c
  unfolding set set_all kind set_host set_port set_connections set_requests set_message_size
      set_threads to_uint16 flags
  parse_loop-Texts before earlier c t fits set_before small =
      let same : c.port % 2 ^ 16 ≡ c.port = omega (arith, small) in
      parse_loop-append kind before (flags c t) defaults earlier c fits
        (
          (set_host, refl),
          (
            (set_port, refl),
            (
              (set_connections, refl),
              ((set_requests, refl), ((set_message_size, refl), ((set_threads, refl), tt))),
            ),
          ),
        )
        set_before
        (rw
          (t.reads_port, t.reads_connections, t.reads_requests, t.reads_size, t.reads_threads, same)
          refl)
