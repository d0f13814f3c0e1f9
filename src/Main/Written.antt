-- ===== src/Main/Written.antt =====
-- The options of the servers: written out and read back, and the port's range.
use Prim.Native.String.{String}
use text.Mathlib.Text.{◌==◌ as str_eq}
use kernel_net.Prelude.{
  ◌%◌, ◌^◌, ◌<◌, ◌≡◌, refl, List, [], ◌∷◌, ◌++◌, some, ℤ, pos, negsuc, arith, Option-cases, inl,
  inr,
}
use kernel_net.Arguments.{Numbers, to_uint16, sets, help, skipped, parsed, parse_loop}
use kernel_net.Arguments.Items.{
  Item, given, render, Fits, set, set_all, Holds, Keeps, if-Keeps, parse_loop-append,
  parse_loop-Holds,
}
use kernel_net.Main.{Options, set_port, set_workers, kind}

abbrev pub flags : String → String → List Item
flags port workers = given "--port" port ∷ given "--workers" workers ∷ []

to_uint16_bounds : (n : ℤ) → to_uint16 n < 2 ^ 16
unfolding to_uint16
to_uint16_bounds (pos n) = omega arith
to_uint16_bounds (negsuc n) = omega arith

abbrev pub IsPort : Options → Type 0
IsPort o = o.port < 2 ^ 16

module _ (numbers : Numbers) where
  open numbers use {stoi, stoul}

  -- Options with a port below 2^16, written out as flags with texts that read as their numbers, are
  -- parsed back, whatever items with readable numbers stand before them and whatever the defaults.
  pub parse_loop-flags :
      (before : List Item) (defaults earlier o : Options) (port workers : String)
      → Fits (kind numbers) before
      → set_all (kind numbers) before defaults ≡ some earlier
      → IsPort o
      → stoi port ≡ some (pos o.port)
      → stoul workers ≡ some o.workers
      → parse_loop (kind numbers) (render (before ++ flags port workers)) defaults ≡ parsed o
  unfolding set set_all kind set_port set_workers to_uint16
  parse_loop-flags before defaults earlier o port workers fits set_before small reads_port
        reads_workers =
      let same : o.port % 2 ^ 16 ≡ o.port = omega (arith, small) in
      parse_loop-append (kind numbers) before (flags port workers) defaults earlier o fits
        ((set_port numbers, refl), ((set_workers numbers, refl), tt)) set_before
        (rw (reads_port, reads_workers, same) refl)

  set_port-Keeps : Keeps IsPort (sets (set_port numbers))
  unfolding set_port
  set_port-Keeps value o changed good small = elim (Option-cases (stoi value)) [
    | inl bad ↦ absurd (ground (arith, good, bad))
    | inr (n, read) ↦ ground (arith, good, read, to_uint16_bounds n)
  ]

  set_workers-Keeps : Keeps IsPort (sets (set_workers numbers))
  unfolding set_workers
  set_workers-Keeps value o changed good small = elim (Option-cases (stoul value)) [
    | inl bad ↦ absurd (ground (arith, good, bad))
    | inr (n, read) ↦ ground (arith, good, read)
  ]

  kind-Keeps : (name : String) → Keeps IsPort (kind numbers name)
  unfolding kind
  kind-Keeps name = if-Keeps IsPort (str_eq name "--port") _ _ set_port-Keeps (
      if-Keeps IsPort (str_eq name "--workers") _ _ set_workers-Keeps
        (if-Keeps IsPort (str_eq name "--help") help skipped tt tt))

  -- A port that the loop gives is below 2^16, whatever the arguments.
  pub parse_loop-IsPort :
      (argv : List String) (o : Options)
      → IsPort o
      → Holds IsPort (parse_loop (kind numbers) argv o)
  parse_loop-IsPort = parse_loop-Holds (kind numbers) IsPort kind-Keeps
