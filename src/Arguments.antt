-- ===== src/Arguments.antt =====
-- The loop over `argv` that all main functions share: a flag with a value is two arguments, `--help`
-- ends the program, anything else is skipped, and so is a flag that has no value after it. What
-- the flags are is a parameter.
pub mod Items
use Prim.Native.String.{String}
use kernel_net.Prelude.{ℕ, ◌-◌, ◌%◌, ◌^◌, ℤ, pos, negsuc, List, [], ◌∷◌, Option, none, some}

-- What `std::stoi` and `std::stoul` answer to a text; `none` when they throw.
pub record Numbers : Type 0 where
  pub stoi : String → Option ℤ
  pub stoul : String → Option ℕ

-- `static_cast<uint16_t>` of an `int`.
unfoldable pub to_uint16 : ℤ → ℕ
to_uint16 (pos n) = n % 2 ^ 16
to_uint16 (negsuc n) = 2 ^ 16 - 1 - n % 2 ^ 16

-- What an argument is: a flag that sets options from its value, `none` when its number cannot be
-- read, or the flag for help, or neither.
pub data Kind (O : Type 0) : Type 0 where
  sets : (String → O → Option O) → Kind O
  help : Kind O
  skipped : Kind O

-- The usage was printed, a number could not be read, or the options.
pub data Parsed (O : Type 0) : Type 0 where
  usage : Parsed O
  threw : Parsed O
  parsed : O → Parsed O

module _ {O : Type 0} where
  -- The last argument: no flag has a value there.
  unfoldable pub parse_last : Kind O → O → Parsed O
  parse_last help o = usage
  parse_last _ o = parsed o

  unfoldable pub parse_loop : (String → Kind O) → List String → O → Parsed O
  parse_loop kind [] o = parsed o
  parse_loop kind (arg ∷ []) o = parse_last (kind arg) o
  parse_loop kind (arg ∷ value ∷ rest) o = elim (kind arg) [
    | sets f ↦ elim (f value o) [ none ↦ threw | some changed ↦ parse_loop kind rest changed ]
    | help ↦ usage
    | skipped ↦ parse_loop kind (value ∷ rest) o
  ]
