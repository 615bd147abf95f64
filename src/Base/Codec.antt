-- ===== src/Base/Codec.antt =====
-- Protocol-buffer serialisation. The generated code is not part of the repository: it is a
-- parameter, and what the program relies on is that a serialised message parses to itself.
use Prim.Native.String.{String}
use mathlib.Core.Path.{◌≡◌}
use mathlib.Core.Option.{Option, some}

-- The `Bool` results of `SerializeToString` and `ParseFromString` are `none` where they are false.
pub record Codec (A : Type 0) : Type 0 where
  pub serialize : A → Option String
  pub parse : String → Option A
  pub parse-serialize : (a : A) (s : String) → serialize a ≡ some s → parse s ≡ some a
