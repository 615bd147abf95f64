-- ===== src/Base/Json.antt =====
-- The part of jsoncpp's `Json::Value` that the program reads moves and blocks through. The library
-- is not part of the repository: its values and accessors are a parameter.
use Prim.Native.Nat.{ℕ}
use Prim.Native.String.{String}
use mathlib.Core.Bool.{Bool}
use mathlib.Core.List.{List}

pub record Json : Type 1 where
  pub Value : Type 0
  pub is_object : Value → Bool
  pub is_array : Value → Bool
  pub equals : Value → Value → Bool
  pub is_string : Value → Bool
  pub is_uint : Value → Bool
  pub is_member : Value → String → Bool
  pub size : Value → ℕ
  pub at : Value → String → Value
  pub elements : Value → List Value
  pub as_string : Value → String
  pub as_uint : Value → ℕ
