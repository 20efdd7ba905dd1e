-- ===== src/Lite/Codec.antt =====
-- memory.go of brainlite: how a value is written to the columns `value` and `type`, and read back.
use rmodel.Core.{Any, bool, float, go_int, go_int32, go_int64, go_uint32, nil_value, number, text}
use rmodel.Errors.{Error, Result, err, ok, wrapped, ◌>>=◌}
use rmodel.Lite.{Encoding}
use rmodel.Shared.{Bool, String, below, if◌then◌else◌, not_under, ℤ, ◌&&◌, ◌==◌, ◌^◌}

-- The type switch of `Set`.
unfoldable pub value_type : Any → String
value_type (text s) = "string"
value_type (number go_int n) = "int"
value_type (number go_int32 n) = "int"
value_type (number go_int64 n) = "int"
value_type (number go_uint32 n) = "int"
value_type (float bits) = "float"
value_type (bool b) = "bool"
value_type _ = "json"

-- `math.MinInt32 <= n <= math.MaxInt32`
abbrev pub is_int32 : ℤ → Bool
is_int32 n = not_under (2 ^ 31) n && below (2 ^ 31) n

-- An integer comes back as an `int` where it fits 32 bits, and as an `int64` elsewhere.
unfoldable pub int_value : ℤ → Any
int_value n = if is_int32 n then number go_int n else number go_int64 n

abbrev parse_failed : String
parse_failed = "An error occurred while parsing the data"

-- A result, with the conversion of the value and of the error.
abbrev map_result {ℓ κ} :
    {A : Type ℓ} {B : Type κ} → (A → B) → (Error → Error) → Result A → Result B
map_result f g (err e) = err (g e)
map_result f g (ok a) = ok (f a)

module _ ⦃enc : Encoding⦄ where
  -- The second switch of `Get`: an unknown type leaves the value nil. The error of an integer is not
  -- wrapped.
  unfoldable pub decode : String → String → Result Any
  unfolding int_value
  decode value_json value_type =
      if value_type == "string"
      then map_result (λ v. v) (wrapped parse_failed) (enc.to_any value_json)
      else if value_type == "int"
      then map_result int_value (λ e. e) (enc.to_int64 value_json)
      else if value_type == "float"
      then map_result float (wrapped parse_failed) (enc.to_float64 value_json)
      else if value_type == "bool"
      then map_result bool (wrapped parse_failed) (enc.to_bool value_json)
      else if value_type == "json"
      then map_result (λ v. v) (wrapped parse_failed) (enc.to_any value_json)
      else ok nil_value

  -- What a value is after it is written and read.
  unfoldable pub stored : Any → Result Any
  unfolding decode value_type
  stored v = enc.marshal v >>= (λ json. decode json (value_type v))
