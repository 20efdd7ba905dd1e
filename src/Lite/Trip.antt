-- ===== src/Lite/Trip.antt =====
-- memory.go of brainlite: what a value is when it is written and read back.
use rmodel.Core.{
  Any, NumberType, bool, bytes, float, go_byte, go_int, go_int32, go_int64, go_uint32, go_uint64,
  nil_value, number, other, text,
}
use rmodel.Errors.{ok}
use rmodel.Lite.{Encoding}
use rmodel.Lite.Codec.{decode, int_value, value_type}
use rmodel.Lite.Laws.{IsEncoding}
use rmodel.Shared.{
  Bool-cases, Option, String, ap, arith, if◌then◌else◌, inl, inr, is_int64, none, some,
  some-injective, ℤ, ◌≡◌,
}

-- The value that `Get` returns for one that `Set` stored: a string, an integer of the types that
-- are written as such, a float64 and a Boolean.
abbrev pub normal : Any → Option Any
normal (text s) = some (text s)
normal (number go_int n) = if is_int64 n then some (int_value n) else none
normal (number go_int32 n) = if is_int64 n then some (int_value n) else none
normal (number go_int64 n) = if is_int64 n then some (int_value n) else none
normal (number go_uint32 n) = if is_int64 n then some (int_value n) else none
normal (float bits) = some (float bits)
normal (bool b) = some (bool b)
normal _ = none

module _ ⦃enc : Encoding⦄ (laws : IsEncoding enc) where
  int_trip :
      (t : NumberType) (n : ℤ) (x : Any) (j : String)
      → (if is_int64 n then some (int_value n) else none) ≡ some x
      → enc.marshal (number t n) ≡ ok j
      → decode j "int" ≡ ok x
  unfolding decode
  int_trip t n x j e m = elim (Bool-cases (is_int64 n)) [
    | inr out ↦ ground (arith, out, e)
    | inl fits ↦ rw (laws.int_json t n j fits m) (ground (arith, fits, e))
  ]

  pub decode-normal :
      (v x : Any) (j : String)
      → normal v ≡ some x
      → enc.marshal v ≡ ok j
      → decode j (value_type v) ≡ ok x
  unfolding decode value_type
  decode-normal (text s) x j e m = rw (laws.text_json s j m) (ap ok (some-injective _ _ e))
  decode-normal (number go_int n) x j e m = int_trip go_int n x j e m
  decode-normal (number go_int32 n) x j e m = int_trip go_int32 n x j e m
  decode-normal (number go_int64 n) x j e m = int_trip go_int64 n x j e m
  decode-normal (number go_uint32 n) x j e m = int_trip go_uint32 n x j e m
  decode-normal (number go_uint64 n) x j e m = cc e
  decode-normal (number go_byte n) x j e m = cc e
  decode-normal (float bits) x j e m = rw (laws.float_json bits j m) (ap ok (some-injective _ _ e))
  decode-normal (bool b) x j e m = rw (laws.bool_json b j m) (ap ok (some-injective _ _ e))
  decode-normal nil_value x j e m = cc e
  decode-normal (bytes s) x j e m = cc e
  decode-normal (other s) x j e m = cc e
