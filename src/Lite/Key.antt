-- ===== src/Lite/Key.antt =====
-- memory.go of brainlite: `hashKey`, the number of the row of a key.
use rmodel.Core.{Any, bytes, float, number, text}
use rmodel.Errors.{Result, err, ok, unsupported_key}
use rmodel.Lite.{Encoding}
use rmodel.Shared.{
  Bool, List, [], false, if◌then◌else◌, ltb, negsuc, pos, suc, true, zero, ℕ, ℤ, ◌*◌, ◌+◌, ◌-◌, ◌^◌,
  ◌∷◌,
}

-- `binary.BigEndian.Uint64` of the first `n` bytes, with what is read before them.
unfoldable pub big_endian : ℕ → ℕ → List ℕ → ℕ
big_endian zero acc digest = acc
big_endian (suc n) acc [] = acc
big_endian (suc n) acc (byte ∷ digest) = big_endian n (acc * 256 + byte) digest

-- `int64(n)` of a uint64: the same 64 bits, read as two's complement.
unfoldable pub to_signed : ℕ → ℤ
to_signed n = if ltb n (2 ^ 63) then pos n else negsuc (2 ^ 64 - 1 - n)

-- The type switch: the types of keys that are supported.
abbrev pub is_key : Any → Bool
is_key (number t n) = true
is_key (float bits) = true
is_key (text s) = true
is_key (bytes s) = true
is_key _ = false

module _ ⦃enc : Encoding⦄ where
  unfoldable pub hash_key : Any → Result ℤ
  unfolding big_endian to_signed
  hash_key key =
      if is_key key
      then ok (to_signed (big_endian 8 0 (enc.sum256 (enc.value_text key))))
      else err (unsupported_key (enc.type_text key))
