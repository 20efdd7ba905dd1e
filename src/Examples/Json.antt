-- ===== src/Examples/Json.antt =====
-- An encoding for the memory of a lite brain, on which numbers are written in unary and a digest is
-- the length of the text.
use rmodel.Core.{Any, bool, bytes, float, number, text}
use rmodel.Errors.{Result, err, memory_failed, ok, ok-injective}
use rmodel.Examples.Unary.{ones, width, width-ones}
use rmodel.Lite.{Encoding}
use rmodel.Lite.Laws.{IsEncoding}
use rmodel.Shared.{
  Bool, String, [], ap, arith, false, if◌then◌else◌, nat_eq, negsuc, pos, refl, sym, true, ℕ, ℤ,
  ◌%◌, ◌*◌, ◌+◌, ◌/◌, ◌∙◌, ◌∷◌, ◌≡◌,
}

abbrev write_int : ℤ → String
write_int (pos n) = ones (2 * n)
write_int (negsuc n) = ones (2 * n + 1)

abbrev read_number : ℕ → ℤ
read_number m = if nat_eq (m % 2) 0 then pos (m / 2) else negsuc (m / 2)

read_number-pos : (n : ℕ) → read_number (2 * n) ≡ pos n
read_number-pos n = ground arith

read_number-negsuc : (n : ℕ) → read_number (2 * n + 1) ≡ negsuc n
read_number-negsuc n = ground arith

int_back : (n : ℤ) → read_number (width (write_int n)) ≡ n
int_back (pos n) = ap read_number (width-ones (2 * n)) ∙ read_number-pos n
int_back (negsuc n) = ap read_number (width-ones (2 * n + 1)) ∙ read_number-negsuc n

abbrev write : Any → Result String
write (text s) = ok s
write (number t n) = ok (write_int n)
write (float bits) = ok (ones bits)
write (bool b) = ok (ones (if b then 1 else 0))
write _ = err (memory_failed "not written")

abbrev plain : Any → String
plain (text s) = s
plain (bytes s) = s
plain (number t n) = write_int n
plain (float bits) = ones bits
plain _ = ""

instance unfoldable pub unary_json : Encoding
unary_json = record {
  marshal = write;
  to_any = λ j. ok (text j);
  to_int64 = λ j. ok (read_number (width j));
  to_float64 = λ j. ok (width j);
  to_bool = λ j. ok (nat_eq (width j) 1);
  value_text = plain;
  type_text = λ k. "any";
  sum256 = λ s. width s % 256 ∷ 0 ∷ 0 ∷ 0 ∷ 0 ∷ 0 ∷ 0 ∷ 0 ∷ [];
}

bool_back :
    (b : Bool) → Path (Result Bool) (ok (nat_eq (width (ones (if b then 1 else 0))) 1)) (ok b)
bool_back true = refl
bool_back false = refl

pub unary_json-IsEncoding : IsEncoding unary_json
unfolding unary_json
unary_json-IsEncoding = record {
  text_json = λ s j e. ap (λ x. ok (text x)) (sym (ok-injective e));
  int_json =
      λ t n j h e. ap (λ x. ok (read_number (width x))) (sym (ok-injective e)) ∙ ap ok (int_back n);
  float_json = λ bits j e. ap (λ x. ok (width x)) (sym (ok-injective e)) ∙ ap ok (width-ones bits);
  bool_json = λ b j e. ap (λ x. ok (nat_eq (width x) 1)) (sym (ok-injective e)) ∙ bool_back b;
  digest_long = λ s. omega arith;
  digest_bytes = λ s. (
    omega arith,
    (
      omega arith,
      (omega arith, (omega arith, (omega arith, (omega arith, (omega arith, (omega arith, tt)))))),
    ),
  );
}
