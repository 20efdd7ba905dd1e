-- ===== src/Errors.antt =====
-- internal/errors/errors.go, and the errors that the other packages build with fmt.Errorf. An
-- error is the constructor of its message with the values that the message quotes.
use rmodel.Shared.{Option, String, none, some, ◌≡◌}

pub data Error : Type 0 where
  neuron_not_found : String → Error
  link_not_found : String → Error
  in_link_not_found : String → String → Error
  out_link_not_found : String → String → Error
  group_name_empty : Error
  unsupported_link_action : String → Error
  unsupported_neuron_action : String → Error
  unsupported_brain_action : String → Error
  unpaired_memory : Error
  memory_failed : String → Error
  process_failed : Error → Error
  wrapped : String → Error → Error
  unsupported_key : String → Error
  key_not_found : String → Error

-- A pair `(A, error)` of which one part is nil.
pub data Result {ℓ} (A : Type ℓ) : Type ℓ where
  err : Error → Result A
  ok : A → Result A

infixl 5 ◌>>=◌
abbrev pub ◌>>=◌ {ℓ κ} : {A : Type ℓ} {B : Type κ} → Result A → (A → Result B) → Result B
err e >>= f = err e
ok a >>= f = f a

-- `v, ok := m[k]; if !ok { return nil, err }`
abbrev pub or_err {ℓ} : {A : Type ℓ} → Option A → Error → Result A
or_err none e = err e
or_err (some a) e = ok a

pub ok-injective {ℓ} : {A : Type ℓ} {a b : A} → ok a ≡ ok b → a ≡ b
ok-injective e = cc e
