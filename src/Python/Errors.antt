-- ===== src/Python/Errors.antt =====
-- Exceptions: their classes, the part of Python's class hierarchy that the handlers test, and the
-- result of a call that may raise.
use nitpicker_daemon.Prelude.{Bool, true, false, String, ◌≡◌, refl}

pub data ErrorClass : Type 0 where
  timeout_error connection_error file_not_found_error os_error : ErrorClass
  json_decode_error value_error key_error type_error runtime_error : ErrorClass
  not_implemented_error attribute_error unbound_local_error timeout_expired other_error : ErrorClass

pub record Error : Type 0 where
  pub kind : ErrorClass
  pub message : String

-- `isinstance(error, OSError)`
abbrev pub is_os_error : ErrorClass → Bool
is_os_error timeout_error = true
is_os_error connection_error = true
is_os_error file_not_found_error = true
is_os_error os_error = true
is_os_error _ = false

-- `isinstance(error, ValueError)`
abbrev pub is_value_error : ErrorClass → Bool
is_value_error json_decode_error = true
is_value_error value_error = true
is_value_error _ = false

-- `isinstance(error, RuntimeError)`
abbrev pub is_runtime_error : ErrorClass → Bool
is_runtime_error runtime_error = true
is_runtime_error not_implemented_error = true
is_runtime_error _ = false

abbrev pub is_type_error : ErrorClass → Bool
is_type_error type_error = true
is_type_error _ = false

abbrev pub is_key_error : ErrorClass → Bool
is_key_error key_error = true
is_key_error _ = false

pub data Result {ℓ} (A : Type ℓ) : Type ℓ where
  ok : A → Result A
  raised : Error → Result A

infixl 10 ◌>>=◌
abbrev pub ◌>>=◌ {ℓ κ} : {A : Type ℓ} {B : Type κ} → Result A → (A → Result B) → Result B
ok a >>= f = f a
raised e >>= f = raised e

abbrev pub fail {ℓ} : {A : Type ℓ} → ErrorClass → String → Result A
fail k m = raised (record { kind = k; message = m })

-- what a sequence that succeeded went through
pub bind-eq-ok {ℓ κ} :
    {X : Type ℓ} {Y : Type κ} (call : Result X) (next : X → Result Y) {y : Y}
    → (call >>= next) ≡ ok y
    → (x : X) × (call ≡ ok x) × (next x ≡ ok y)
bind-eq-ok (ok x) next returned = (x, refl, returned)
bind-eq-ok (raised e) next returned = cc
