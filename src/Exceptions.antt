-- ===== src/Exceptions.antt =====
-- src/raknet/exceptions.py, and the outcome of a Python call: a value or an exception.
use raknet_python.Prelude.{◌≡◌, ◌⊎◌, inl, inr, refl, ℕ, Bool, true, false, String}
use raknet_python.Raw.Enums.{StartupResult, ConnectionAttemptResult}
use raknet_python.Raw.MessageId.{DefaultMessageIdTypes}

-- A message of an exception: a text, or an f-string `f"{before}{host}"` or
-- `f"{before}{host}:{port}{after}"`.
pub data Text : Type 0 where
  text : String → Text
  at_host : (before host : String) → Text
  at_address : (before host : String) (port : ℕ) (after : String) → Text

-- `ConnectionClosed` itself and its two subclasses.
pub data ConnectionClosed : Type 0 where
  closed : String → ConnectionClosed
  closed_ok : String → ConnectionClosed
  closed_error : String → ConnectionClosed

-- What `ConnectError.reason` holds.
pub data Reason : Type 0 where
  attempt_result : ConnectionAttemptResult → Reason
  message_id : DefaultMessageIdTypes → Reason

pub data Exception : Type 0 where
  raknet_error : Text → Exception
  startup_error : StartupResult → Exception
  connect_error : (host : String) (port : ℕ) → Reason → Exception
  connection_closed : ConnectionClosed → Exception
  timeout_error : Text → Exception
  value_error : Text → Exception

-- `isinstance(exc, ConnectionClosedOK)`
unfoldable pub is_closed_ok : ConnectionClosed → Bool
is_closed_ok (closed_ok m) = true
is_closed_ok (closed m) = false
is_closed_ok (closed_error m) = false

-- `isinstance(exc, RakNetError)`
unfoldable pub is_raknet_error : Exception → Bool
is_raknet_error (raknet_error t) = true
is_raknet_error (startup_error r) = true
is_raknet_error (connect_error h p r) = true
is_raknet_error (connection_closed c) = true
is_raknet_error (timeout_error t) = false
is_raknet_error (value_error t) = false

pub data Result {ℓ} (A : Type ℓ) : Type ℓ where
  ok : A → Result A
  raise : Exception → Result A

pub Result-cases {ℓ} :
    {A : Type ℓ} (r : Result A) → ((e : Exception) × (r ≡ raise e)) ⊎ ((a : A) × (r ≡ ok a))
Result-cases (raise e) = inl (e, refl)
Result-cases (ok a) = inr (a, refl)
