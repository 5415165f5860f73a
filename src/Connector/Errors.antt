-- ===== src/Connector/Errors.antt =====
-- The errors of a connector in backend/internal/connector/profile.go, and what a call answers.
use cindex.Prelude.{◌≡◌, refl, Text, ◌++◌, codes, Bool, true, false}

-- RawError; the three error types embed it.
pub record RawError : Type 0 where
  pub source_key : Text
  pub message : Text

-- RawError.Error
unfoldable pub error_text : RawError → Text
error_text e = e.source_key ++ (codes ": " ++ e.message)

-- FetchError, RetryableError and ChallengeError, and an error of the context.
pub data ConnectorError : Type 0 where
  fetch_error : RawError → ConnectorError
  retryable_error : RawError → ConnectorError
  challenge_error : RawError → ConnectorError
  context_error : Text → ConnectorError

-- fetchErr and retryErr, on the formatted message.
abbrev pub fetch_err : Text → Text → ConnectorError
fetch_err key text = fetch_error (record { source_key = key; message = text })

abbrev pub retry_err : Text → Text → ConnectorError
retry_err key text = retryable_error (record { source_key = key; message = text })

-- errors.As with a FetchError.
unfoldable pub is_fetch_error : ConnectorError → Bool
is_fetch_error (fetch_error _) = true
is_fetch_error (retryable_error _) = false
is_fetch_error (challenge_error _) = false
is_fetch_error (context_error _) = false

-- A value, or an error of a connector.
pub data Reply {ℓ} (A : Type ℓ) : Type ℓ where
  got : A → Reply A
  refused : ConnectorError → Reply A

infixl 5 ◌>>=◌
abbrev pub ◌>>=◌ {ℓ κ} : {A : Type ℓ} {B : Type κ} → Reply A → (A → Reply B) → Reply B
got a >>= f = f a
refused e >>= f = refused e

pub bind_assoc :
    {A B C : Type 0} (m : Reply A) (f : A → Reply B) (g : B → Reply C)
    → (m >>= f >>= g) ≡ (m >>= (λ a. f a >>= g))
bind_assoc (got a) f g = refl
bind_assoc (refused e) f g = refl
