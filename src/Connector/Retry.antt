-- ===== src/Connector/Retry.antt =====
-- The loop that every method of backend/internal/connector/transport.go repeats a request with. Times
-- are in milliseconds.
pub mod Schedule
use cindex.Prelude.{
  ℕ, zero, suc, ◌*◌, Bool, true, false, not, Option, none, some, List, [], ◌∷◌, Text,
}
use cindex.Connector.Errors.{ConnectorError, context_error, is_fetch_error, Reply, got, refused}

-- What one attempt came to: a value, or an error and whether another attempt may follow.
pub data Attempt {ℓ} (A : Type ℓ) : Type ℓ where
  done : A → Attempt A
  failed : ConnectorError → Bool → Attempt A

-- What the loop does, in order.
pub data Action : Type 0 where
  called : ℕ → Action
  waited : ℕ → Action

abbrev pub Run {ℓ} : Type ℓ → Type ℓ
Run A = Reply A × List Action

-- An attempt without a flag of its own: all errors but a FetchError are tried again.
unfoldable pub by_kind {ℓ} : {A : Type ℓ} → Reply A → Attempt A
unfolding is_fetch_error
by_kind (got a) = done a
by_kind (refused e) = failed e (not (is_fetch_error e))

module _ {ℓ} {A : Type ℓ} where
  -- `return lastErr`: without any attempt the error is nil and the value is the zero value.
  abbrev last_answer : A → Option ConnectorError → Reply A
  last_answer blank none = got blank
  last_answer blank (some e) = refused e

  abbrev pub push : Action → Run A → Run A
  push a r = (r.0, a ∷ r.1)

  -- What follows an attempt, with the number of attempts that are left, the error of the context if
  -- it is cancelled during the pause, and the rest of the loop.
  unfoldable pub after_attempt : Attempt A → ℕ → ℕ → Option Text → (ConnectorError → Run A) → Run A
  after_attempt (done a) left n stop rest = (got a, [])
  after_attempt (failed e false) left n stop rest = (refused e, [])
  after_attempt (failed e true) zero n stop rest = rest e
  after_attempt (failed e true) (suc left) n none rest = push (waited (n * 600)) (rest e)
  after_attempt (failed e true) (suc left) n (some text) rest =
      (refused (context_error text), waited (n * 600) ∷ [])

  -- The attempts from number `n` on, of which `left` are left.
  unfoldable pub retry_from :
      A → (ℕ → Attempt A) → (ℕ → Option Text) → ℕ → ℕ → Option ConnectorError → Run A
  unfolding after_attempt
  retry_from blank once stop zero n last = (last_answer blank last, [])
  retry_from blank once stop (suc left) n last = push (called n) (
      after_attempt (once n) left n (stop n)
        (λ e. retry_from blank once stop left (suc n) (some e)))

  -- The loop over at most `limit` attempts.
  unfoldable pub retry : A → (ℕ → Attempt A) → (ℕ → Option Text) → ℕ → Run A
  unfolding retry_from
  retry blank once stop limit = retry_from blank once stop limit 1 none
