-- ===== src/Connector/Http.antt =====
-- A request over net/http as the methods of backend/internal/connector/transport.go make it: the
-- steps that all of them share, over a client that is a parameter.
use cindex.Prelude.{ℕ, Option, none, some, List, ◌++◌, Text, codes}
use cindex.Go.Errors.{Result, ok, err}
use cindex.Connector.Errors.{ConnectorError, retry_err, Reply, got, refused}

pub record Request : Type 0 where
  pub method : Text
  pub url : Text
  -- The calls of Header.Set, in order.
  pub headers : List (Text × Text)
  pub body : Text

pub record Response : Type 0 where
  pub status_code : ℕ
  -- io.ReadAll over io.LimitReader, by the limit.
  pub read_all : ℕ → Result Text

-- The client of one call: http.NewRequestWithContext fails with a text or not, and Client.Do sends
-- the request of an attempt.
pub record Client : Type 0 where
  pub new_request : Text → Text → Option Text
  pub send : ℕ → Request → Result Response

-- What the errors of the three steps begin with.
pub record Labels : Type 0 where
  pub building : Text
  pub sending : Text
  pub reading : Text

-- retryErr with the format `label: %v`.
unfoldable pub retry_with : Text → Text → Text → ConnectorError
retry_with key label text = retry_err key (label ++ (codes ": " ++ text))

unfoldable pub read_body : Text → Text → ℕ → Result Text → Reply (ℕ × Text)
read_body key label status (ok body) = got (status, body)
read_body key label status (err text) = refused (retry_with key label text)

unfoldable pub read_response : Text → Labels → ℕ → Result Response → Reply (ℕ × Text)
unfolding read_body retry_with
read_response key labels limit (ok r) =
    read_body key labels.reading r.status_code (r.read_all limit)
read_response key labels limit (err text) = refused (retry_with key labels.sending text)

unfoldable pub build_request : Text → Labels → Option Text → Reply (ℕ × Text) → Reply (ℕ × Text)
unfolding retry_with
build_request key labels none rest = rest
build_request key labels (some text) rest = refused (retry_with key labels.building text)

-- Building the request, sending it as attempt `n` and reading at most `limit` bytes of the body.
unfoldable pub exchange : Client → Text → Labels → ℕ → Request → ℕ → Reply (ℕ × Text)
unfolding build_request read_response
exchange client key labels limit request n =
    build_request key labels (client.new_request request.method request.url)
      (read_response key labels limit (client.send n request))
