-- ===== src/Connector/Transport.antt =====
-- `Transport` of backend/internal/connector/transport.go: requests to an API, with a retry. The body
-- of a response is decoded by a parameter.
pub mod Policy
use cindex.Prelude.{
  ℕ, Option, none, some, List, [], ◌∷◌, ◌++◌, leb, if◌then◌else◌, Text, codes, is_empty, Bool,
}
use cindex.Go.Errors.{Result, ok, err}
use cindex.Go.Strconv.{itoa_ℕ}
use cindex.Connector.Errors.{fetch_err, Reply, got, refused, ◌>>=◌}
use cindex.Connector.Http.{Request, Client, Labels, exchange}
use cindex.Connector.Retry.{Run, by_kind, retry}

pub record Transport : Type 0 where
  pub client : Client
  pub max_retry : ℕ

abbrev pub max_attempts : ℕ
max_attempts = 3

-- NewTransport
unfoldable pub new_transport : Client → Transport
new_transport client = record { client = client; max_retry = max_attempts }

abbrev pub body_limit : ℕ
body_limit = 33554432

abbrev pub labels : Labels
labels = record {
  building = codes "build request";
  sending = codes "request failed";
  reading = codes "read body";
}

unfoldable pub http_error : Text → ℕ → Text
unfolding itoa_ℕ
http_error prefix status = prefix ++ itoa_ℕ status

-- The request of each method.
unfoldable pub get_request : Text → List (Text × Text) → Request
get_request url headers = record { method = codes "GET"; url = url; headers = headers; body = [] }

unfoldable pub json_request : Text → List (Text × Text) → Text → Request
json_request url headers body = record {
  method = codes "POST";
  url = url;
  headers = (codes "Content-Type", codes "application/json") ∷ headers;
  body = body;
}

unfoldable pub accept_headers : Text → List (Text × Text)
accept_headers accept = if is_empty accept then [] else (codes "Accept", accept) ∷ []

unfoldable pub form_request : Text → Text → Text → Request
unfolding accept_headers
form_request url form accept = record {
  method = codes "POST";
  url = url;
  headers =
      (codes "Content-Type", codes "application/x-www-form-urlencoded") ∷ accept_headers accept;
  body = form;
}

-- The answer of a server that is not refused: a status of 400 or more ends the call.
unfoldable pub accepted : Text → ℕ × Text → Reply Text
unfolding http_error
accepted key (status, body) =
    if leb 400 status then refused (fetch_err key (http_error (codes "HTTP ") status)) else got body

module _ {ℓ} {A : Type ℓ} where
  decoded : Text → Result A → Reply (Option A)
  decoded key (ok a) = got (some a)
  decoded key (err text) = refused (fetch_err key (codes "invalid JSON: " ++ text))

  -- json.Unmarshal into `out`, if there is an `out`.
  unfoldable pub decode_into : Text → Option (Text → Result A) → Text → Reply (Option A)
  unfolding decoded
  decode_into key none body = got none
  decode_into key (some decode) body = decoded key (decode body)

  unfoldable pub get_once :
      Client → Text → Text → List (Text × Text) → Option (Text → Result A) → ℕ → Reply (Option A)
  unfolding exchange accepted decode_into get_request
  get_once client key url headers out n =
      exchange client key labels body_limit (get_request url headers) n
      >>= accepted key
      >>= decode_into key out

  -- GetJSON; `stop` is the error of the context if it is done during the pause behind an attempt.
  unfoldable pub get_json :
      Transport
      → (ℕ → Option Text)
      → Text
      → Text
      → List (Text × Text)
      → Option (Text → Result A)
      → Run (Option A)
  unfolding retry by_kind get_once
  get_json t stop key url headers out =
      retry none (λ n. by_kind (get_once t.client key url headers out n)) stop t.max_retry

  post_marshalled :
      Client
      → Text
      → Text
      → List (Text × Text)
      → Result Text
      → Option (Text → Result A)
      → ℕ
      → Reply (Option A)
  post_marshalled client key url headers (err text) out n =
      refused (fetch_err key (codes "marshal payload: " ++ text))
  post_marshalled client key url headers (ok body) out n =
      exchange client key labels body_limit (json_request url headers body) n
      >>= accepted key
      >>= decode_into key out

  -- postOnce; `payload` is the answer of json.Marshal.
  unfoldable pub post_once :
      Client
      → Text
      → Text
      → List (Text × Text)
      → Result Text
      → Option (Text → Result A)
      → ℕ
      → Reply (Option A)
  unfolding post_marshalled exchange accepted decode_into json_request
  post_once client key url headers payload out n =
      post_marshalled client key url headers payload out n

  -- PostJSON
  unfoldable pub post_json :
      Transport
      → (ℕ → Option Text)
      → Text
      → Text
      → List (Text × Text)
      → Result Text
      → Option (Text → Result A)
      → Run (Option A)
  unfolding retry by_kind post_once
  post_json t stop key url headers payload out =
      retry none (λ n. by_kind (post_once t.client key url headers payload out n)) stop t.max_retry

  -- postFormOnce; an `out` of bytes takes the body as it is, with a decoder that never fails.
  unfoldable pub post_form_once :
      Client → Text → Text → Text → Text → Option (Text → Result A) → ℕ → Reply (Option A)
  unfolding exchange accepted decode_into form_request
  post_form_once client key url form accept out n =
      exchange client key labels body_limit (form_request url form accept) n
      >>= accepted key
      >>= decode_into key out

  -- PostForm, on the encoded form.
  unfoldable pub post_form :
      Transport
      → (ℕ → Option Text)
      → Text
      → Text
      → Text
      → Text
      → Option (Text → Result A)
      → Run (Option A)
  unfolding retry by_kind post_form_once
  post_form t stop key url form accept out =
      retry none (λ n. by_kind (post_form_once t.client key url form accept out n)) stop t.max_retry

unfoldable pub get_text_once : Client → Text → Text → Text → ℕ → Reply Text
unfolding exchange accepted get_request accept_headers
get_text_once client key url accept n =
    exchange client key labels body_limit (get_request url (accept_headers accept)) n
    >>= accepted key

-- GetText
unfoldable pub get_text : Transport → (ℕ → Option Text) → Text → Text → Text → Run Text
unfolding retry by_kind get_text_once
get_text t stop key url accept =
    retry [] (λ n. by_kind (get_text_once t.client key url accept n)) stop t.max_retry
