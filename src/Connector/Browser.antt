-- ===== src/Connector/Browser.antt =====
-- `BrowserTransport` of backend/internal/connector/transport.go: requests to the browser sidecar. The
-- JSON and base64 codecs are parameters.
pub mod Policy
use cindex.Prelude.{
  ℕ, Bool, true, false, ◌||◌, Option, none, some, List, [], ◌∷◌, ◌++◌, leb, ◌==◌, if◌then◌else◌,
  Text, codes, text_eq, is_empty, any, not,
}
use cindex.Go.Errors.{Result, ok, err}
use cindex.Go.Strings.{contains}
use cindex.Go.Unicode.{to_lower}
use cindex.Connector.Errors.{ConnectorError, fetch_err, retry_err, Reply, got, refused, ◌>>=◌}
use cindex.Connector.Http.{Request, Client, Labels, exchange, retry_with}
use cindex.Connector.Retry.{Attempt, done, failed, Run, by_kind, retry}
use cindex.Connector.Texts.{normalize_scholarly}
use cindex.Connector.Transport.{json_request, http_error, max_attempts}

pub record Page : Type 0 where
  pub body : Text
  pub content_type : Text
  pub encoding : Text

-- fetchResponse
pub record FetchResponse : Type 0 where
  pub status : ℕ
  pub body : Text
  pub content_type : Text
  pub encoding : Text

-- The sidecar and the codecs that its answers pass through.
pub record BrowserTransport : Type 0 where
  pub base_url : Text
  pub client : Client
  pub attempts : ℕ
  pub parse_response : Text → Result FetchResponse
  pub parse_text : Text → Result Text
  pub decode_base64 : Text → Result Text

abbrev pub sidecar_limit : ℕ
sidecar_limit = 67108864

-- http.StatusBadGateway or http.StatusGatewayTimeout
unfoldable pub is_gateway_error : ℕ → Bool
is_gateway_error status = status == 502 || status == 504

-- The answer of the sidecar to a POST of `payload` that is not refused: gateway errors are
-- retryable, any other status of 400 or more ends the call.
unfoldable pub sidecar_accepted : Text → Text → ℕ × Text → Reply Text
unfolding is_gateway_error http_error
sidecar_accepted key label (status, body) =
    if is_gateway_error status
    then refused (retry_err key (http_error label status))
    else if leb 400 status
    then refused (fetch_err key (http_error label status))
    else got body

unfoldable pub sidecar_post : BrowserTransport → Text → Labels → Text → Text → Text → ℕ → Reply Text
unfolding exchange sidecar_accepted json_request
sidecar_post b key labels label path payload n =
    exchange b.client key labels sidecar_limit (json_request (b.base_url ++ path) [] payload) n
    >>= sidecar_accepted key label

abbrev pub fetch_labels : Labels
fetch_labels = record {
  building = codes "build sidecar request";
  sending = codes "sidecar request failed";
  reading = codes "read sidecar body";
}

abbrev pub json_labels : Labels
json_labels = record {
  building = codes "build sidecar request";
  sending = codes "sidecar request failed";
  reading = codes "read sidecar response";
}

abbrev pub binary_labels : Labels
binary_labels = record {
  building = codes "build binary sidecar request";
  sending = codes "binary sidecar request failed";
  reading = codes "read binary sidecar response";
}

abbrev pub pdf_labels : Labels
pdf_labels = record {
  building = codes "build PDF text request";
  sending = codes "PDF text request failed";
  reading = codes "read PDF text response";
}

decoded_page : Text → FetchResponse → Result Text → Reply Page
decoded_page key fr (ok body) =
    got (record { body = body; content_type = fr.content_type; encoding = [] })
decoded_page key fr (err text) = refused (retry_with key (codes "sidecar base64 decode") text)

-- The page of a response of the sidecar.
unfoldable pub page_of : BrowserTransport → Text → FetchResponse → Reply Page
unfolding decoded_page http_error retry_with
page_of b key fr =
    if leb 400 fr.status
    then refused (fetch_err key (http_error (codes "upstream HTTP ") fr.status))
    else if text_eq fr.encoding (codes "base64")
    then decoded_page key fr (b.decode_base64 fr.body)
    else got (record { body = fr.body; content_type = fr.content_type; encoding = fr.encoding })

parsed : {A : Type 0} → Text → Text → Result A → Reply A
parsed key label (ok a) = got a
parsed key label (err text) = refused (retry_with key label text)

-- parseResponse of fetchOnce
unfoldable pub fetch_body : BrowserTransport → Text → Text → Reply Page
unfolding parsed page_of retry_with
fetch_body b key body =
    parsed key (codes "invalid sidecar JSON") (b.parse_response body) >>= page_of b key

fetch_marshalled : BrowserTransport → Text → Result Text → ℕ → Reply Page
fetch_marshalled b key (ok payload) n =
    sidecar_post b key fetch_labels (codes "sidecar HTTP ") (codes "/fetch") payload n
    >>= fetch_body b key
fetch_marshalled b key (err text) n =
    refused (retry_with key (codes "marshal sidecar request") text)

-- fetchOnce; `request` is the answer of json.Marshal.
unfoldable pub fetch_once : BrowserTransport → Text → Result Text → ℕ → Reply Page
unfolding fetch_marshalled fetch_body sidecar_post retry_with
fetch_once b key request n = fetch_marshalled b key request n

-- doFetch, behind Fetch, PostForm and PostJSON; `none` is the nil page.
unfoldable pub do_fetch :
    BrowserTransport → (ℕ → Option Text) → Text → Result Text → Run (Option Page)
unfolding retry by_kind fetch_once
do_fetch b stop key request =
    retry none (λ n. by_kind (fetch_once b key request n >>= (λ page. got (some page)))) stop
      b.attempts

-- A loop behind a payload that json.Marshal has to build first.
unfoldable pub with_payload : {A : Type 0} → Text → Text → Result Text → (Text → Run A) → Run A
unfolding retry_with
with_payload key label (ok payload) rest = rest payload
with_payload key label (err text) rest = (refused (retry_with key label text), [])

pdf_text_of : Text → Result Text → Reply Text
pdf_text_of key (ok text) = got (normalize_scholarly none text)
pdf_text_of key (err text) = refused (fetch_err key (codes "invalid PDF sidecar JSON: " ++ text))

-- pdfTextOnce. Its flag is true beside each RetryableError and false beside each FetchError.
unfoldable pub pdf_text_once : BrowserTransport → Text → Text → ℕ → Reply Text
unfolding sidecar_post pdf_text_of normalize_scholarly
pdf_text_once b key payload n =
    sidecar_post b key pdf_labels (codes "PDF sidecar HTTP ") (codes "/pdf-text") payload n
    >>= (λ body. pdf_text_of key (b.parse_text body))

-- PDFText
unfoldable pub pdf_text : BrowserTransport → (ℕ → Option Text) → Text → Result Text → Run Text
unfolding with_payload retry by_kind pdf_text_once
pdf_text b stop key request =
    with_payload key (codes "marshal PDF text request") request
      (λ payload. retry [] (λ n. by_kind (pdf_text_once b key payload n)) stop b.attempts)

decoded_binary : Text → Result Text → Reply Text
decoded_binary key (ok bytes) = got bytes
decoded_binary key (err text) =
    refused (retry_with key (codes "decode binary sidecar response") text)

binary_of : BrowserTransport → Text → Result FetchResponse → Reply Text
binary_of b key (err text) = refused (fetch_err key (codes "invalid binary sidecar JSON: " ++ text))
binary_of b key (ok fr) =
    if leb 400 fr.status
    then refused (fetch_err key (http_error (codes "upstream HTTP ") fr.status))
    else if not (text_eq fr.encoding (codes "base64"))
    then refused (fetch_err key (codes "binary sidecar response is not base64"))
    else decoded_binary key (b.decode_base64 fr.body)

-- postBinaryOnce for /screenshot. Its flag is true beside each RetryableError and false beside each
-- FetchError.
unfoldable pub post_binary_once : BrowserTransport → Text → Text → ℕ → Reply Text
unfolding sidecar_post binary_of decoded_binary http_error retry_with
post_binary_once b key payload n =
    sidecar_post b key binary_labels (codes "sidecar HTTP ") (codes "/screenshot") payload n
    >>= (λ body. binary_of b key (b.parse_response body))

-- Screenshot
unfoldable pub screenshot : BrowserTransport → (ℕ → Option Text) → Text → Result Text → Run Text
unfolding with_payload retry by_kind post_binary_once
screenshot b stop key request =
    with_payload key (codes "marshal screenshot request") request
      (λ payload. retry [] (λ n. by_kind (post_binary_once b key payload n)) stop b.attempts)

module _ {A : Type 0} (parse : Text → Result A) where
  -- postJSONOnce for /pdf-pages.
  unfoldable pub post_json_once : BrowserTransport → Text → Text → ℕ → Reply A
  unfolding sidecar_post parsed retry_with
  post_json_once b key payload n =
      sidecar_post b key json_labels (codes "sidecar HTTP ") (codes "/pdf-pages") payload n
      >>= (λ body. parsed key (codes "invalid sidecar JSON") (parse body))

  -- PDFPages
  unfoldable pub pdf_pages :
      BrowserTransport → (ℕ → Option Text) → Text → Result Text → Run (Option A)
  unfolding with_payload retry by_kind post_json_once
  pdf_pages b stop key request =
      with_payload key (codes "marshal PDF pages request") request (λ payload.
        retry none (λ n. by_kind (post_json_once b key payload n >>= (λ pages. got (some pages))))
          stop b.attempts)

abbrev pub challenge_markers : List Text
challenge_markers =
    codes "cf-browser-verification"
    ∷ codes "challenge-running"
    ∷ codes "cdn-cgi/challenge-platform"
    ∷ codes "challenges.cloudflare.com"
    ∷ codes "attention required! | cloudflare"
    ∷ codes "anubis_version"
    ∷ codes "anubis_challenge"
    ∷ codes "making sure you're not a bot"
    ∷ codes "checking your browser"
    ∷ codes "enable javascript and cookies"
    ∷ codes "verify you are human"
    ∷ []

-- IsChallengePage; `lower` is the case table of package unicode.
unfoldable pub is_challenge_page : (ℕ → ℕ) → Text → Bool
unfolding contains
is_challenge_page lower html = any (contains (to_lower lower html)) challenge_markers
