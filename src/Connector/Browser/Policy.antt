-- ===== src/Connector/Browser/Policy.antt =====
-- Which refusals of the browser sidecar the methods of `BrowserTransport` (connector/transport.go) try
-- again.
use cindex.Prelude.{
  ℕ, ◌≡◌, Bool, true, false, Option, none, some, [], ◌++◌, Text, codes, leb, if◌then◌else◌,
}
use cindex.Go.Errors.{Result, ok, err}
use cindex.Connector.Errors.{retry_err, fetch_err, Reply, got, refused, is_fetch_error, ◌>>=◌}
use cindex.Connector.Http.{
  Response, Labels, retry_with, read_body, read_response, build_request, exchange,
}
use cindex.Connector.Retry.{by_kind}
use cindex.Connector.Retry.Schedule.{may_retry}
use cindex.Connector.Transport.{json_request, http_error}
use cindex.Connector.Browser.{
  BrowserTransport, sidecar_limit, is_gateway_error, sidecar_accepted, sidecar_post, fetch_once,
  pdf_text_once, post_binary_once, post_json_once, fetch_labels, pdf_labels, binary_labels,
  json_labels,
}

status_of_body : ℕ → Result Text → Option ℕ
status_of_body status (ok _) = some status
status_of_body status (err _) = none

status_of_response : ℕ → Option Text → Result Response → Option ℕ
status_of_response limit (some _) sent = none
status_of_response limit none (err _) = none
status_of_response limit none (ok r) = status_of_body r.status_code (r.read_all limit)

-- The status of the sidecar's answer to attempt `n`, if the answer can be read.
unfoldable pub sidecar_status : BrowserTransport → Text → Text → ℕ → Option ℕ
unfolding status_of_body status_of_response
sidecar_status b path payload n =
    let request = json_request (b.base_url ++ path) [] payload in
    status_of_response sidecar_limit (b.client.new_request request.method request.url)
      (b.client.send n request)

-- The policy: whether a call that brings back this status is to be repeated. A status below 400 is
-- no refusal.
unfoldable pub refusal : Option ℕ → Option Bool
refusal none = some true
refusal (some status) =
    if is_gateway_error status then some true else if leb 400 status then some false else none

module _ {A : Type 0} where
  again : Reply A → Bool
  again r = may_retry (by_kind r)

  again-verdict :
      (gateway high : Bool) (key label body : Text) (f : Text → Reply A) (flag : Bool)
      → (if gateway then some true else if high then some false else none) ≡ some flag
      → again (
          (if gateway
            then refused (retry_err key label)
            else if high
            then refused (fetch_err key label)
            else got body)
          >>= f)
        ≡ flag
  unfolding again may_retry by_kind is_fetch_error
  again-verdict true high key label body f flag h = cc
  again-verdict false true key label body f flag h = cc
  again-verdict false false key label body f flag h = cc

  again-body :
      (key label reading : Text) (status : ℕ) (body : Result Text) (f : Text → Reply A)
      (flag : Bool)
      → refusal (status_of_body status body) ≡ some flag
      → again (read_body key reading status body >>= sidecar_accepted key label >>= f) ≡ flag
  unfolding again refusal status_of_body read_body retry_with sidecar_accepted may_retry by_kind
      is_fetch_error
  again-body key label reading status (ok body) f flag h =
      again-verdict (is_gateway_error status) (leb 400 status) key (http_error label status) body f
        flag h
  again-body key label reading status (err text) f flag h = cc

  again-response :
      (key label : Text) (labels : Labels) (limit : ℕ) (built : Option Text)
      (sent : Result Response) (f : Text → Reply A) (flag : Bool)
      → refusal (status_of_response limit built sent) ≡ some flag
      → again (
          build_request key labels built (read_response key labels limit sent)
          >>= sidecar_accepted key label
          >>= f)
        ≡ flag
  unfolding again refusal status_of_response build_request read_response retry_with may_retry
      by_kind is_fetch_error
  again-response key label labels limit (some text) sent f flag h = cc
  again-response key label labels limit none (err text) f flag h = cc
  again-response key label labels limit none (ok r) f flag h =
      again-body key label labels.reading r.status_code (r.read_all limit) f flag h

  again-sidecar :
      (b : BrowserTransport) (key : Text) (labels : Labels) (label path payload : Text) (n : ℕ)
      (f : Text → Reply A) (flag : Bool)
      → refusal (sidecar_status b path payload n) ≡ some flag
      → again (sidecar_post b key labels label path payload n >>= f) ≡ flag
  unfolding sidecar_post exchange sidecar_status
  again-sidecar b key labels label path payload n f flag h =
      again-response key label labels sidecar_limit
        (b.client.new_request (codes "POST") (b.base_url ++ path))
        (b.client.send n (json_request (b.base_url ++ path) [] payload)) f flag h

module _ {A : Type 0} where
  -- Text extraction, screenshots and page renderings treat a refusal by the sidecar itself as a page
  -- fetch does: a call that brings back no answer, or the status 502 or 504, is repeated, and any
  -- other status of 400 or more ends the loop.
  pub once-refusal :
      (parse : Text → Result A) (b : BrowserTransport) (key payload : Text) (n : ℕ)
      (page text image pages : Bool)
      → refusal (sidecar_status b (codes "/fetch") payload n) ≡ some page
      → refusal (sidecar_status b (codes "/pdf-text") payload n) ≡ some text
      → refusal (sidecar_status b (codes "/screenshot") payload n) ≡ some image
      → refusal (sidecar_status b (codes "/pdf-pages") payload n) ≡ some pages
      → (may_retry (by_kind (fetch_once b key (ok payload) n)) ≡ page)
        × (may_retry (by_kind (pdf_text_once b key payload n)) ≡ text)
        × (may_retry (by_kind (post_binary_once b key payload n)) ≡ image)
        × (may_retry (by_kind (post_json_once parse b key payload n)) ≡ pages)
  unfolding fetch_once pdf_text_once post_binary_once post_json_once again
  once-refusal parse b key payload n page text image pages fetch pdf screen render = (
    again-sidecar b key fetch_labels (codes "sidecar HTTP ") (codes "/fetch") payload n _ page
        fetch,
    again-sidecar b key pdf_labels (codes "PDF sidecar HTTP ") (codes "/pdf-text") payload n _ text
        pdf,
    again-sidecar b key binary_labels (codes "sidecar HTTP ") (codes "/screenshot") payload n _
        image screen,
    again-sidecar b key json_labels (codes "sidecar HTTP ") (codes "/pdf-pages") payload n _ pages
        render,
  )
