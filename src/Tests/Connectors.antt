-- ===== src/Tests/Connectors.antt =====
-- Calls of the connectors at sample servers and texts.
use mathlib.Core.Bool.{false≢true}
use mathlib.Core.List.{cons-ne-nil}
use cindex.Connector.Profile.{profile_for}
use cindex.Connector.Registry.{new_connector}
use cindex.Connector.Registry.Known.{is_known, new_connector-profile_for}
use cindex.Prelude.{
  ℕ, suc, ◌+◌, ◌≤◌, ◌<◌, ◌≡◌, ◌≢◌, map, sym, subst, is_empty, text_eq, text_eq_iff, ◌⊎◌, ◌&&◌, leb,
  if◌then◌else◌, refl, arith, Bool, true, false, not, Option, none, some, List, [], ◌∷◌, Text,
  codes, All,
}
use cindex.Go.Errors.{Result, ok, err}
use cindex.Go.Strings.Trim.{Trimmed, trim_space-Trimmed}
use cindex.Go.Strings.{trim_space}
use cindex.Connector.Http.{Response, Client}
use cindex.Connector.Retry.{Attempt, by_kind, retry}
use cindex.Connector.Retry.Schedule.{
  may_retry, never, schedule, calls, pause, backoff, retry-bounds,
}
use cindex.Connector.Transport.{
  new_transport, get_json, get_once, post_once, post_form_once, get_text_once, get_request,
  form_request, accept_headers, body_limit,
}
use cindex.Connector.Transport.Policy.{answered, unanswered, once-may_retry, get_json-Settled}
use cindex.Connector.Browser.{
  BrowserTransport, is_gateway_error, fetch_once, pdf_text_once, post_binary_once, post_json_once,
}
use cindex.Connector.Browser.Policy.{sidecar_status, refusal, once-refusal}
use cindex.Connector.Texts.{
  strip_html_tags, merge_evidence, peer_review_tokens, indexing_tokens, preprint_tokens,
}
use cindex.Connector.Texts.Tags.{NoBracket, strip_html_tags-NoBracket}
use cindex.Connector.Texts.Evidence.{IsToken, Covers, merge_evidence-Covers}
use cindex.Connector.Patterns.{extract_year, years_from}
use cindex.Connector.Patterns.Years.{IsLatest, extract_year-IsLatest}
use cindex.Connector.EuropePmc.{EuropePmcRecord, build_all}
use cindex.Connector.EuropePmc.Evidence.{Sound, build_all-Sound}

abbrev answer : Text → Response
answer body = record { status_code = 200; read_all = λ _. ok body }

-- A server that drops the first request.
abbrev flaky : Client
flaky = record {
  new_request = λ _ _. none;
  send = λ n _. if leb n 1 then err (codes "connection reset") else ok (answer (codes "{}"));
}

abbrev whole_body : Option (Text → Result Text)
whole_body = some (λ body. ok body)

abbrev key : Text
key = codes "hal"

abbrev url : Text
url = codes "https://api.archives-ouvertes.fr/search/"

get_json-Settled_example :
    (k : ℕ) × (k ≤ 2)
    × ((i : ℕ) → i < k → answered flaky body_limit (get_request url []) (suc i) ≡ false)
    × ((answered flaky body_limit (get_request url []) (suc k) ≡ true) ⊎ (k ≡ 2))
    × (get_json (new_transport flaky) never key url [] whole_body
        ≡ (get_once flaky key url [] whole_body (suc k), schedule 1 k))
get_json-Settled_example = get_json-Settled flaky key url [] whole_body

once-may_retry_example :
    (may_retry (by_kind (get_once flaky key url [] whole_body 1))
      ≡ not (answered flaky body_limit (get_request url []) 1))
    × (may_retry (by_kind (post_once flaky key url [] (ok (codes "{}")) whole_body 1))
        ≡ unanswered flaky url [] (ok (codes "{}")) 1)
    × (may_retry (by_kind (post_form_once flaky key url (codes "q=1") [] whole_body 1))
        ≡ not (answered flaky body_limit (form_request url (codes "q=1") []) 1))
    × (may_retry (by_kind (get_text_once flaky key url [] 1))
        ≡ not (answered flaky body_limit (get_request url (accept_headers [])) 1))
once-may_retry_example =
    once-may_retry flaky key url (codes "q=1") [] (ok (codes "{}")) [] whole_body 1

abbrev calls_of_flaky : ℕ → Attempt (Option Text)
calls_of_flaky n = by_kind (get_once flaky key url [] whole_body n)

retry-bounds_example :
    (calls (retry none calls_of_flaky never 3).1 ≤ 3)
    × (pause (retry none calls_of_flaky never 3).1 ≤ backoff 1 2)
retry-bounds_example = retry-bounds none calls_of_flaky never 2

-- Three attempts pause for 1800 ms at most.
two_pauses : backoff 1 2 ≡ 1800
unfolding backoff
two_pauses = refl

-- A sidecar behind a gateway that is down.
abbrev down : Client
down = record {
  new_request = λ _ _. none;
  send = λ _ _. ok (record { status_code = 502; read_all = λ _. ok [] });
}

abbrev sidecar : BrowserTransport
sidecar = record {
  base_url = codes "http://browser:8081";
  client = down;
  attempts = 3;
  parse_response = λ _. err (codes "no JSON");
  parse_text = λ body. ok body;
  decode_base64 = λ body. ok body;
}

abbrev whole : Text → Result Text
whole body = ok body

refused_again : (path : Text) → refusal (sidecar_status sidecar path [] 1) ≡ some true
unfolding refusal sidecar_status is_gateway_error
refused_again path = refl

once-refusal_example :
    (may_retry (by_kind (fetch_once sidecar key (ok []) 1)) ≡ true)
    × (may_retry (by_kind (pdf_text_once sidecar key [] 1)) ≡ true)
    × (may_retry (by_kind (post_binary_once sidecar key [] 1)) ≡ true)
    × (may_retry (by_kind (post_json_once whole sidecar key [] 1)) ≡ true)
once-refusal_example =
    once-refusal whole sidecar key [] 1 true true true true (refused_again (codes "/fetch"))
      (refused_again (codes "/pdf-text")) (refused_again (codes "/screenshot"))
      (refused_again (codes "/pdf-pages"))

abbrev page : Text
page = codes "<p>A proof of <b>1 < 2"

strip_html_tags-NoBracket_example : All NoBracket (strip_html_tags page)
strip_html_tags-NoBracket_example = strip_html_tags-NoBracket page

-- The case table of ASCII.
abbrev lower : ℕ → ℕ
lower c = if leb 65 c && leb c 90 then c + 32 else c

-- The test of a token.
is_token : Text → Bool
is_token tok = text_eq (trim_space tok) tok && not (is_empty tok) && text_eq (map lower tok) tok

are_tokens : List Text → Bool
are_tokens [] = true
are_tokens (tok ∷ tokens) = is_token tok && are_tokens tokens

full : (s : Text) → is_empty s ≡ false → s ≢ []
full [] h e = false≢true (sym h)
full (c ∷ s) h e = cons-ne-nil c s e

is_token-IsToken : (tok : Text) → is_token tok ≡ true → IsToken lower tok
unfolding is_token
is_token-IsToken tok h = record {
  trimmed =
      subst Trimmed ((text_eq_iff (trim_space tok) tok).0 (ground (arith, h)))
        (trim_space-Trimmed tok);
  full = full tok (ground (arith, h));
  lowered = (text_eq_iff (map lower tok) tok).0 (ground (arith, h));
}

are_tokens-IsToken : (tokens : List Text) → are_tokens tokens ≡ true → All (IsToken lower) tokens
unfolding are_tokens
are_tokens-IsToken [] h = tt
are_tokens-IsToken (tok ∷ tokens) h =
    (is_token-IsToken tok (ground (arith, h)), are_tokens-IsToken tokens (ground (arith, h)))

peer_are_tokens : are_tokens peer_review_tokens ≡ true
unfolding are_tokens is_token text_eq codes trim_space
peer_are_tokens = refl

indexing_are_tokens : are_tokens indexing_tokens ≡ true
unfolding are_tokens is_token text_eq codes trim_space
indexing_are_tokens = refl

preprint_are_tokens : are_tokens preprint_tokens ≡ true
unfolding are_tokens is_token text_eq codes trim_space
preprint_are_tokens = refl

abbrev blurb : Text
blurb = codes "A Refereed journal in Scopus"

merge_evidence-Covers_example :
    Covers lower blurb peer_review_tokens (merge_evidence lower blurb ([], codes "doaj", [])).0
    × Covers lower blurb indexing_tokens (merge_evidence lower blurb ([], codes "doaj", [])).1
    × Covers lower blurb preprint_tokens (merge_evidence lower blurb ([], codes "doaj", [])).2
    × (merge_evidence lower blurb (merge_evidence lower blurb ([], codes "doaj", []))
        ≡ merge_evidence lower blurb ([], codes "doaj", []))
merge_evidence-Covers_example =
    merge_evidence-Covers lower blurb [] (codes "doaj") []
      (are_tokens-IsToken peer_review_tokens peer_are_tokens)
      (are_tokens-IsToken indexing_tokens indexing_are_tokens)
      (are_tokens-IsToken preprint_tokens preprint_are_tokens)

abbrev dated : Text
dated = codes "1998, revised in 2003"

extract_year-IsLatest_example :
    IsLatest 2024 dated (extract_year 2024 dated)
    × All (λ y. 1800 ≤ y → y ≤ 2024 + 1 → y ≤ extract_year 2024 dated) (years_from 0 dated)
extract_year-IsLatest_example = extract_year-IsLatest 2024 dated

latest : extract_year 2024 dated ≡ 2003
unfolding extract_year codes years_from
latest = refl

new_connector-profile_for_example :
    is_known (new_connector (codes "openedition")) ≡ is_known (profile_for (codes "openedition"))
new_connector-profile_for_example = new_connector-profile_for (codes "openedition")

abbrev editorial : EuropePmcRecord
editorial = record {
  id = codes "PPR1";
  pmcid = codes "PMC1";
  title = codes "On sets";
  abstract_text = codes "Sets.";
  doi = [];
  pub_year = codes "2020";
  first_publication_date = codes "2020-01-01";
  cited_by_count = 0;
  journal_title = [];
  authors = [];
  author_string = [];
  pub_types = codes "Preprint" ∷ [];
  full_text_urls = [];
}

build_all-Sound_example : All Sound (build_all lower (codes "pmc") true 2024 (editorial ∷ []))
build_all-Sound_example = build_all-Sound lower (codes "pmc") true 2024 (editorial ∷ [])
