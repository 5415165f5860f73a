-- ===== src/Repository/Quotes.antt =====
-- backend/internal/repository/quotes.go: the row of one article in extraction_articlequotes, if it
-- has one. Each statement reads and writes that row alone. A time is a number of seconds.
pub mod Claims
use cindex.Prelude.{
  ℕ, ◌+◌, Bool, true, false, ◌||◌, ◌&&◌, Option, none, some, List, [], ltb, if◌then◌else◌, Text,
  length, take,
}
use cindex.Domain.SearchJob.{Quote}

-- QuotesStatusPending, ...
pub data QuotesStatus : Type 0 where
  pending done failed no_text : QuotesStatus

pub record ArticleQuotes : Type 0 where
  pub quotes : List Quote
  pub tldr : Text
  pub status : QuotesStatus
  pub extracted_at : Option ℕ
  pub model : Text
  pub error : Text
  pub created_at : ℕ
  pub updated_at : ℕ

abbrev is_pending : QuotesStatus → Bool
is_pending pending = true
is_pending _ = false

abbrev is_failed : QuotesStatus → Bool
is_failed failed = true
is_failed _ = false

abbrev is_no_text : QuotesStatus → Bool
is_no_text no_text = true
is_no_text _ = false

-- `stalePending`: the update is older than fifteen minutes.
unfoldable pub is_stale : ℕ → ArticleQuotes → Bool
is_stale now q = is_pending q.status && ltb (q.updated_at + 900) now

unfoldable pub claimable : ℕ → ArticleQuotes → Bool
unfolding is_stale
claimable now q = is_failed q.status || is_no_text q.status || is_stale now q

-- What Claim does with a row that it has locked: the row that it leaves, and whether it wins.
unfoldable pub claim_row : ℕ → ArticleQuotes → ArticleQuotes × Bool
unfolding claimable
claim_row now q =
    if claimable now q
    then (record q { status = pending; error = []; extracted_at = none; updated_at = now }, true)
    else (q, false)

unfoldable pub new_claim : ℕ → ArticleQuotes
new_claim now = record {
  quotes = [];
  tldr = [];
  status = pending;
  extracted_at = none;
  model = [];
  error = [];
  created_at = now;
  updated_at = now;
}

-- The first statement of Claim, SELECT ... FOR UPDATE, with what follows where it finds the row;
-- `none` for no row.
unfoldable pub claim_select : ℕ → Option ArticleQuotes → Option ArticleQuotes × Option Bool
unfolding claim_row
claim_select now none = (none, none)
claim_select now (some q) = let (left, won) = claim_row now q in (some left, some won)

-- The second statement, INSERT ... ON CONFLICT DO NOTHING: where another caller's row is there by
-- then, the claim is lost.
unfoldable pub claim_insert : ℕ → Option ArticleQuotes → Option ArticleQuotes × Bool
unfolding new_claim
claim_insert now none = (some (new_claim now), true)
claim_insert now (some q) = (some q, false)

-- Claim of a caller whom no other interrupts.
unfoldable pub claim : ℕ → Option ArticleQuotes → Option ArticleQuotes × Bool
unfolding claim_select claim_insert
claim now row =
    let (left, answer) = claim_select now row in
    elim answer [ none ↦ claim_insert now left | some won ↦ (left, won) ]

abbrev created : ℕ → Option ArticleQuotes → ℕ
created now none = now
created now (some q) = q.created_at

-- SetDone
unfoldable pub set_done : ℕ → List Quote → Text → Text → Option ArticleQuotes → ArticleQuotes
set_done now quotes tldr model row = record {
  quotes = quotes;
  tldr = tldr;
  status = done;
  extracted_at = some now;
  model = model;
  error = [];
  created_at = created now row;
  updated_at = now;
}

-- SetDoneFrozen: the path that the article gets, and its row.
unfoldable pub set_done_frozen :
    ℕ → Text → List Quote → Text → Text → Option ArticleQuotes → Text × ArticleQuotes
unfolding set_done
set_done_frozen now path quotes tldr model row = (path, set_done now quotes tldr model row)

-- setOutcome: an old row keeps its quotes and its summary.
unfoldable pub set_outcome :
    ℕ → QuotesStatus → Text → Text → Option ℕ → Option ArticleQuotes → ArticleQuotes
set_outcome now status model error extracted_at none = record {
  quotes = [];
  tldr = [];
  status = status;
  extracted_at = extracted_at;
  model = model;
  error = error;
  created_at = now;
  updated_at = now;
}
set_outcome now status model error extracted_at (some q) = record q {
  status = status;
  extracted_at = extracted_at;
  model = model;
  error = error;
  updated_at = now;
}

-- SetNoText
unfoldable pub set_no_text : ℕ → Text → Option ArticleQuotes → ArticleQuotes
unfolding set_outcome
set_no_text now model = set_outcome now no_text model [] (some now)

-- SetFailed
unfoldable pub set_failed : ℕ → Text → Text → Option ArticleQuotes → ArticleQuotes
unfolding set_outcome
set_failed now model error =
    set_outcome now failed model (if ltb 500 (length error) then take 500 error else error) none
