-- ===== src/Tests/Creation.antt =====
-- Requests behind the limiter, and the creation of a search job.
use Prim.Native.Nat.{min}
use cindex.Prelude.{
  ℕ, suc, ◌-◌, ◌≡◌, ◌≢◌, refl, arith, true, false, none, some, List, [], ◌∷◌, Text, codes, text_eq,
  text_eq_refl, text_eq_iff, Bool-cases, inl, inr, if◌then◌else◌,
}
use cindex.Prelude.Int.{pos}
use cindex.Domain.SearchJob.{SearchJob}
use cindex.Go.Errors.{ok}
use cindex.Httpapi.RateLimit.{Redis, RateLimiter, key_of}
use cindex.Httpapi.RateLimit.Window.{Laws, requests, served_requests, served_requests-eq-min}
use cindex.Httpapi.CreateJob.{
  JobRequest, Database, TxCalls, Calls, Outcome, create_search_job, job_with,
}
use cindex.Httpapi.CreateJob.Answers.{Tasked, create_search_job-Tasked}

-- A store of counts, in which nothing expires.
abbrev counts : Redis
counts = record {
  Store = Text → ℕ;
  incr = λ k s. (suc (s k), λ j. if text_eq k j then suc (s j) else s j);
  expire = λ k t s. s;
  ttl = λ k s. pos 30;
}

text_eq-ne : (s t : Text) → s ≢ t → text_eq s t ≡ false
text_eq-ne s t h = elim (Bool-cases (text_eq s t)) [
  | inl e ↦ absurd (h ((text_eq_iff s t).0 e))
  | inr e ↦ e
]

counts-Laws : Laws counts
counts-Laws = record {
  count = λ k s. s k;
  incr_value = λ k s. refl;
  incr_same = λ k s. rw (text_eq_refl k) refl;
  incr_other = λ k j s h. rw (text_eq-ne k j h) refl;
  expire_count = λ k j t s h. refl;
}

abbrev limiter : RateLimiter
limiter = record { prefix = codes "search:rl"; limit = 2; window = 60 }

abbrev client : Text
client = codes "10.0.0.1"

abbrev clients : List Text
clients = client ∷ codes "10.0.0.2" ∷ client ∷ client ∷ []

abbrev empty_store : Text → ℕ
empty_store k = 0

served_requests-eq-min_example :
    served_requests counts limiter client clients empty_store
    ≡ min
        (2 - counts-Laws.count (key_of counts limiter client) empty_store)
        (requests client clients)
served_requests-eq-min_example =
    served_requests-eq-min counts limiter counts-Laws (omega arith) client clients empty_store

abbrev request : JobRequest
request = record {
  query = codes "ideals";
  expression = none;
  force_refresh = none;
  peer_reviewed_only = none;
  indexed_only = none;
  exclude_preprints = none;
  exclude_retracted = none;
  year_from = none;
  year_to = none;
  sort_by = some (codes "newest");
}

abbrev good_tx : TxCalls
good_tx = record {
  begin_error = none;
  create_error = none;
  insert_error = none;
  commit_error = none;
}

abbrev calls_at : ℕ → Text → Calls
calls_at now id = record {
  now = now;
  days = 7;
  find_error = none;
  lock_won = true;
  pending = [];
  parse_uuid = λ s. some s;
  first_id = id;
  second_id = codes "spare";
  tx = good_tx;
}

abbrev no_jobs : Database
no_jobs = record { jobs = []; tasks = [] }

abbrev digest : Text → Text
digest s = s

abbrev same_case : ℕ → ℕ
same_case c = c

no_jobs-Tasked : Tasked no_jobs
unfolding Tasked
no_jobs-Tasked = refl

abbrev created_once : Outcome
created_once = create_search_job digest same_case (calls_at 10 (codes "a")) (ok request) no_jobs

create_search_job-Tasked_example : Tasked created_once.db
create_search_job-Tasked_example =
    create_search_job-Tasked digest same_case (calls_at 10 (codes "a")) (ok request) no_jobs
      no_jobs-Tasked

abbrev first_job : SearchJob
first_job = job_with digest same_case (calls_at 10 (codes "a")) request no_jobs (codes "a")

abbrev created_again : Outcome
created_again =
    create_search_job digest same_case (calls_at 12 (codes "b")) (ok request) created_once.db
