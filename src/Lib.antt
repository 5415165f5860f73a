-- ===== src/Lib.antt =====
-- CIndex, a search engine for scholarly articles: its Go backend.
--
-- A request to search becomes a row of the table of search jobs and a task on a queue. A worker
-- takes the task: it counts what the corpus holds, decides whether to scan the sources anew,
-- scans them, ranks the articles, extracts quotes and stores the outcome, writing the job's progress
-- as it goes. Articles are filtered by eligibility, which rests on tiers of evidence.
--
-- Prelude: the names that the modules share. Prelude/Int has the signed integers.
-- Go: the functions of Go's library that pure code calls (strings, strconv, the UTF-8 lengths). A text
--   is the list of its code points; where the source counts bytes, Go/Unicode counts bytes. Go/Floats
--   has the division of float64s with its rounding; its 128 steps are enough below 2^64, as each step
--   doubles.
-- Domain: backend/internal/domain. Filters has SearchFilters of search.go with NormalizedSort,
--   IsDefault and Signature; SearchJob has the job, its stages and its hits; Article the article;
--   Eligibility has EvaluateEligibility and ApplyEligibility of eligibility.go; Citation has
--   RenderCitation of citation.go.
-- Repository: backend/internal/repository. SearchJobs has the statements of searchjobs.go as
--   functions on the list of rows, the newest first; Sources has those of sources.go, with the
--   circuit breaker; Quotes has the row of an article in the cache of quotes.go, and Quotes/Claims
--   the callers of Claim as sequences of their statements, and of the outcomes between them.
-- Connector: backend/internal/connector, and the record that connectors return. Errors, Profile and
--   Registry are profile.go and registry.go; Http, Retry, Transport and Browser are transport.go, with
--   its loop in Retry; Texts and Patterns are text.go, the regular expressions as scans; Xml, Oai and
--   Feed are oai.go; EuropePmc, OpenAlex, Crossref and Pubmed are the first connectors of
--   api_connectors.go, over the transport's answer.
-- Service: backend/internal/service. SourceStats has the events and counters of ingest.go. Ingest is
--   ingest_live.go: Ingest/Save is saveArticle, Ingest/Query IngestQuery and processSource; Health has
--   SourceHealth and SourceNames of that file. Enrichment is doi_enrichment.go: the cascade, and under it
--   the lookups, the parsers, the limiter of an API and Enrich itself (Enrichment/Service).
--   Translate is translate.go, with its cache in the order of use; ScholarlyText is text.go.
-- Jobs: backend/internal/jobs/searchjob.go. Rescan has determineRescan and applyJobUpdate, Callbacks
--   the two callbacks of a scan, Keys sortedKeys, Run the state of Work and its closures, Worker its
--   phases and Work itself.
-- Httpapi: backend/internal/httpapi/search_handlers.go. Validation has the checks of a request, Pages
--   pageParams and paginateHits over ints of 64 bits, CreateJob CreateSearchJob with its transaction.
--   Handlers has GetSearchJob and ReindexArticles. RateLimit is ratelimit.go.
-- Tests: runs on sample data.
--
-- The worker's calls of other services are fields of Run.Env: each may return an error, the
-- scan may call its callbacks in any order and number, and each write to the table may fail. The
-- clock is a function of the number of writes. The case table of package unicode is a parameter.
-- The ingestor calls the connectors, the local store and the tables of articles and journals through
-- Ingest.Calls; an answer of a table depends on the number of statements before it.
-- The transports stand on a client that answers each attempt, and on the codecs of Go's library; the
-- retry loop recurs on the attempts that are left. Redis is a parameter: for the limiter a store with its
-- commands and their laws, for the creation of a job the answers that other requests may change. The
-- transaction that creates a job either fails or stores the row and the task.
-- A confidence is counted in ten-thousandths. Go/Strconv.itoa recurs on fuel: n + 1 rounds are
-- enough for the digits of n, since each round divides by ten.
--
-- Not modelled: logging, the statistics of waiting times, the SQL of full-text search, the HTTP
-- plumbing, the other connectors to the sources, the language model, the configuration and the commands,
-- the browser service and the front end: they are input and output, or rest on formats of others.
mod Prelude
pub mod Go
pub mod Domain
pub mod Connector
pub mod Repository
pub mod Service
pub mod Httpapi
pub mod Jobs
pub mod Tests
