-- ===== src/Service/Health.antt =====
-- `SourceHealth` and `SourceNames` of backend/internal/service/ingest_live.go.
pub mod History
use cindex.Prelude.{
  ℕ, Bool, true, false, ◌&&◌, Option, none, some, List, [], ◌∷◌, ltb, if◌then◌else◌, Text, codes,
  is_empty,
}
use cindex.Go.Errors.{Result, ok, err}
use cindex.Repository.Sources.{Source, is_circuit_open}

abbrev never_succeeded : Option ℕ → Bool
never_succeeded none = true
never_succeeded (some t) = false

-- The status of one key; `none` is a key without a row.
unfoldable pub health_of : ℕ → Option Source → Text
health_of now none = codes "never_queried"
health_of now (some s) =
    if is_circuit_open now s
    then codes "circuit_open"
    else if never_succeeded s.last_success_at && ltb 0 s.total_runs
    then codes "never_succeeded"
    else codes "healthy"

abbrev add_health : Text → Text → Result (List (Text × Text)) → Result (List (Text × Text))
add_health key status (ok health) = ok ((key, status) ∷ health)
add_health key status (err e) = err e

-- The map of a key whose row has been asked for.
abbrev health_step :
    ℕ → Text → Result (Option Source) → Result (List (Text × Text)) → Result (List (Text × Text))
health_step now key (err e) rest = err e
health_step now key (ok row) rest = add_health key (health_of now row) rest

-- SourceHealth over the keys of the registry; `get` is GetByKey.
unfoldable pub source_health :
    ℕ → (Text → Result (Option Source)) → List Text → Result (List (Text × Text))
unfolding health_of
source_health now get [] = ok []
source_health now get (key ∷ keys) = health_step now key (get key) (source_health now get keys)

abbrev name_step :
    Text → Result (Option Source) → Result (List (Text × Text)) → Result (List (Text × Text))
name_step key (err e) rest = err e
name_step key (ok none) rest = rest
name_step key (ok (some s)) rest = if is_empty s.name then rest else add_health key s.name rest

-- SourceNames
unfoldable pub source_names :
    (Text → Result (Option Source)) → List Text → Result (List (Text × Text))
source_names get [] = ok []
source_names get (key ∷ keys) = name_step key (get key) (source_names get keys)
