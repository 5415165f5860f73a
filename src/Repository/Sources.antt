-- ===== src/Repository/Sources.antt =====
-- backend/internal/repository/sources.go over the table articles_source: the rows and the next
-- number of their sequence. A time is a number of seconds. `isCircuitOpen` is that of
-- backend/internal/service/ingest_live.go.
pub mod Breaker
pub mod Keys
use cindex.Prelude.{
  ℕ, ◌+◌, Bool, true, false, not, Option, none, some, List, [], ◌∷◌, map, ltb, leb, ◌==◌,
  if◌then◌else◌, Text, text_eq,
}

pub record Source : Type 0 where
  pub id : ℕ
  pub key : Text
  pub name : Text
  pub base_url : Text
  pub is_enabled : Bool
  pub total_runs : ℕ
  pub total_successes : ℕ
  pub total_failures : ℕ
  pub consecutive_failures : ℕ
  pub last_checked_at : Option ℕ
  pub last_success_at : Option ℕ
  pub circuit_open_until : Option ℕ
  pub last_error : Text

pub record SourceRunOutcome : Type 0 where
  pub success : Bool
  pub error : Text

unfoldable pub bool_to_int : Bool → ℕ
bool_to_int true = 1
bool_to_int false = 0

-- INTERVAL '15 minutes'
abbrev pub quarter_hour : ℕ
quarter_hour = 900

-- The columns that RecordRun sets; the right sides read the old row.
unfoldable pub run_columns : ℕ → SourceRunOutcome → Source → Source
unfolding bool_to_int
run_columns now o s = record s {
  total_runs = s.total_runs + 1;
  total_successes = s.total_successes + bool_to_int o.success;
  total_failures = s.total_failures + bool_to_int (not o.success);
  consecutive_failures = if o.success then 0 else s.consecutive_failures + 1;
  last_checked_at = some now;
  last_success_at = if o.success then some now else s.last_success_at;
  circuit_open_until =
      if o.success
      then none
      else if leb 3 (s.consecutive_failures + 1)
      then some (now + quarter_hour)
      else s.circuit_open_until;
  last_error = o.error;
}

-- RecordRun
unfoldable pub record_run : ℕ → SourceRunOutcome → ℕ → List Source → List Source
unfolding run_columns
record_run id o now rows = map (λ s. if s.id == id then run_columns now o s else s) rows

-- isCircuitOpen
unfoldable pub is_circuit_open : ℕ → Source → Bool
is_circuit_open now s = elim s.circuit_open_until [ none ↦ false | some t ↦ ltb now t ]

-- GetByKey; `none` is ErrNotFound.
unfoldable pub get_by_key : Text → List Source → Option Source
get_by_key key [] = none
get_by_key key (s ∷ rows) =
    let rest = get_by_key key rows in if text_eq s.key key then some s else rest

-- A row with the defaults of the table.
unfoldable pub new_source : ℕ → Text → Text → Text → Source
new_source id key name base_url = record {
  id = id;
  key = key;
  name = name;
  base_url = base_url;
  is_enabled = true;
  total_runs = 0;
  total_successes = 0;
  total_failures = 0;
  consecutive_failures = 0;
  last_checked_at = none;
  last_success_at = none;
  circuit_open_until = none;
  last_error = [];
}

pub record SourceTable : Type 0 where
  pub rows : List Source
  pub next_id : ℕ

-- EnsureExists. An insert that meets a row takes a number of the sequence as well.
unfoldable pub ensure_exists : Text → Text → Text → SourceTable → ℕ × SourceTable
unfolding get_by_key new_source
ensure_exists key name base_url t = elim (get_by_key key t.rows) [
  | some s ↦ (s.id, record t { next_id = t.next_id + 1 })
  | none ↦ (
    t.next_id,
    record { rows = new_source t.next_id key name base_url ∷ t.rows; next_id = t.next_id + 1 },
  )
]
