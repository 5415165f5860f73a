-- ===== src/Repository/SearchJobs/Rows.antt =====
-- Which rows the statements change.
use mathlib.Core.Option
use cindex.Prelude.{◌≡◌, List, [], ◌∷◌, arith, if◌then◌else◌, Text, text_eq, text_eq_iff}
use cindex.Domain.SearchJob.{SearchJob}
use cindex.Repository.SearchJobs.{get_by_id, modify}

-- A statement on the row of one id, seen through the rows' ids.
pub get_by_id-modify :
    (id k : Text) (f : SearchJob → SearchJob) (rows : List SearchJob)
    → ((j : SearchJob) → (f j).id ≡ j.id)
    → get_by_id k (modify id f rows)
      ≡ (if text_eq k id then Option.map f (get_by_id k rows) else get_by_id k rows)
unfolding get_by_id modify
get_by_id-modify id k f [] keeps = ground arith
get_by_id-modify id k f (j ∷ rows) keeps = ground (
  arith,
  keeps j,
  text_eq_iff j.id id,
  text_eq_iff j.id k,
  text_eq_iff (f j).id k,
  text_eq_iff k id,
  get_by_id-modify id k f rows keeps,
)
