-- ===== src/Repository/Sources/Keys.antt =====
-- EnsureExists gives each key one row.
use cindex.Prelude.{
  ℕ, ◌≡◌, ◌≢◌, refl, ◌∙◌, some, List, ◌∷◌, arith, Text, text_eq_iff, text_eq_refl, Option-cases,
  inl, inr,
}
use cindex.Repository.Sources.{Source, SourceTable, get_by_key, ensure_exists, new_source}

-- The row that a key has after EnsureExists.
pub record Ensured (key : Text) (id : ℕ) (rows : List Source) : Type 0 where
  pub row : Source
  pub found : get_by_key key rows ≡ some row
  pub number : row.id ≡ id

get_by_key-first : (s : Source) (rows : List Source) → get_by_key s.key (s ∷ rows) ≡ some s
unfolding get_by_key
get_by_key-first s rows = rw (text_eq_refl s.key) refl

again :
    (key name base_url : Text) (t : SourceTable) (s : Source)
    → get_by_key key t.rows ≡ some s
    → ((ensure_exists key name base_url t).0 ≡ s.id)
      × ((ensure_exists key name base_url t).1.rows ≡ t.rows)
unfolding ensure_exists
again key name base_url t s e = rw (e, ensure_exists) (refl, refl)

first :
    (key name base_url : Text) (t : SourceTable)
    → Ensured key (ensure_exists key name base_url t).0 (ensure_exists key name base_url t).1.rows
      × ((other : Text)
          → other ≢ key
          → get_by_key other (ensure_exists key name base_url t).1.rows ≡ get_by_key other t.rows)
unfolding ensure_exists get_by_key
first key name base_url t = elim (Option-cases (get_by_key key t.rows)) [
  | inl absent ↦
      rw (absent, ensure_exists)
        (
          record {
            row = new_source t.next_id key name base_url;
            found = unfold new_source in get_by_key-first _ t.rows;
            number = unfold new_source in refl;
          },
          λ other ne. unfold get_by_key new_source in ground (arith, text_eq_iff key other),
        )
  | inr (s, present) ↦
      rw (present, ensure_exists)
        (record { row = s; found = present; number = refl }, λ other ne. refl)
]

-- EnsureExists returns the number of the key's row, which is there afterwards; it changes the row
-- of no other key; and a second call returns the same number and changes no row.
pub ensure_exists_lem :
    (key name base_url : Text) (t : SourceTable)
    → Ensured key (ensure_exists key name base_url t).0 (ensure_exists key name base_url t).1.rows
      × ((other : Text)
          → other ≢ key
          → get_by_key other (ensure_exists key name base_url t).1.rows ≡ get_by_key other t.rows)
      × ((ensure_exists key name base_url (ensure_exists key name base_url t).1).0
          ≡ (ensure_exists key name base_url t).0)
      × ((ensure_exists key name base_url (ensure_exists key name base_url t).1).1.rows
          ≡ (ensure_exists key name base_url t).1.rows)
ensure_exists_lem key name base_url t =
    let (ensured, others) = first key name base_url t in
    let (same, unchanged) =
      again key name base_url (ensure_exists key name base_url t).1 ensured.row ensured.found in
    (ensured, others, same ∙ ensured.number, unchanged)
