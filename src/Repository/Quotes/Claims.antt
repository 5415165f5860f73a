-- ===== src/Repository/Quotes/Claims.antt =====
-- Who wins the claims of one article, in any order of the callers' statements.
use cindex.Prelude.{
  ℕ, ◌+◌, ◌≡◌, ◌≤◌, ◌<◌, ◌↔◌, ◌⊎◌, refl, Bool, true, false, Option, none, some, List, [], ◌∷◌,
  arith, All, Bool-cases, inl, inr, Text,
}
use cindex.Domain.SearchJob.{Quote}
use cindex.Repository.Quotes.{
  ArticleQuotes, pending, failed, no_text, is_stale, claimable, claim_row, new_claim, claim_select,
  claim_insert, claim, set_done, set_failed, set_no_text, done,
}

-- A statement of some caller of Claim at a time.
pub data Statement : Type 0 where
  select insert : ℕ → Statement

abbrev pub time : Statement → ℕ
time (select t) = t
time (insert t) = t

abbrev pub won : Option Bool → ℕ
won none = 0
won (some false) = 0
won (some true) = 1

-- The row behind a statement, and 1 where its caller wins.
unfoldable pub run : Statement → Option ArticleQuotes → Option ArticleQuotes × ℕ
run (select t) row = let (left, answer) = claim_select t row in (left, won answer)
run (insert t) row = let (left, answer) = claim_insert t row in (left, won (some answer))

-- The row behind the statements, the first one first, and the number of callers that win.
unfoldable pub run_all : List Statement → Option ArticleQuotes → Option ArticleQuotes × ℕ
run_all [] row = (row, 0)
run_all (s ∷ ss) row = let (left, w) = run s row in let (end, ws) = run_all ss left in (end, w + ws)

-- A statement of a claim, or a worker's outcome at a time.
pub data Event : Type 0 where
  claims : Statement → Event
  fails : ℕ → Text → Text → Event
  no_texts : ℕ → Text → Event
  finishes : ℕ → List Quote → Text → Text → Event

abbrev pub event_time : Event → ℕ
event_time (claims s) = time s
event_time (fails t _ _) = t
event_time (no_texts t _) = t
event_time (finishes t _ _ _) = t

-- SetFailed and SetNoText give the article back.
abbrev pub released : Event → ℕ
released (fails _ _ _) = 1
released (no_texts _ _) = 1
released _ = 0

abbrev pub releases : List Event → ℕ
releases [] = 0
releases (e ∷ es) = released e + releases es

unfoldable pub happen : Event → Option ArticleQuotes → Option ArticleQuotes × ℕ
unfolding run
happen (claims s) row = run s row
happen (fails t model error) row = (some (set_failed t model error row), 0)
happen (no_texts t model) row = (some (set_no_text t model row), 0)
happen (finishes t quotes tldr model) row = (some (set_done t quotes tldr model row), 0)

-- The row behind the events, the first one first, and the number of callers that win.
unfoldable pub happen_all : List Event → Option ArticleQuotes → Option ArticleQuotes × ℕ
unfolding happen
happen_all [] row = (row, 0)
happen_all (e ∷ es) row =
    let (left, w) = happen e row in let (end, ws) = happen_all es left in (end, w + ws)

module _ (start : ℕ) where
  -- No claim within fifteen minutes takes the row.
  abbrev Held : Option ArticleQuotes → Type 0
  Held none = ⊥
  Held (some q) = (t : ℕ) → t ≤ start + 900 → claimable t q ≡ false

  abbrev In : Event → Type 0
  In e = (start ≤ event_time e) × (event_time e ≤ start + 900)

  Held-run :
      (s : Statement) (row : Option ArticleQuotes)
      → time s ≤ start + 900
      → Held row
      → ((run s row).1 ≡ 0) × Held (run s row).0
  unfolding run claim_select claim_insert claim_row
  Held-run (select t) none h k = absurd k
  Held-run (insert t) none h k = absurd k
  Held-run (select t) (some q) h k = rw (k t h) (refl, k)
  Held-run (insert t) (some q) h k = (refl, k)

  pending-Held : (q : ArticleQuotes) → q.status ≡ pending → start ≤ q.updated_at → Held (some q)
  unfolding claimable is_stale
  pending-Held q p h t k = ground (arith, p)

  done-Held : (q : ArticleQuotes) → q.status ≡ done → Held (some q)
  unfolding claimable is_stale
  done-Held q p t k = ground (arith, p)

  -- A statement wins no row, or one that it holds from then on.
  run-Held :
      (s : Statement) (row : Option ArticleQuotes)
      → start ≤ time s
      → ((run s row).1 ≡ 0) ⊎ (((run s row).1 ≡ 1) × Held (run s row).0)
  unfolding run claim_select claim_insert claim_row new_claim
  run-Held (select t) none h = inl refl
  run-Held (insert t) none h = inr (refl, pending-Held (new_claim t) refl h)
  run-Held (insert t) (some q) h = inl refl
  run-Held (select t) (some q) h = elim (Bool-cases (claimable t q)) [
    | inl free ↦ rw free (
        inr (
          refl,
          pending-Held
              (record q { status = pending; error = []; extracted_at = none; updated_at = t }) refl
              h,
        ))
    | inr shut ↦ rw shut (inl refl)
  ]

  -- The callers that win, from any row and from one that is held.
  won_le :
      (es : List Event) (row : Option ArticleQuotes)
      → All In es
      → ((happen_all es row).1 ≤ 1 + releases es) × (Held row → (happen_all es row).1 ≤ releases es)
  unfolding happen_all happen set_done
  won_le [] row h = (omega arith, λ k. omega arith)
  won_le (claims s ∷ es) row (h, hs) =
      let rest = won_le es (run s row).0 hs in
      (
        elim (run-Held s row h.0) [
          | inl lost ↦ omega (arith, lost, rest.0)
          | inr (win, held) ↦ omega (arith, win, rest.1 held)
        ],
        λ k. let (none_won, held) = Held-run s row h.1 k in omega (arith, none_won, rest.1 held),
      )
  won_le (fails t model error ∷ es) row (h, hs) =
      let rest = won_le es (some (set_failed t model error row)) hs in
      (omega (arith, rest.0), λ k. omega (arith, rest.0))
  won_le (no_texts t model ∷ es) row (h, hs) =
      let rest = won_le es (some (set_no_text t model row)) hs in
      (omega (arith, rest.0), λ k. omega (arith, rest.0))
  won_le (finishes t quotes tldr model ∷ es) row (h, hs) =
      let rest = won_le es (some (set_done t quotes tldr model row)) hs in
      let held = done-Held (set_done t quotes tldr model row) refl in
      (omega (arith, rest.0), λ k. omega (arith, rest.1 held))

  -- Let claims and outcomes of an article run within fifteen minutes, in any order of their
  -- statements and on any row. At most one caller wins, and one more for each SetFailed and
  -- SetNoText among them.
  pub happen_all-won_le :
      (es : List Event) (row : Option ArticleQuotes)
      → All (λ e. (start ≤ event_time e) × (event_time e ≤ start + 900)) es
      → (happen_all es row).1 ≤ 1 + releases es
  happen_all-won_le es row h = (won_le es row h).0

-- The statements of claims, in any order and at any times, leave a finished extraction as it is,
-- and no caller wins.
pub run_all-done :
    (ss : List Statement) (now : ℕ) (quotes : List Quote) (tldr model : Text)
    (before : Option ArticleQuotes)
    → run_all ss (some (set_done now quotes tldr model before))
      ≡ (some (set_done now quotes tldr model before), 0)
unfolding run_all run claim_select claim_insert claim_row claimable is_stale set_done
run_all-done [] now quotes tldr model before = refl
run_all-done (select t ∷ ss) now quotes tldr model before =
    rw (run_all-done ss now quotes tldr model before) refl
run_all-done (insert t ∷ ss) now quotes tldr model before =
    rw (run_all-done ss now quotes tldr model before) refl

-- An uninterrupted claim wins an article without a row; it wins a row exactly where the extraction
-- failed, found no text, or was claimed more than fifteen minutes ago; and the row keeps its quotes.
pub claim_iff :
    (now : ℕ) (q : ArticleQuotes)
    → (claim now none ≡ (some (new_claim now), true))
      × (((claim now (some q)).1 ≡ true) ↔ (
          (q.status ≡ failed)
          ⊎ (q.status ≡ no_text)
          ⊎ ((q.status ≡ pending) × (q.updated_at + 900 < now))))
      × ((claim now (some q)).0 ≡ some (claim_row now q).0)
      × ((claim_row now q).0.quotes ≡ q.quotes)
unfolding claim claim_select claim_insert claim_row claimable is_stale
claim_iff now q = (refl, (λ h. ground arith, λ h. ground arith), refl, ground arith)
