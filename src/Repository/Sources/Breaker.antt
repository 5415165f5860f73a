-- ===== src/Repository/Sources/Breaker.antt =====
-- The circuit breaker as a function of a source's history of runs.
use cindex.Prelude.{
  ℕ, ◌+◌, ◌≡◌, ◌<◌, ◌≤◌, ◌↔◌, refl, true, Option, none, some, List, [], ◌∷◌, arith, Text, length,
  leb, if◌then◌else◌,
}
use cindex.Repository.Sources.{
  Source, SourceRunOutcome, run_columns, new_source, is_circuit_open, bool_to_int,
}

-- The runs with their times, the newest first.
abbrev pub History : Type 0
History = List (ℕ × SourceRunOutcome)

-- The row after the runs.
unfoldable pub after_runs : Source → History → Source
after_runs s [] = s
after_runs s ((now, o) ∷ runs) = run_columns now o (after_runs s runs)

-- The failures since the newest success.
unfoldable pub streak : History → ℕ
streak [] = 0
streak ((now, o) ∷ runs) = let before = streak runs in if o.success then 0 else before + 1

unfoldable pub successes : History → ℕ
successes [] = 0
successes ((now, o) ∷ runs) =
    let before = successes runs in if o.success then before + 1 else before

-- The end of the pause that the newest run calls for.
unfoldable pub pause_end : History → Option ℕ
pause_end [] = none
pause_end ((now, o) ∷ runs) = if leb 3 (streak ((now, o) ∷ runs)) then some (now + 900) else none

record Counted (s : Source) (runs : History) : Type 0 where
  total : s.total_runs ≡ length runs
  good : s.total_successes ≡ successes runs
  bad : s.total_failures + successes runs ≡ length runs
  consecutive : s.consecutive_failures ≡ streak runs
  pause : s.circuit_open_until ≡ pause_end runs

pause_end-short : (runs : History) → streak runs < 3 → pause_end runs ≡ none
unfolding pause_end streak
pause_end-short [] h = refl
pause_end-short ((now, o) ∷ runs) h = ground arith

step-Counted :
    (s : Source) (runs : History) (now : ℕ) (o : SourceRunOutcome)
    → Counted s runs
    → Counted (run_columns now o s) ((now, o) ∷ runs)
unfolding run_columns bool_to_int streak successes pause_end
step-Counted s runs now o h = record {
  total = ground (arith, h.total);
  good = ground (arith, h.good);
  bad = ground (arith, h.bad);
  consecutive = ground (arith, h.consecutive);
  pause = ground (arith, h.consecutive, h.pause, pause_end-short runs);
}

module _ (id : ℕ) (key name base_url : Text) where
  after_runs-Counted :
      (runs : History) → Counted (after_runs (new_source id key name base_url) runs) runs
  unfolding after_runs new_source streak successes pause_end
  after_runs-Counted [] = record {
    total = refl;
    good = refl;
    bad = refl;
    consecutive = refl;
    pause = refl;
  }
  after_runs-Counted ((now, o) ∷ runs) = step-Counted _ runs now o (after_runs-Counted runs)

  -- After any history of runs of a new source, its circuit is open exactly when the last run and
  -- the two before it failed and less than fifteen minutes have passed since the last run.
  pub is_circuit_open_iff :
      (runs : History) (last : ℕ) (o : SourceRunOutcome) (now : ℕ)
      → (is_circuit_open now (after_runs (new_source id key name base_url) ((last, o) ∷ runs))
          ≡ true)
        ↔ ((3 ≤ streak ((last, o) ∷ runs)) × (now < last + 900))
  unfolding is_circuit_open pause_end
  is_circuit_open_iff runs last o now =
      let h = after_runs-Counted ((last, o) ∷ runs) in
      (λ e. ground (arith, h.pause), λ e. ground (arith, h.pause))

  -- The counters of a source add up over any history: its runs are its successes and its failures,
  -- and the consecutive failures are those since the newest success.
  pub after_runs-counters :
      (runs : History)
      → ((after_runs (new_source id key name base_url) runs).total_runs ≡ length runs)
        × ((after_runs (new_source id key name base_url) runs).total_successes ≡ successes runs)
        × ((after_runs (new_source id key name base_url) runs).total_successes
              + (after_runs (new_source id key name base_url) runs).total_failures
            ≡ length runs)
        × ((after_runs (new_source id key name base_url) runs).consecutive_failures ≡ streak runs)
  after_runs-counters runs =
      let h = after_runs-Counted runs in
      (h.total, h.good, omega (arith, h.good, h.bad), h.consecutive)
