-- ===== src/Service/Health/History.antt =====
-- The health of a source as a function of its history of runs.
use mathlib.Core.Logic.{inl, inr}
use cindex.Prelude.{ℕ, ◌≡◌, ◌<◌, ◌↔◌, ◌⊎◌, refl, false, none, some, [], ◌∷◌, arith, Text, codes}
use cindex.Repository.Sources.{run_columns, new_source, is_circuit_open}
use cindex.Repository.Sources.Breaker.{History, after_runs, successes, after_runs-counters}
use cindex.Service.Health.{health_of}

module _ (id : ℕ) (key name base_url : Text) where
  last_success-none_iff :
      (runs : History)
      → ((after_runs (new_source id key name base_url) runs).last_success_at ≡ none)
        ↔ (successes runs ≡ 0)
  unfolding after_runs new_source run_columns successes
  last_success-none_iff [] = (λ h. refl, λ h. refl)
  last_success-none_iff ((now, o) ∷ runs) =
      let rest = last_success-none_iff runs in
      (λ h. ground (arith, rest), λ h. ground (arith, rest))

  -- A source with a row is healthy exactly when its circuit is closed and it has succeeded once, or
  -- has never run.
  pub health_of-healthy_iff :
      (now : ℕ) (runs : History)
      → (health_of now (some (after_runs (new_source id key name base_url) runs)) ≡ codes "healthy")
        ↔ ((is_circuit_open now (after_runs (new_source id key name base_url) runs) ≡ false)
            × ((runs ≡ []) ⊎ (0 < successes runs)))
  unfolding health_of codes
  health_of-healthy_iff now [] = (
    λ h. (unfold after_runs new_source is_circuit_open in refl, inl refl),
    λ h. unfold after_runs new_source is_circuit_open in refl,
  )
  health_of-healthy_iff now (run ∷ runs) =
      let total = (after_runs-counters id key name base_url (run ∷ runs)).0 in
      let none_iff = last_success-none_iff (run ∷ runs) in
      (
        λ h. (ground arith, inr (ground (arith, total, none_iff))),
        λ h. ground (arith, total, none_iff),
      )
