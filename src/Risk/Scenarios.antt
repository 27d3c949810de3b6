-- ===== src/Risk/Scenarios.antt =====
-- `runStressScenario`: the results against the positions, and the warnings.
use riskrail.Base.{
  ◌≡◌, refl, Bool, ◌&&◌, not, List, [], ◌∷◌, ◌++◌, arith, map, length, keep, ltb, if◌then◌else◌,
}
use riskrail.Numbers.{Numbers}
use riskrail.Position.{NormalizedPosition}
use riskrail.Risk.Score.{calculate_portfolio_risk, health_factor_of}
use riskrail.Risk.Stress.{
  StressScenario, newly_liquidatable, critical_band, liquidatable, is_critical, newly,
  stress_result, results, stress_position, run_stress_scenario,
}

module _ (num : Numbers) where
  results-eq-map :
      (f : NormalizedPosition → NormalizedPosition) (ps : List NormalizedPosition)
      → results num ps (map f ps) ≡ map (λ p. stress_result num p (f p)) ps
  unfolding results
  results-eq-map f [] = refl
  results-eq-map f (p ∷ ps) = rw (results-eq-map f ps)

  -- The results list each position once, in order, with its figures before and after the shocks.
  pub run_stress_scenario-positions :
      (ps : List NormalizedPosition) (scenario : StressScenario)
      → (run_stress_scenario num ps scenario).positions
        ≡ map (λ p. stress_result num p (stress_position num p scenario.shocks)) ps
  unfolding run_stress_scenario
  run_stress_scenario-positions ps scenario =
      results-eq-map (λ p. stress_position num p scenario.shocks) ps

  -- a position that the shocks bring to its liquidation threshold
  abbrev pub crosses : StressScenario → NormalizedPosition → Bool
  crosses scenario p =
      not (liquidatable (health_factor_of p))
      && liquidatable (health_factor_of (stress_position num p scenario.shocks))

  count-newly :
      (scenario : StressScenario) (ps : List NormalizedPosition)
      → length
          (keep newly (map (λ p. stress_result num p (stress_position num p scenario.shocks)) ps))
        ≡ length (keep (crosses scenario) ps)
  unfolding stress_result
  count-newly scenario [] = refl
  count-newly scenario (p ∷ ps) = ground (arith, count-newly scenario ps)

  -- The warnings are exactly: the number of positions that cross the liquidation threshold, if there
  -- is one, and then the critical band, if the portfolio moves into it.
  pub run_stress_scenario-warnings :
      (ps : List NormalizedPosition) (scenario : StressScenario)
      → let n = length (keep (crosses scenario) ps) in
        let before = calculate_portfolio_risk num ps in
        let after =
          calculate_portfolio_risk num (map (λ p. stress_position num p scenario.shocks) ps) in
        (run_stress_scenario num ps scenario).warnings
        ≡ (if ltb 0 n then newly_liquidatable n ∷ [] else [])
          ++ (if is_critical after.risk_level && not (is_critical before.risk_level)
              then critical_band ∷ []
              else [])
  unfolding run_stress_scenario
  run_stress_scenario-warnings ps scenario =
      rw (results-eq-map (λ p. stress_position num p scenario.shocks) ps, count-newly scenario ps)
