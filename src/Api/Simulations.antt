-- ===== src/Api/Simulations.antt =====
-- apps/api/src/modules/simulations/simulations.service.ts. The rows of a wallet and the test of a
-- principal are arguments.
use riskrail.Base.{
  Bool, true, not, ◌&&◌, String, Option, none, some, List, [], ◌∷◌, map, any, or_default,
  if◌then◌else◌,
}
use riskrail.Base.Text.{is_empty}
use riskrail.Base.Decimal.{to_decimal}
use riskrail.Base.Int.{ℤ, pos}
use riskrail.Numbers.{Numbers}
use riskrail.Position.{NormalizedPosition}
use riskrail.Risk.Stress.{
  PriceShock, StressScenario, StressScenarioResult, default_stress_scenarios, run_stress_scenario,
}
use riskrail.Storage.{PortfolioSnapshot}
use riskrail.Storage.Queries.{IncludedPosition, CurrentPortfolio}

pub record RunSimulation : Type 0 where
  pub address : String
  pub name : Option String
  pub shocks : List PriceShock

pub record Simulation : Type 0 where
  pub address : String
  pub source_block : Option String
  pub valuation_coverage_bps : ℤ
  pub result : StressScenarioResult

pub data SimulationAnswer : Type 0 where
  bad_address unnamed_shock not_indexed no_positions : SimulationAnswer
  simulated : Simulation → SimulationAnswer

-- `!text`
abbrev pub is_blank : Option String → Bool
is_blank none = true
is_blank (some s) = is_empty s

abbrev pub is_unnamed : PriceShock → Bool
is_unnamed shock = is_blank shock.asset_id && is_blank shock.symbol

abbrev pub raw_positions : CurrentPortfolio → List NormalizedPosition
raw_positions current = map (λ (p : IncludedPosition). p.row.raw) current.positions

abbrev pub presets : List StressScenario
presets = default_stress_scenarios

abbrev pub scenario_of : RunSimulation → StressScenario
scenario_of input = record {
  id = none;
  name = some (or_default input.name "Custom scenario");
  shocks = input.shocks;
}

-- the block and the coverage of the latest snapshot
unfoldable pub block_text : Option PortfolioSnapshot → Option String
unfolding to_decimal
block_text none = none
block_text (some s) = some (to_decimal s.block_height)

unfoldable pub coverage_of : Option PortfolioSnapshot → ℤ
coverage_of none = pos 0
coverage_of (some s) = s.portfolio.valuation_coverage_bps

unfoldable pub simulate :
    Numbers → RunSimulation → CurrentPortfolio → List NormalizedPosition → SimulationAnswer
unfolding block_text coverage_of
simulate num input current [] = no_positions
simulate num input current (p ∷ ps) = simulated (record {
  address = input.address;
  source_block = block_text current.snapshot;
  valuation_coverage_bps = coverage_of current.snapshot;
  result = run_stress_scenario num (p ∷ ps) (scenario_of input);
})

-- `run`
unfoldable pub run_simulation :
    Numbers
    → (is_principal : String → Bool) → RunSimulation
    → Option CurrentPortfolio
    → SimulationAnswer
unfolding simulate
run_simulation num is_principal input wallet =
    if not (is_principal input.address)
    then bad_address
    else if any is_unnamed input.shocks
    then unnamed_shock
    else elim wallet [
      | none ↦ not_indexed
      | some current ↦ simulate num input current (raw_positions current)
    ]
