-- ===== src/Web/Policy.antt =====
-- apps/web/lib/policy.ts: the thresholds that the dashboard writes to the policy contract. They are
-- doubles, and the comparisons of doubles are an argument beside their arithmetic.
pub mod Written
use text.Mathlib.Text.{◌==◌}
use riskrail.Base.{
  ℕ, Bool, true, false, not, ◌||◌, String, Option, none, some, List, [], ◌∷◌, if◌then◌else◌,
}
use riskrail.Base.Int.{ℤ, pos}
use riskrail.Base.Text.{is_empty, join}
use riskrail.Adapters.Decode.{int_text}
use riskrail.Numbers.{Numbers}

pub record PolicyInput (num : Numbers) : Type 0 where
  pub max_risk_score : num.Double
  pub min_health_factor : num.Double
  pub max_protocol_concentration : num.Double
  pub min_liquidity_score : num.Double

-- `<` and `<=` of doubles
pub record Comparisons (num : Numbers) : Type 0 where
  pub less : num.Double → num.Double → Bool
  pub at_most : num.Double → num.Double → Bool

-- the messages of `validate`
pub data Problem : Type 0 where
  bad_risk_score bad_health_factor bad_concentration bad_liquidity : Problem

module _ (num : Numbers) where
  -- `Math.round(value * factor)`
  unfoldable pub scaled_by : ℕ → num.Double → ℤ
  scaled_by factor value = num.round (num.mul value (num.of_number (pos factor)))

  unfoldable pub to_contract_args : PolicyInput num → List String
  unfolding scaled_by
  to_contract_args input =
      join "u" (int_text (scaled_by 100 input.max_risk_score))
      ∷ join "u" (int_text (scaled_by 10000 input.min_health_factor))
      ∷ join "u" (int_text (scaled_by 100 input.max_protocol_concentration))
      ∷ join "u" (int_text (scaled_by 100 input.min_liquidity_score))
      ∷ []

  -- `value < 0 || value > 100`
  unfoldable pub out_of_range : Comparisons num → num.Double → Bool
  out_of_range c value =
      c.less value (num.of_number (pos 0)) || c.less (num.of_number (pos 100)) value

  unfoldable pub validate : Comparisons num → PolicyInput num → Option Problem
  unfolding out_of_range
  validate c input =
      if out_of_range c input.max_risk_score
      then some bad_risk_score
      else if c.at_most input.min_health_factor (num.of_number (pos 0))
          || c.less (num.of_number (pos 100)) input.min_health_factor
      then some bad_health_factor
      else if out_of_range c input.max_protocol_concentration
      then some bad_concentration
      else if out_of_range c input.min_liquidity_score
      then some bad_liquidity
      else none

-- the call that the wallet is asked for
pub record ContractCall : Type 0 where
  pub contract : String
  pub function_name : String
  pub function_args : List String
  pub network : String

pub data WriteResult : Type 0 where
  no_contract no_transaction threw : WriteResult
  refused : Problem → WriteResult
  written : (txid : String) → WriteResult

unfoldable pub network_of : (setting : Option String) → String
network_of none = "testnet"
network_of (some name) = if name == "mainnet" then "mainnet" else "testnet"

unfoldable pub explorer_tx_url : (setting : Option String) → String → String
unfolding network_of
explorer_tx_url setting txid =
    join "https://explorer.hiro.so/txid/" (join txid (join "?chain=" (network_of setting)))

-- what a wallet's answer gives: it throws, or it has a transaction or none
unfoldable pub result_of : Option (Option String) → WriteResult
result_of none = threw
result_of (some none) = no_transaction
result_of (some (some txid)) = if is_empty txid then no_transaction else written txid

-- `writeRiskPolicy`
unfoldable pub write_risk_policy :
    (num : Numbers)
    → Comparisons num
    → (contract network : Option String) → (request : ContractCall → Option (Option String))
    → PolicyInput num
    → WriteResult
unfolding to_contract_args validate network_of result_of
write_risk_policy num c contract network request input = elim contract [
  | none ↦ no_contract
  | some id ↦ if is_empty id then no_contract else elim (validate num c input) [
    | some problem ↦ refused problem
    | none ↦ result_of (
        request (record {
          contract = id;
          function_name = "set-risk-policy";
          function_args = to_contract_args num input;
          network = network_of network;
        }))
  ]
]
