-- ===== src/Storage/Tests.antt =====
-- Runs of the storing of a portfolio: a wallet that holds one position and held another.
use riskrail.Base.{◌≡◌, refl, true, false, List, [], ◌∷◌}
use riskrail.Base.Int.{pos}
use riskrail.Samples.{wallet_position, half}
use riskrail.Position.{NormalizedPosition}
use riskrail.Portfolio.{Portfolio}
use riskrail.Storage.{Database, persist_portfolio}
use riskrail.Storage.Current.{is_current, persist_portfolio-current}

abbrev holding : List NormalizedPosition → Portfolio
holding positions = record {
  owner = "SP1";
  positions = positions;
  total_value_usd = "0";
  by_protocol = [];
  by_asset = [];
  valuation_coverage_bps = pos 0;
}

abbrev empty : Database
empty = record {
  wallets = [];
  runs = [];
  positions = [];
  assets = [];
  snapshots = [];
  protocols = [];
  portfolios = [];
}

unfoldable before : Database
unfolding persist_portfolio
before = persist_portfolio (holding (half ∷ [])) 5 "run" "noon" empty

persist_portfolio-current_example :
    is_current "SP1" "zest"
      (persist_portfolio (holding (wallet_position ∷ [])) 6 "next" "one" before).positions
    ≡ false
persist_portfolio-current_example =
    persist_portfolio-current (holding (wallet_position ∷ [])) 6 "next" "one" "zest" before

closes_zest : is_current "SP1" "zest" before.positions ≡ true
unfolding before
closes_zest = refl
