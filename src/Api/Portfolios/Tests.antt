-- ===== src/Api/Portfolios/Tests.antt =====
-- The portfolio of a wallet that stores one position and had another.
use riskrail.Base.{◌≡◌, refl, true, none, [], ◌∷◌}
use riskrail.Base.Sort.{code_order}
use riskrail.Base.Int.{pos}
use riskrail.Samples.{wallet_position, half}
use riskrail.Portfolio.{Portfolio}
use riskrail.Storage.{Database, persist_portfolio, position_ids}
use riskrail.Storage.Current.{member}
use riskrail.Storage.Queries.{get_current_portfolio}
use riskrail.Api.Portfolios.{get_portfolio}
use riskrail.Api.Portfolios.Listed.{is_found, lists, get_portfolio-persist_portfolio}

abbrev wallet : Portfolio
wallet = record {
  owner = "SP1";
  positions = wallet_position ∷ half ∷ [];
  total_value_usd = "0";
  by_protocol = [];
  by_asset = [];
  valuation_coverage_bps = pos 0;
}

abbrev nothing_stored : Database
nothing_stored = record {
  wallets = [];
  runs = [];
  positions = [];
  assets = [];
  snapshots = [];
  protocols = [];
  portfolios = [];
}

get_portfolio-persist_portfolio_example :
    let answer =
      get_portfolio
        (λ a. true)
        "SP1"
        (get_current_portfolio code_order "SP1"
          (persist_portfolio wallet 5 "run" "noon" nothing_stored))
        none in
    (is_found answer ≡ true) × (lists "zest" answer ≡ member "zest" (position_ids wallet.positions))
get_portfolio-persist_portfolio_example =
    get_portfolio-persist_portfolio code_order (λ a. true) wallet 5 "run" "noon" "zest" none
      nothing_stored refl
