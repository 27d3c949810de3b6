-- ===== src/Indexer/Tests.antt =====
-- A run of the indexer on a concrete wallet.
use riskrail.Base.{true, none, some, [], ◌∷◌}
use riskrail.Samples.{wallet_position, half}
use riskrail.Indexer.{Surroundings}

abbrev around : Surroundings
around = record {
  is_principal = λ address. true;
  block_height = some 9;
  adapters =
      (λ address block. some (wallet_position ∷ [])) ∷ (λ address block. some (half ∷ [])) ∷ [];
  usd_prices = λ assets. none;
  persists = true;
  publishes = true;
  targets = "e1" ∷ [];
  enqueues = true;
  marks = true;
}
