-- ===== src/Oracle.antt =====
-- packages/oracle/src/index.ts: the two sources of prices. The service is an argument that answers
-- for a list of its identifiers, with the prices as the texts of their numbers; an answer that does
-- not fit the schema, or with an error status, is `none`. `now` is the text of the present time.
pub mod Quotes
mod Tests
use riskrail.Base.{
  ℕ, true, false, String, Option, none, some, ◌>>=◌, List, [], ◌∷◌, map, Dict, lookup, insert,
  if◌then◌else◌,
}
use riskrail.Base.Text.{to_lower, to_upper, includes, is_empty, distinct}
use riskrail.Numbers.{Numbers}
use riskrail.Indexer.{AssetRef}

pub record PriceQuote : Type 0 where
  pub asset_id : String
  pub symbol : String
  pub price_usd : String
  pub source : String
  pub observed_at : String

-- a text that counts as true in a condition
abbrev pub given : Option String → Option String
given none = none
given (some s) = if is_empty s then none else some s

abbrev pub default_coingecko_ids : Dict String
default_coingecko_ids =
    ("BTC", "bitcoin")
    ∷ ("SBTC", "bitcoin")
    ∷ ("STX", "blockstack")
    ∷ ("USDC", "usd-coin")
    ∷ ("USDCX", "usd-coin")
    ∷ []

-- `resolveId`
unfoldable pub resolve_id : Dict String → AssetRef → Option String
unfolding lookup to_upper to_lower
resolve_id id_map asset = elim (given (lookup (to_upper asset.symbol) id_map)) [
  | some id ↦ some id
  | none ↦ if includes "sbtc" (to_lower asset.asset_id) then some "bitcoin" else none
]

-- A loop over the assets that sets what one of them gives under its identifier, and passes over an
-- asset that gives nothing.
unfoldable pub collect {ℓ} : {V : Type ℓ} → (AssetRef → Option V) → List AssetRef → Dict V → Dict V
unfolding insert
collect f [] m = m
collect f (asset ∷ assets) m =
    collect f assets (elim (f asset) [ none ↦ m | some v ↦ insert asset.asset_id v m ])

-- `mapped`
unfoldable pub mapped_ids : Dict String → List AssetRef → Dict String
unfolding resolve_id collect
mapped_ids id_map assets = collect (resolve_id id_map) assets []

module _ (num : Numbers) where
  unfoldable pub quote : (price now : String) → AssetRef → PriceQuote
  quote price now asset = record {
    asset_id = asset.asset_id;
    symbol = asset.symbol;
    price_usd = num.to_fixed 8 (num.decimal price);
    source = "coingecko";
    observed_at = now;
  }

  -- the body of the second loop
  unfoldable pub quote_of :
      (mapped answer : Dict String) (now : String) → AssetRef → Option PriceQuote
  unfolding lookup quote
  quote_of mapped answer now asset = lookup asset.asset_id mapped >>= λ id.
      lookup id answer >>= λ price. some (quote price now asset)

  -- `CoinGeckoPriceOracle.getUsdPrices`: `none` where it throws
  unfoldable pub get_usd_prices :
      (List String → Option (Dict String))
      → (id_map : Dict String) (now : String) → List AssetRef
      → Option (Dict PriceQuote)
  unfolding mapped_ids distinct quote_of collect
  get_usd_prices simple_price id_map now assets =
      let mapped = mapped_ids id_map assets in
      let ids = distinct (map (λ (e : String × String). e.1) mapped) in
      elim ids [
        | [] ↦ some []
        | i ∷ is ↦ simple_price (i ∷ is) >>= λ answer.
            some (collect (quote_of mapped answer now) assets [])
      ]

  -- the body of the loop of `StaticPriceOracle`
  unfoldable pub static_quote : (prices : Dict String) (now : String) → AssetRef → Option PriceQuote
  unfolding lookup to_upper
  static_quote prices now asset =
      given (elim (lookup asset.asset_id prices) [
        | some value ↦ some value
        | none ↦ lookup (to_upper asset.symbol) prices
      ])
      >>= λ value. some (record {
        asset_id = asset.asset_id;
        symbol = asset.symbol;
        price_usd = num.to_string (num.decimal value);
        source = "static";
        observed_at = now;
      })

  -- `StaticPriceOracle.getUsdPrices`
  unfoldable pub static_prices :
      (prices : Dict String) (now : String) → List AssetRef → Dict PriceQuote
  unfolding static_quote collect
  static_prices prices now assets = collect (static_quote prices now) assets []
