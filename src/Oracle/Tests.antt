-- ===== src/Oracle/Tests.antt =====
-- Prices for two assets.
use riskrail.Base.{◌≡◌, refl, Option, some, ◌>>=◌, List, [], ◌∷◌, String, Dict, lookup}
use riskrail.Numbers.Scaled.{scaled}
use riskrail.Indexer.{AssetRef}
use riskrail.Oracle.{default_coingecko_ids, resolve_id, mapped_ids, get_usd_prices}
use riskrail.Oracle.Quotes.{
  here, there, asked, are_distinct, single_quote, get_usd_prices-single_quote,
}

abbrev stacks_token : AssetRef
stacks_token = record { asset_id = "STX"; symbol = "stx" }

abbrev bitcoin_token : AssetRef
bitcoin_token = record { asset_id = "SM3.sbtc-token::sbtc-token"; symbol = "BTCZ" }

abbrev service : List String → Option (Dict String)
service ids = some (("blockstack", "2") ∷ ("bitcoin", "3") ∷ [])

known_by_identifier : resolve_id default_coingecko_ids bitcoin_token ≡ some "bitcoin"
unfolding resolve_id
known_by_identifier = refl

both_asked :
    asked (mapped_ids default_coingecko_ids (stacks_token ∷ bitcoin_token ∷ []))
    ≡ "blockstack" ∷ "bitcoin" ∷ []
unfolding mapped_ids asked
both_asked = refl

get_usd_prices-single_quote_example :
    (get_usd_prices scaled service default_coingecko_ids "noon" (stacks_token ∷ bitcoin_token ∷ [])
      >>= λ quotes. lookup "SM3.sbtc-token::sbtc-token" quotes)
    ≡ single_quote scaled service default_coingecko_ids "noon"
        (resolve_id default_coingecko_ids bitcoin_token)
        (asked (mapped_ids default_coingecko_ids (stacks_token ∷ bitcoin_token ∷ [])))
        bitcoin_token
unfolding are_distinct
get_usd_prices-single_quote_example =
    get_usd_prices-single_quote scaled service default_coingecko_ids "noon"
      (there stacks_token (bitcoin_token ∷ []) (here [])) refl
