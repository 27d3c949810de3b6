-- ===== src/Stacks/Client.antt =====
-- packages/stacks/src/index.ts: `StacksClient` and the parsers beside it. What a request gives is an
-- argument; the schemas' checks belong to the answers.
pub mod Identifiers
pub mod Balances
use Prim.Native.Char.{Char, code}
use riskrail.Base.{
  ℕ, zero, suc, Bool, true, false, not, ◌&&◌, ◌||◌, String, Option, none, some, ◌>>=◌, List, [],
  ◌∷◌, ◌++◌, map, ◌==◌, or_default, is_some, if◌then◌else◌,
}
use riskrail.Base.Decimal.{of_decimal}
use riskrail.Base.Text.{to_lower, is_empty, includes, before, cut}
use riskrail.Base.Int.{ℤ, pos}
use riskrail.Value.{Value, number, str, Fields, get_field}

pub data Network : Type 0 where
  mainnet testnet devnet : Network

unfoldable pub infer_network : String → Network
unfolding to_lower
infer_network url =
    if includes "testnet" (to_lower url)
    then Network.testnet
    else if includes "localhost" (to_lower url) || includes "127.0.0.1" (to_lower url)
    then Network.devnet
    else Network.mainnet

-- the text after a first colon, if there is one
abbrev after_colon : String → Option String
after_colon String.[] = none
after_colon (String.◌∷◌ c s) = if code c == 58 then some s else none

-- a text at the last of its `::`
unfoldable pub split_last : String → Option (String × String)
split_last String.[] = none
split_last (String.◌∷◌ c s) =
    let later = split_last s in
    elim later [
      | some parts ↦ some (before c parts)
      | none ↦ if code c == 58 then (after_colon s >>= λ rest. some (String.[], rest)) else none
    ]

-- both parts have a character
abbrev pub both : String × String → Option (String × String)
both (a, b) = if is_empty a || is_empty b then none else some (a, b)

unfoldable pub parse_asset_identifier : String → Option (String × String)
unfolding split_last
parse_asset_identifier s = split_last s >>= both

unfoldable pub parse_contract_id : String → Option (String × String)
unfolding cut
parse_contract_id s = cut 46 s >>= both

-- What a request gave: the parsed body, a status other than success, or another failure, which
-- includes a body that the schema refuses.
pub data Answer {ℓ} (A : Type ℓ) : Type ℓ where
  answered_with : A → Answer A
  http_status : ℕ → Answer A
  broken : Answer A

pub record TokenMetadata : Type 0 where
  pub name : Option String
  pub symbol : Option String
  pub decimals : Option ℕ
  pub image_uri : Option String
  pub description : Option String

pub record FungibleTokenMetadata : Type 0 where
  pub asset_identifier : String
  pub contract_id : String
  pub token_name : String
  pub name : String
  pub symbol : String
  pub decimals : ℕ
  pub image_uri : Option String
  pub description : Option String
  pub exact : Bool

unfoldable pub is_sbtc : String → String → Bool
unfolding to_lower
is_sbtc token_name contract_id =
    includes "sbtc" (to_lower token_name) || includes "sbtc" (to_lower contract_id)

unfoldable pub fallback : String → String → String → Bool → FungibleTokenMetadata
fallback asset_identifier contract_id token_name sbtc = record {
  asset_identifier = asset_identifier;
  contract_id = contract_id;
  token_name = token_name;
  name = if sbtc then "sBTC" else token_name;
  symbol = if sbtc then "sBTC" else token_name;
  decimals = if sbtc then 8 else 0;
  image_uri = none;
  description = none;
  exact = sbtc;
}

-- the statuses that count as missing metadata
unfoldable pub is_missing : ℕ → Bool
is_missing status = status == 404 || (status == 422 || status == 503)

unfoldable pub described : String → String → String → Bool → TokenMetadata → FungibleTokenMetadata
described asset_identifier contract_id token_name sbtc body = record {
  asset_identifier = asset_identifier;
  contract_id = contract_id;
  token_name = token_name;
  name = or_default body.name token_name;
  symbol = or_default body.symbol token_name;
  decimals = or_default body.decimals (if sbtc then 8 else 0);
  image_uri = body.image_uri;
  description = body.description;
  exact = is_some body.decimals;
}

-- `none` where it throws
unfoldable pub metadata_from :
    String → String → String → Answer TokenMetadata → Option FungibleTokenMetadata
unfolding fallback is_missing described is_sbtc
metadata_from asset_identifier contract_id token_name (Answer.answered_with b) =
    some (described asset_identifier contract_id token_name (is_sbtc token_name contract_id) b)
metadata_from asset_identifier contract_id token_name (Answer.http_status n) =
    if is_missing n
    then some (fallback asset_identifier contract_id token_name (is_sbtc token_name contract_id))
    else none
metadata_from asset_identifier contract_id token_name Answer.broken =
    some (fallback asset_identifier contract_id token_name (is_sbtc token_name contract_id))

-- `getFungibleTokenMetadata`, from what the request for a contract gives
unfoldable pub get_fungible_token_metadata :
    (String → Answer TokenMetadata) → String → Option FungibleTokenMetadata
unfolding parse_asset_identifier metadata_from
get_fungible_token_metadata request asset_identifier =
    parse_asset_identifier asset_identifier >>= λ parts.
    metadata_from asset_identifier parts.0 parts.1 (request parts.0)

-- `getCurrentBlockHeight`, of the body's height: `none` is `NaN`
unfoldable pub block_height_of : Value → Option ℤ
unfolding of_decimal
block_height_of (number n) = some n
block_height_of (str s) = elim (of_decimal s) [ none ↦ none | some n ↦ some (pos n) ]
block_height_of _ = some (pos 0)
