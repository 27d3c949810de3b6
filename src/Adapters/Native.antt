-- ===== src/Adapters/Native.antt =====
-- packages/adapter-native-stacks/src/index.ts. The answers of the client of Stacks/Client are
-- arguments; a thrown error is `none`.
use Prim.Native.String.{◌++◌ as append}
use riskrail.Base.{
  ℕ, ◌≡◌, sym, ◌∙◌, Bool, false, String, Option, none, some, ◌>>=◌, List, [], ◌∷◌, map, keep, all,
  ltb, traverse, bind-cases, some_injective, if◌then◌else◌,
}
use riskrail.Base.Decimal.{of_decimal}
use riskrail.Base.Int.{pos}
use riskrail.Value.{Fields, end, field, bool, str, object}
use riskrail.Position.{NormalizedPosition, PositionAsset, PositionType, ProtocolMetadata, Role}
use riskrail.Stacks.Client.{FungibleTokenMetadata}
use riskrail.Stacks.Client.Balances.{AddressBalances, FungibleTokenBalance, StxBalance}
use riskrail.Adapters.Decode.{AdapterContext}

abbrev pub metadata : ProtocolMetadata
metadata = record {
  id = "native-stacks";
  name = "Stacks Wallet";
  protocol_type = "wallet";
  website = none;
  contracts = [];
}

abbrev pub wallet_asset : String → String → String → ℕ → PositionAsset
wallet_asset id symbol amount decimals = record {
  asset_id = id;
  symbol = symbol;
  amount_atomic = amount;
  decimals = decimals;
  value_usd = none;
  role = Role.asset;
  protocol_asset_id = none;
}

abbrev token_asset : FungibleTokenBalance × FungibleTokenMetadata → PositionAsset
token_asset (token, metadata) =
    wallet_asset token.asset_identifier metadata.symbol token.balance metadata.decimals

-- `assets.filter((asset) => BigInt(asset.amountAtomic) > 0n)`
unfoldable pub positive_assets : List PositionAsset → Option (List PositionAsset)
unfolding of_decimal
positive_assets [] = some []
positive_assets (x ∷ xs) = of_decimal x.amount_atomic >>= λ n.
    positive_assets xs >>= λ rest. some (if ltb 0 n then x ∷ rest else rest)

abbrev described :
    (String → Option FungibleTokenMetadata)
    → FungibleTokenBalance
    → Option (FungibleTokenBalance × FungibleTokenMetadata)
described metadata_of token = metadata_of token.asset_identifier >>= λ m. some (token, m)

unfoldable pub all_assets :
    AddressBalances → List (FungibleTokenBalance × FungibleTokenMetadata) → List PositionAsset
all_assets balances tokens =
    wallet_asset "STX" "STX" balances.stx.balance 6 ∷ map token_asset tokens

abbrev accessibility_note : String
accessibility_note =
    "Direct wallet assets are treated as liquid. STX stacking locks will be modeled by a dedicated staking adapter rather than applied to every wallet asset."

abbrev details : StxBalance → Bool → Fields
details stx exact =
    field "stx"
      (object (
        field "totalAtomic" (str stx.balance) (
          field "availableAtomic" (str stx.available) (field "lockedAtomic" (str stx.locked) end))))
      (field "tokenMetadataExact" (bool exact)
        (field "accessibilityNote" (str accessibility_note) end))

unfoldable pub wallet_position :
    String → String → ℕ → Bool → StxBalance → List PositionAsset → NormalizedPosition
wallet_position address now height exact stx assets = record {
  id = append "native:" address;
  owner = address;
  protocol = metadata;
  position_type = PositionType.wallet;
  assets = assets;
  value_usd = none;
  collateral_of = none;
  debt_of = none;
  liquidation = none;
  lending_of = none;
  liquidity_of = none;
  accessibility = some (record { liquid_bps = pos 10000; locked_until_block = none });
  source = record { block_height = height; observed_at = now; exact = exact };
  metadata = details stx exact;
}

-- `getPositions`, where `current` is the height that the client gives
unfoldable pub get_positions :
    Option AddressBalances
    → Option ℕ
    → (String → Option FungibleTokenMetadata)
    → String
    → AdapterContext
    → Option (List NormalizedPosition)
unfolding positive_assets all_assets wallet_position
get_positions balances_of current metadata_of address context = balances_of >>= λ balances.
    (elim context.block_height [ none ↦ current | some h ↦ some h ]) >>= λ height.
    traverse (described metadata_of) balances.fungible_tokens >>= λ tokens.
    positive_assets (all_assets balances tokens) >>= λ assets. some (
      wallet_position address context.now height
        (all (λ (t : FungibleTokenBalance × FungibleTokenMetadata). t.1.exact) tokens) balances.stx
        assets
      ∷ [])

unfoldable pub is_positive : PositionAsset → Bool
unfolding of_decimal
is_positive x = elim (of_decimal x.amount_atomic) [ none ↦ false | some n ↦ ltb 0 n ]

is_positive-eq :
    (x : PositionAsset) (n : ℕ) → of_decimal x.amount_atomic ≡ some n → is_positive x ≡ ltb 0 n
unfolding is_positive
is_positive-eq x n e = rw (is_positive, e)

-- What the wallet keeps is the assets with a positive amount, in their order; an amount that is no
-- number makes the whole call fail.
pub positive_assets-keep :
    (xs ys : List PositionAsset) → positive_assets xs ≡ some ys → ys ≡ keep is_positive xs
unfolding positive_assets
positive_assets-keep [] ys h = sym (some_injective h)
positive_assets-keep (x ∷ xs) ys h =
    bind-cases (of_decimal x.amount_atomic) _
      (λ n e rest.
        bind-cases (positive_assets xs) _
          (λ zs f last.
            sym (some_injective last) ∙ cc (positive_assets-keep xs zs f, is_positive-eq x n e))
          rest)
      h
