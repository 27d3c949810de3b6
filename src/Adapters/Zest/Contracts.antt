-- ===== src/Adapters/Zest/Contracts.antt =====
-- packages/adapter-zest-v2/src/index.ts: `zestV2ContractsFromEnv`. A thrown error is `none`.
use Prim.Native.String.{◌++◌ as append}
use text.Mathlib.Text.{◌==◌ as str_eq}
use riskrail.Base.{
  ℕ, zero, suc, ◌≡◌, refl, sym, ◌∙◌, Bool, true, false, ◌&&◌, ◌||◌, String, Option, none, some,
  ◌>>=◌, List, [], ◌∷◌, all, is_some, arith, if◌then◌else◌,
}
use riskrail.Adapters.Zest.{ZestV2Contracts}

abbrev mainnet_deployer : String
mainnet_deployer = "SP1A27KFY4XERQCCRCARCYD1CC5N7M6688BSYADJ7"

abbrev pub Env : Type 0
Env = String → Option String

abbrev not_empty : String → Option String
not_empty String.[] = none
not_empty (String.◌∷◌ c s) = some (String.◌∷◌ c s)

-- `env[key]`, where it is neither missing nor empty
unfoldable pub set_in : Env → String → Option String
set_in env key = env key >>= not_empty

unfoldable pub is_mainnet : Env → Bool
is_mainnet env = elim (env "STACKS_NETWORK") [ none ↦ false | some s ↦ str_eq s "mainnet" ]

-- the address that `ZEST_V2_MAINNET_CONTRACTS` gives, on the main network
abbrev default_of : Env → String → Option String
unfolding is_mainnet
default_of env suffix =
    if is_mainnet env then some (append mainnet_deployer (append "." suffix)) else none

unfoldable pub deployer_of : Env → Option String
unfolding set_in is_mainnet
deployer_of env = elim (set_in env "ZEST_V2_DEPLOYER") [
  | some s ↦ some s
  | none ↦ if is_mainnet env then some mainnet_deployer else none
]

-- the local function `contract`
unfoldable pub contract : Env → String → String → Option String
unfolding set_in deployer_of
contract env key suffix = elim (set_in env key) [
  | some explicit ↦ some explicit
  | none ↦ elim (default_of env suffix) [
    | some fallback ↦ some fallback
    | none ↦ deployer_of env >>= λ deployer. some (append deployer (append "." suffix))
  ]
]

unfoldable pub vaults_from_env : Env → Option (List (ℕ × String))
unfolding contract
vaults_from_env env = contract env "ZEST_V2_VAULT_STX" "v0-vault-stx" >>= λ stx.
    contract env "ZEST_V2_VAULT_SBTC" "v0-vault-sbtc" >>= λ sbtc.
    contract env "ZEST_V2_VAULT_STSTX" "v0-vault-ststx" >>= λ ststx.
    contract env "ZEST_V2_VAULT_USDC" "v0-vault-usdc" >>= λ usdc.
    contract env "ZEST_V2_VAULT_USDH" "v0-vault-usdh" >>= λ usdh.
    contract env "ZEST_V2_VAULT_STSTXBTC" "v0-vault-ststxbtc" >>= λ ststxbtc.
    contract env "ZEST_V2_VAULT_STBTC" "v0-vault-stbtc" >>= λ stbtc.
    some (
      (0, stx) ∷ (2, sbtc) ∷ (4, ststx) ∷ (6, usdc) ∷ (8, usdh) ∷ (10, ststxbtc) ∷ (12, stbtc) ∷ [])

unfoldable pub contracts_from_env : Env → Option ZestV2Contracts
unfolding contract vaults_from_env
contracts_from_env env = contract env "ZEST_V2_MARKET_CONTRACT" "v0-8-market" >>= λ market.
    contract env "ZEST_V2_MARKET_VAULT_CONTRACT" "v0-market-vault" >>= λ market_vault.
    contract env "ZEST_V2_ASSETS_CONTRACT" "v0-assets" >>= λ assets.
    contract env "ZEST_V2_EGROUP_CONTRACT" "v0-egroup" >>= λ egroup.
    vaults_from_env env >>= λ vaults. some (record {
      market = some market;
      market_vault = market_vault;
      assets = assets;
      egroup = egroup;
      vaults = vaults;
    })

-- the variables that name a contract each
abbrev pub keys : List String
keys =
    "ZEST_V2_MARKET_CONTRACT" ∷ "ZEST_V2_MARKET_VAULT_CONTRACT" ∷ "ZEST_V2_ASSETS_CONTRACT"
    ∷ "ZEST_V2_EGROUP_CONTRACT" ∷ "ZEST_V2_VAULT_STX" ∷ "ZEST_V2_VAULT_SBTC" ∷ "ZEST_V2_VAULT_STSTX"
    ∷ "ZEST_V2_VAULT_USDC" ∷ "ZEST_V2_VAULT_USDH" ∷ "ZEST_V2_VAULT_STSTXBTC" ∷ "ZEST_V2_VAULT_STBTC"
    ∷ []

-- a contract is found where there is a fallback or the variable is set
is_some-contract :
    (env : Env) (key suffix : String)
    → is_some (contract env key suffix)
      ≡ (is_mainnet env || (is_some (set_in env "ZEST_V2_DEPLOYER") || is_some (set_in env key)))
unfolding contract deployer_of
is_some-contract env key suffix = ground arith

-- on the main network, with a deployer, or with every one of the variables
abbrev pub given : Env → List String → Bool
given env ks =
    is_mainnet env
    || (is_some (set_in env "ZEST_V2_DEPLOYER") || all (λ k. is_some (set_in env k)) ks)

abbrev drop : ℕ → List String → List String
drop zero ks = ks
drop (suc n) [] = []
drop (suc n) (k ∷ ks) = drop n ks

is_some-bind {ℓ κ} :
    {A : Type ℓ} {B : Type κ} (o : Option A) (f : A → Option B) (b : Bool)
    → ((a : A) → is_some (f a) ≡ b)
    → is_some (o >>= f) ≡ (is_some o && b)
is_some-bind none f b h = refl
is_some-bind (some a) f b h = h a

contract-next {ℓ} :
    {A : Type ℓ} (env : Env) (key suffix : String) (f : String → Option A) (ks : List String)
    → ((a : String) → is_some (f a) ≡ given env ks)
    → is_some (contract env key suffix >>= f) ≡ given env (key ∷ ks)
contract-next env key suffix f ks h =
    is_some-bind (contract env key suffix) f (given env ks) h
    ∙ rw (is_some-contract env key suffix) (ground arith)

given-nil : (env : Env) → given env [] ≡ true
given-nil env = ground arith

is_some-vaults_from_env : (env : Env) → is_some (vaults_from_env env) ≡ given env (drop 4 keys)
unfolding vaults_from_env
is_some-vaults_from_env env =
    (contract-next env "ZEST_V2_VAULT_STX" "v0-vault-stx" _ (drop 5 keys) λ a.
      (contract-next env "ZEST_V2_VAULT_SBTC" "v0-vault-sbtc" _ (drop 6 keys) λ b.
        (contract-next env "ZEST_V2_VAULT_STSTX" "v0-vault-ststx" _ (drop 7 keys) λ c.
          (contract-next env "ZEST_V2_VAULT_USDC" "v0-vault-usdc" _ (drop 8 keys) λ d.
            (contract-next env "ZEST_V2_VAULT_USDH" "v0-vault-usdh" _ (drop 9 keys) λ e.
              (contract-next env "ZEST_V2_VAULT_STSTXBTC" "v0-vault-ststxbtc" _ (drop 10 keys) λ f.
                (contract-next env "ZEST_V2_VAULT_STBTC" "v0-vault-stbtc" _ (drop 11 keys)
                  λ g. sym (given-nil env))))))))

-- The addresses are complete exactly on the main network, with a deployer to name them after, or
-- with each of the eleven variables set; otherwise the construction throws.
pub is_some-contracts_from_env : (env : Env) → is_some (contracts_from_env env) ≡ given env keys
unfolding contracts_from_env
is_some-contracts_from_env env =
    (contract-next env "ZEST_V2_MARKET_CONTRACT" "v0-8-market" _ (drop 1 keys) λ a.
      (contract-next env "ZEST_V2_MARKET_VAULT_CONTRACT" "v0-market-vault" _ (drop 2 keys) λ b.
        (contract-next env "ZEST_V2_ASSETS_CONTRACT" "v0-assets" _ (drop 3 keys) λ c.
          (contract-next env "ZEST_V2_EGROUP_CONTRACT" "v0-egroup" _ (drop 4 keys) λ d.
            (is_some-bind (vaults_from_env env) _ true (λ vaults. refl)
              ∙ rw (is_some-vaults_from_env env) (ground arith))))))
