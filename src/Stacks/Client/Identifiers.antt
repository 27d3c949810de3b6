-- ===== src/Stacks/Client/Identifiers.antt =====
-- The parsers of identifiers undo the joining of their parts, and what they give for a token.
use Prim.Native.Char.{Char, code}
use riskrail.Base.{
  ℕ, ◌≡◌, refl, ap, sym, some_injective, ◌∙◌, Bool, true, false, not, String, Option, none, some,
  ◌>>=◌, ◌==◌, if◌then◌else◌, arith, Bool-cases, inl, inr,
}
use riskrail.Stacks.Client.{
  parse_contract_id, parse_asset_identifier, split_last, after_colon, Answer, TokenMetadata,
  FungibleTokenMetadata, is_sbtc, metadata_from, described, fallback, is_missing,
}
use riskrail.Base.Text.{is_empty, join, cut-join, all_chars}

-- A contract's identifier gives back the address and the name it was made of, for an address without
-- a dot, and neither of the two empty.
pub parse_contract_id-join :
    (address name : String)
    → all_chars (λ c. not (code c == 46)) address ≡ true
    → is_empty address ≡ false
    → is_empty name ≡ false
    → parse_contract_id (join address (join "." name)) ≡ some (address, name)
unfolding parse_contract_id
parse_contract_id-join address name dotless some_address some_name =
    rw (cut-join 46 address name (".") dotless refl, some_address, some_name)

abbrev pub starts_with_colon : String → Bool
starts_with_colon String.[] = false
starts_with_colon (String.◌∷◌ c s) = code c == 58

abbrev rest_of : String → Option (String × String)
rest_of s = after_colon s >>= λ rest. some (String.[], rest)

split_last-next :
    (c : Char) (s : String)
    → split_last s ≡ none
    → split_last (String.◌∷◌ c s) ≡ (if code c == 58 then rest_of s else none)
unfolding split_last
split_last-next c s h = rw h

rest_of-colon : (s : String) → starts_with_colon s ≡ false → rest_of s ≡ none
rest_of-colon String.[] h = refl
rest_of-colon (String.◌∷◌ c s) h = ground (arith, h)

split_last-separator :
    (token : String)
    → split_last token ≡ none
    → starts_with_colon token ≡ false
    → split_last (join "::" token) ≡ some ("", token)
split_last-separator token h k =
    let inner : split_last (join ":" token) ≡ none =
      split_last-next (":") token h ∙ rest_of-colon token k in
    split_last-next (":") (join ":" token) inner

split_last-join :
    (contract token : String)
    → split_last token ≡ none
    → starts_with_colon token ≡ false
    → split_last (join contract (join "::" token)) ≡ some (contract, token)
unfolding split_last
split_last-join String.[] token h k = split_last-separator token h k
split_last-join (String.◌∷◌ c s) token h k = rw (split_last, split_last-join s token h k)

-- A token's identifier gives back its contract and its name, for a name that has no `::` and does
-- not begin with a colon, and neither of the two empty.
pub parse_asset_identifier-join :
    (contract token : String)
    → split_last token ≡ none
    → starts_with_colon token ≡ false
    → is_empty contract ≡ false
    → is_empty token ≡ false
    → parse_asset_identifier (join contract (join "::" token)) ≡ some (contract, token)
unfolding parse_asset_identifier
parse_asset_identifier-join contract token h k some_contract some_token =
    rw (split_last-join contract token h k, some_contract, some_token)

abbrev pub decimals_of : Answer TokenMetadata → Option ℕ
decimals_of (Answer.answered_with b) = b.decimals
decimals_of _ = none

-- A token of an sBTC contract has 8 decimals whenever the answer does not say how many it has, be
-- it incomplete, missing or broken.
pub metadata_from-sbtc :
    (id contract token : String) (answer : Answer TokenMetadata) (r : FungibleTokenMetadata)
    → is_sbtc token contract ≡ true
    → decimals_of answer ≡ none
    → metadata_from id contract token answer ≡ some r
    → r.decimals ≡ 8
unfolding metadata_from described fallback
metadata_from-sbtc id contract token (Answer.answered_with b) r sbtc missing h =
    sym (ap (λ (x : FungibleTokenMetadata). x.decimals) (some_injective h)) ∙ rw (missing, sbtc)
metadata_from-sbtc id contract token (Answer.http_status n) r sbtc missing h =
    elim (Bool-cases (is_missing n)) [
      | inl e ↦
          sym (ap (λ (x : FungibleTokenMetadata). x.decimals) (some_injective (rw e at h)))
          ∙ rw sbtc
      | inr e ↦ absurd (ground (arith, rw e at h))
    ]
metadata_from-sbtc id contract token Answer.broken r sbtc missing h =
    sym (ap (λ (x : FungibleTokenMetadata). x.decimals) (some_injective h)) ∙ rw sbtc
