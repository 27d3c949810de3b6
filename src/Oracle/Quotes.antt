-- ===== src/Oracle/Quotes.antt =====
-- Which quote an asset gets from the price source, the other assets of the request aside.
use text.Mathlib.Text.{◌==◌}
use riskrail.Base.{
  ◌≡◌, refl, ap, sym, ◌∙◌, Bool, true, false, not, ◌&&◌, String, Option, none, some, ◌>>=◌, List,
  [], ◌∷◌, any, map, Dict, lookup, insert, lookup-insert, Option-cases, inl, inr, eq_iff, arith,
  if◌then◌else◌,
}
use riskrail.Base.Text.{distinct}
use riskrail.Numbers.{Numbers}
use riskrail.Indexer.{AssetRef}
use riskrail.Oracle.{PriceQuote, collect, resolve_id, mapped_ids, quote, quote_of, get_usd_prices}

-- an asset with this identifier is asked for
unfoldable pub has_id : String → List AssetRef → Bool
has_id id assets = any (λ (a : AssetRef). a.asset_id == id) assets

unfoldable pub are_distinct : List AssetRef → Bool
unfolding has_id
are_distinct [] = true
are_distinct (a ∷ assets) = not (has_id a.asset_id assets) && are_distinct assets

pub data IsAmong (asset : AssetRef) : List AssetRef → Type 0 where
  here : (assets : List AssetRef) → IsAmong asset (asset ∷ assets)
  there :
      (other : AssetRef) (assets : List AssetRef)
      → IsAmong asset assets
      → IsAmong asset (other ∷ assets)

other_id :
    (id : String) {asset : AssetRef} {assets : List AssetRef}
    → IsAmong asset assets
    → has_id id assets ≡ false
    → (id == asset.asset_id) ≡ false
unfolding has_id
other_id id {asset} (here assets) absent =
    ground (arith, absent, eq_iff id asset.asset_id, eq_iff asset.asset_id id)
other_id id (there other assets h) absent = other_id id h (ground (arith, absent))

module _ {ℓ} {V : Type ℓ} (f : AssetRef → Option V) where
  -- one step of the loop
  unfoldable set_one : AssetRef → Dict V → Dict V
  unfolding insert
  set_one a m = elim (f a) [ none ↦ m | some v ↦ insert a.asset_id v m ]

  lookup-set_other :
      (id : String) (a : AssetRef) (m : Dict V)
      → (a.asset_id == id) ≡ false
      → lookup id (set_one a m) ≡ lookup id m
  unfolding set_one lookup
  lookup-set_other id a m other = elim (Option-cases (f a)) [
    | inl e ↦ rw (lookup, e) refl
    | inr (v, e) ↦ rw (lookup, e, lookup-insert a.asset_id id v m, other) refl
  ]

  lookup-set_own :
      (a : AssetRef) (m : Dict V)
      → lookup a.asset_id m ≡ none
      → lookup a.asset_id (set_one a m) ≡ f a
  unfolding set_one lookup
  lookup-set_own a m fresh =
      let id = a.asset_id in
      let after = λ (r : Option V). lookup id (elim r [ none ↦ m | some v ↦ insert id v m ]) in
      elim (Option-cases (f a)) [
        | inl e ↦ ap after e ∙ (fresh ∙ sym e)
        | inr (v, e) ↦
            ap after e
            ∙ (lookup-insert id id v m
                ∙ (ap (λ b. if b then some v else lookup id m) ((eq_iff id id).1 refl) ∙ sym e))
      ]

  lookup-collect_absent :
      (id : String) (assets : List AssetRef) (m : Dict V)
      → has_id id assets ≡ false
      → lookup id (collect f assets m) ≡ lookup id m
  unfolding has_id collect set_one
  lookup-collect_absent id [] m absent = refl
  lookup-collect_absent id (a ∷ assets) m absent =
      lookup-collect_absent id assets (set_one a m) (ground (arith, absent))
      ∙ lookup-set_other id a m (ground (arith, absent))

  -- among assets with different identifiers, the loop gives each what it gives alone
  lookup-collect :
      {asset : AssetRef} {assets : List AssetRef} (m : Dict V)
      → IsAmong asset assets
      → are_distinct assets ≡ true
      → lookup asset.asset_id m ≡ none
      → lookup asset.asset_id (collect f assets m) ≡ f asset
  unfolding are_distinct collect set_one
  lookup-collect {asset} m (here assets) different fresh =
      lookup-collect_absent asset.asset_id assets (set_one asset m) (ground (arith, different))
      ∙ lookup-set_own asset m fresh
  lookup-collect {asset} m (there other assets h) different fresh =
      let apart = other_id other.asset_id h (ground (arith, different)) in
      lookup-collect (set_one other m) h (ground (arith, different))
        (lookup-set_other asset.asset_id other m apart ∙ fresh)

-- the identifiers that the request names
unfoldable pub asked : Dict String → List String
unfolding distinct
asked mapped = distinct (map (λ (e : String × String). e.1) mapped)

module _ (num : Numbers) (simple_price : List String → Option (Dict String)) (id_map : Dict String)
    (now : String) where
  -- the quote of one asset, from the identifier it is known by and the answer of the service
  unfoldable pub single_quote : Option String → List String → AssetRef → Option PriceQuote
  unfolding lookup quote
  single_quote id ids asset = id >>= λ known. simple_price ids >>= λ answer.
      lookup known answer >>= λ price. some (quote num price now asset)

  single_quote-failed :
      (id : Option String) (ids : List String) (asset : AssetRef)
      → simple_price ids ≡ none
      → single_quote id ids asset ≡ none
  unfolding single_quote
  single_quote-failed none ids asset h = refl
  single_quote-failed (some known) ids asset h = rw h refl

  single_quote-answered :
      (id : Option String) (ids : List String) (answer : Dict String) (asset : AssetRef)
      → simple_price ids ≡ some answer
      → single_quote id ids asset
        ≡ (id >>= λ known. lookup known answer >>= λ price. some (quote num price now asset))
  unfolding single_quote
  single_quote-answered none ids answer asset h = refl
  single_quote-answered (some known) ids answer asset h = rw h refl

  -- the quotes of a request
  unfoldable quotes_of : Dict String → List AssetRef → List String → Option (Dict PriceQuote)
  unfolding quote_of collect
  quotes_of mapped assets [] = some []
  quotes_of mapped assets (i ∷ is) =
      simple_price (i ∷ is) >>= λ answer. some (collect (quote_of num mapped answer now) assets [])

  lookup-quotes_of :
      (mapped : Dict String) (i : String) (is : List String) {asset : AssetRef}
      {assets : List AssetRef}
      → IsAmong asset assets
      → are_distinct assets ≡ true
      → (quotes_of mapped assets (i ∷ is) >>= λ quotes. lookup asset.asset_id quotes)
        ≡ single_quote (lookup asset.asset_id mapped) (i ∷ is) asset
  unfolding quote_of quotes_of
  lookup-quotes_of mapped i is {asset} {assets} among different =
      let id = lookup asset.asset_id mapped in
      let found = λ (r : Option (Dict String)).
        (r >>= λ answer. some (collect (quote_of num mapped answer now) assets [])) >>= λ quotes.
        lookup asset.asset_id quotes in
      elim (Option-cases (simple_price (i ∷ is))) [
        | inl e ↦ ap found e ∙ sym (single_quote-failed id (i ∷ is) asset e)
        | inr (answer, e) ↦
            ap found e
            ∙ (lookup-collect (quote_of num mapped answer now) [] among different refl
                ∙ sym (single_quote-answered id (i ∷ is) answer asset e))
      ]

  lookup-request :
      (mapped : Dict String) {asset : AssetRef} {assets : List AssetRef}
      → IsAmong asset assets
      → are_distinct assets ≡ true
      → (quotes_of mapped assets (asked mapped) >>= λ quotes. lookup asset.asset_id quotes)
        ≡ single_quote (lookup asset.asset_id mapped) (asked mapped) asset
  unfolding lookup single_quote quotes_of asked
  lookup-request [] among different = refl
  lookup-request ((k, id) ∷ mapped) among different =
      lookup-quotes_of ((k, id) ∷ mapped) id _ among different

  -- Among assets with different identifiers, each one gets the quote of the identifier it is known
  -- by, under the answer to the one request; the other assets and their order do not matter. An
  -- asset with no such identifier gets none, and no asset gets one where the service fails.
  pub get_usd_prices-single_quote :
      {asset : AssetRef} {assets : List AssetRef}
      → IsAmong asset assets
      → are_distinct assets ≡ true
      → (get_usd_prices num simple_price id_map now assets >>= λ quotes.
          lookup asset.asset_id quotes)
        ≡ single_quote (resolve_id id_map asset) (asked (mapped_ids id_map assets)) asset
  unfolding get_usd_prices mapped_ids quotes_of asked
  get_usd_prices-single_quote {asset} {assets} among different =
      lookup-request (mapped_ids id_map assets) among different
      ∙ ap (λ id. single_quote id (asked (mapped_ids id_map assets)) asset)
          (lookup-collect (resolve_id id_map) [] among different refl)
