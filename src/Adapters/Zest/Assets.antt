-- ===== src/Adapters/Zest/Assets.antt =====
-- What a position of Zest is made of.
use riskrail.Base.{
  ◌≡◌, refl, ◌∙◌, ap, sym, ◌&&◌, String, some, List, [], ◌∷◌, ◌++◌, map, traverse, is_some, all,
  is_some-traverse, map-traverse, bind-cases, some_injective, append-nil, map-map_eq, arith,
}
use riskrail.Position.{PositionAsset, Role, NormalizedPosition}
use riskrail.Adapters.Decode.{AdapterContext}
use riskrail.Adapters.Zest.{
  ZestV2Reader, ZestV2Contracts, ZestPositionState, ZestCollateralEntry, ZestDebtEntry,
}
use riskrail.Adapters.Zest.Position.{
  get_positions, positions_of_state, positions_of, collateral_step, debt_step, underlying_info,
  asset_of, obligation, Pushed,
}

abbrev pub roles : List NormalizedPosition → List Role
roles [] = []
roles (p ∷ ps) = map (λ (x : PositionAsset). x.role) p.assets ++ roles ps

role_of-collateral :
    (reader : ZestV2Reader) (e : ZestCollateralEntry) (p : Pushed)
    → collateral_step reader e ≡ some p
    → p.0.role ≡ Role.collateral
unfolding collateral_step asset_of
role_of-collateral reader e p = bind-cases (reader.get_asset e.aid) _ λ info _.
    bind-cases (reader.convert_shares_to_underlying e.aid e.amount_atomic) _ λ amount _.
      bind-cases (underlying_info reader info) _
        λ underlying _ h. sym (ap (λ (x : Pushed). x.0.role) (some_injective h))

role_of-debt :
    (reader : ZestV2Reader) (e : ZestDebtEntry) (p : Pushed)
    → debt_step reader e ≡ some p
    → p.0.role ≡ Role.debt
unfolding debt_step asset_of
role_of-debt reader e p = bind-cases (reader.get_asset e.aid) _ λ info _.
    bind-cases (reader.get_actual_debt e.aid e.scaled_atomic) _ λ amount _.
      bind-cases (underlying_info reader info) _
        λ underlying _ h. sym (ap (λ (x : Pushed). x.0.role) (some_injective h))

abbrev role_of : Pushed → Role
role_of p = p.0.role

roles-positions_of :
    (contracts : ZestV2Contracts) (address : String) (context : AdapterContext)
    (state : ZestPositionState) (pushed : List Pushed)
    → roles (positions_of contracts address context state pushed) ≡ map role_of pushed
unfolding positions_of obligation
roles-positions_of contracts address context state [] = refl
roles-positions_of contracts address context state (p ∷ ps) =
    append-nil _
    ∙ map-map_eq (λ (x : PositionAsset). x.role) (λ (x : Pushed). x.0) role_of (p ∷ ps) (λ x. refl)

map-append : (f : Pushed → Role) (xs ys : List Pushed) → map f (xs ++ ys) ≡ map f xs ++ map f ys
map-append f [] ys = refl
map-append f (x ∷ xs) ys = ap (λ zs. f x ∷ zs) (map-append f xs ys)

module _ (reader : ZestV2Reader) (contracts : ZestV2Contracts) (address : String)
    (context : AdapterContext) (state : ZestPositionState)
    (found : reader.get_position address ≡ some (some state)) where
  -- The positions are given exactly if each collateral and each debt of the account can be read: an
  -- entry that cannot be read makes the whole call fail, and is not left out.
  pub get_positions-all_or_nothing : is_some (get_positions reader contracts address context) ≡ (
      all (λ e. is_some (collateral_step reader e)) state.collateral
      && all (λ e. is_some (debt_step reader e)) state.debt)
  unfolding get_positions positions_of_state
  get_positions-all_or_nothing = rw found (
      ground (
        arith,
        is_some-traverse (collateral_step reader) state.collateral,
        is_some-traverse (debt_step reader) state.debt,
      ))

  -- The position holds the collateral first and then the debts, one asset for each entry of the
  -- account: nothing is dropped, merged or given the other role.
  pub get_positions-roles :
      (ps : List NormalizedPosition)
      → get_positions reader contracts address context ≡ some ps
      → roles ps ≡ map (λ e. Role.collateral) state.collateral ++ map (λ e. Role.debt) state.debt
  unfolding get_positions positions_of_state
  get_positions-roles ps h =
      bind-cases (traverse (collateral_step reader) state.collateral) _
        (λ collateral first rest.
          bind-cases (traverse (debt_step reader) state.debt) _
            (λ debt second last.
              ap roles (sym (some_injective last))
              ∙ (roles-positions_of contracts address context state (collateral ++ debt)
                  ∙ (map-append role_of collateral debt
                      ∙ cc (
                        map-traverse (collateral_step reader) role_of (λ e. Role.collateral)
                            state.collateral collateral (role_of-collateral reader) first,
                        map-traverse (debt_step reader) role_of (λ e. Role.debt) state.debt debt
                            (role_of-debt reader) second,
                      ))))
            rest)
        (rw found at h)
