-- ===== src/Adapters/Ranges.antt =====
-- The accessibility that the engines read of a stream's position.
use riskrail.Base.{
  ℕ, ◌≡◌, subst, Bool, true, false, ◌||◌, String, Option, none, some, ◌>>=◌, List, [], ◌∷◌, ◌==◌,
  All, All-append, bind-cases, some_injective, or_default, inl, inr, Bool-cases, if◌then◌else◌,
  arith,
}
use riskrail.Base.Int.{pos, ◌≤ℤ◌, clamp_bounds}
use riskrail.Position.{NormalizedPosition}
use riskrail.Risk.Exposure.{liquid_bps_of}
use riskrail.Adapters.Decode.{AdapterContext}
use riskrail.Adapters.Bitpay.{
  ReaderConfig, BitPayStream, Amounts, is_recipient, get_stream_ids, get_stream, get_positions,
  positions_of, stream_positions, stream_position, accessibility_of, amounts_of, outstanding,
  liquid_bps,
}

abbrev pub InRange : NormalizedPosition → Type 0
InRange p = (pos 0 ≤ℤ liquid_bps_of p.accessibility) × (liquid_bps_of p.accessibility ≤ℤ pos 10000)

stream_position-InRange :
    (address contract : String) (context : AdapterContext) (id : ℕ) (stream : BitPayStream)
    (a : Amounts)
    → InRange (stream_position address contract context id stream a)
unfolding stream_position accessibility_of
stream_position-InRange address contract context id stream a =
    elim (Bool-cases (is_recipient address stream)) [
      | inl e ↦
          rw (accessibility_of, e) (clamp_bounds (pos 0) (pos 10000) (liquid_bps a) (omega arith))
      | inr e ↦ rw (accessibility_of, e) (omega arith, omega arith)
    ]

All-if : (b : Bool) (p : NormalizedPosition) → InRange p → All InRange (if b then [] else p ∷ [])
All-if true p h = tt
All-if false p h = (h, tt)

stream_positions-InRange :
    (address contract : String) (context : AdapterContext) (id : ℕ) (stream : BitPayStream)
    (ps : List NormalizedPosition)
    → stream_positions address contract context id stream ≡ some ps
    → All InRange ps
unfolding stream_positions
stream_positions-InRange address contract context id stream ps h =
    bind-cases (amounts_of stream) _
      (λ a e last. subst (All InRange) (some_injective last) (
        All-if (stream.cancelled || outstanding a == 0) _
          (stream_position-InRange address contract context id stream a)))
      h

here-InRange :
    (config : ReaderConfig) (address : String) (context : AdapterContext) (id : ℕ)
    (found : Option BitPayStream) (ps : List NormalizedPosition)
    → or_default
        (found >>= λ stream. some (stream_positions address config.contract_id context id stream))
        (some [])
      ≡ some ps
    → All InRange ps
here-InRange config address context id none ps h = subst (All InRange) (some_injective h) tt
here-InRange config address context id (some stream) ps h =
    stream_positions-InRange address config.contract_id context id stream ps h

positions_of-InRange :
    (config : ReaderConfig) (address : String) (context : AdapterContext) (ids : List ℕ)
    (ps : List NormalizedPosition)
    → positions_of config address context ids ≡ some ps
    → All InRange ps
unfolding positions_of
positions_of-InRange config address context [] ps h = subst (All InRange) (some_injective h) tt
positions_of-InRange config address context (id ∷ ids) ps h =
    bind-cases (get_stream config id) _
      (λ found e next.
        bind-cases
          (or_default
            (found >>= λ stream.
              some (stream_positions address config.contract_id context id stream))
            (some []))
          _
          (λ here f rest.
            bind-cases (positions_of config address context ids) _
              (λ later g last. subst (All InRange) (some_injective last) (
                All-append InRange here later (here-InRange config address context id found here f)
                  (positions_of-InRange config address context ids later g)))
              rest)
          next)
      h

-- Every position of a stream has an accessibility between 0 and 10000 basis points for the engines,
-- whatever the contract answers.
pub get_positions-InRange :
    (config : ReaderConfig) (address : String) (context : AdapterContext)
    (ps : List NormalizedPosition)
    → get_positions config address context ≡ some ps
    → All InRange ps
unfolding get_positions
get_positions-InRange config address context ps h =
    bind-cases (get_stream_ids config address) _
      (λ ids e rest. positions_of-InRange config address context ids ps rest) h
