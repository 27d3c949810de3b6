-- ===== src/Api/Alerts/Deliveries.antt =====
-- Which events reach an endpoint after its account has changed it.
use text.Mathlib.Text.{◌==◌}
use text.Mathlib.TextEquality.{eq_iff}
use riskrail.Base.{
  ◌≡◌, refl, ap, sym, subst, ◌∙◌, Bool, true, false, not, ◌&&◌, ◌||◌, String, some, List, [], ◌∷◌,
  keep, any, Bool-cases, inl, inr, arith, if◌then◌else◌,
}
use riskrail.Api.Alerts.{WebhookEndpoint, is_own, update_enabled, set_enabled, remove}
use riskrail.Storage.Deliveries.{takes, plan_deliveries}

abbrev pub with_id : String → WebhookEndpoint → Bool
with_id id e = e.id == id

-- the identifiers differ, as those of a table do
abbrev pub are_unique : List WebhookEndpoint → Bool
are_unique [] = true
are_unique (e ∷ rest) = not (any (with_id e.id) rest) && are_unique rest

-- the endpoint with this identifier has the event among its events
abbrev pub subscribes : (id type : String) → List WebhookEndpoint → Bool
subscribes id type [] = false
subscribes id type (e ∷ rest) =
    (e.id == id && any (λ k. k == type) e.events) || subscribes id type rest

-- the event goes to the endpoint with this identifier
unfoldable pub reaches_endpoint : (id type : String) → List WebhookEndpoint → Bool
unfolding plan_deliveries
reaches_endpoint id type endpoints = any (λ k. k == id) (plan_deliveries type endpoints)

reaches_endpoint-none : (k type : String) → reaches_endpoint k type [] ≡ false
unfolding reaches_endpoint plan_deliveries
reaches_endpoint-none k type = refl

reaches_endpoint-cons :
    (k type : String) (e : WebhookEndpoint) (rest : List WebhookEndpoint)
    → reaches_endpoint k type (e ∷ rest)
      ≡ ((takes type e && e.id == k) || reaches_endpoint k type rest)
unfolding reaches_endpoint plan_deliveries
reaches_endpoint-cons k type e rest = ground arith

absent-subscribes :
    (id type : String) (endpoints : List WebhookEndpoint)
    → any (with_id id) endpoints ≡ false
    → (subscribes id type endpoints ≡ false) × (reaches_endpoint id type endpoints ≡ false)
unfolding reaches_endpoint plan_deliveries
absent-subscribes id type [] h = (refl, refl)
absent-subscribes id type (e ∷ rest) h = ground (arith, h, absent-subscribes id type rest)

reaches_endpoint-update :
    (id type k : String) (enabled : Bool) (endpoints : List WebhookEndpoint)
    → are_unique endpoints ≡ true
    → reaches_endpoint k type (update_enabled id enabled endpoints) ≡ (
        if id == k
        then enabled && subscribes id type endpoints
        else reaches_endpoint k type endpoints)
unfolding update_enabled
reaches_endpoint-update id type k enabled [] h = ground (arith, reaches_endpoint-none k type)
reaches_endpoint-update id type k enabled (e ∷ rest) h = elim (Bool-cases (e.id == id)) [
  | inl same ↦
      let own : e.id ≡ id = (eq_iff e.id id).0 same in
      let gone =
        absent-subscribes id type rest
          (subst (λ i. any (with_id i) rest ≡ false) own (ground (arith, h))) in
      let changed = record e { enabled = enabled } in
      rw same (elim (Bool-cases (id == k)) [
        | inl it ↦
            let at_k : id ≡ k = (eq_iff id k).0 it in
            ground (
              arith,
              it,
              gone,
              reaches_endpoint-cons k type changed rest,
              subst (λ i. (e.id == i) ≡ true) at_k same,
              subst (λ i. reaches_endpoint i type rest ≡ false) at_k gone.1,
            )
        | inr another ↦ ground (
          arith,
          another,
          reaches_endpoint-cons k type changed rest,
          reaches_endpoint-cons k type e rest,
          subst (λ i. (i == k) ≡ false) (sym own) another,
        )
      ])
  | inr other ↦ ground (
    arith,
    other,
    h,
    reaches_endpoint-update id type k enabled rest,
    eq_iff id k,
    reaches_endpoint-cons k type e rest,
    reaches_endpoint-cons k type e (update_enabled id enabled rest),
  )
]

-- Once an account has enabled or disabled an endpoint, an event goes to it exactly if it is enabled
-- and has the event among its events; to every other endpoint the event goes as before.
pub set_enabled-plan_deliveries :
    (user id type k : String) (enabled : Bool) (endpoints changed : List WebhookEndpoint)
    → are_unique endpoints ≡ true
    → set_enabled user id enabled endpoints ≡ some changed
    → reaches_endpoint k type changed ≡ (
        if id == k
        then enabled && subscribes id type endpoints
        else reaches_endpoint k type endpoints)
unfolding set_enabled
set_enabled-plan_deliveries user id type k enabled endpoints changed h done =
    elim (Bool-cases (any (is_own user id) endpoints)) [
      | inl own ↦
          let same : update_enabled id enabled endpoints ≡ changed = ground (arith, done, own) in
          ap (reaches_endpoint k type) (sym same)
          ∙ reaches_endpoint-update id type k enabled endpoints h
      | inr other ↦ absurd (ground (arith, done, other))
    ]

kept-reaches :
    (id type k : String) (endpoints : List WebhookEndpoint)
    → reaches_endpoint k type (keep (λ (e : WebhookEndpoint). not (e.id == id)) endpoints)
      ≡ (not (id == k) && reaches_endpoint k type endpoints)
kept-reaches id type k [] = ground (arith, reaches_endpoint-none k type)
kept-reaches id type k (e ∷ rest) =
    let others = keep (λ (d : WebhookEndpoint). not (d.id == id)) rest in
    ground (
      arith,
      kept-reaches id type k rest,
      reaches_endpoint-cons k type e rest,
      reaches_endpoint-cons k type e others,
      eq_iff e.id id,
      eq_iff id k,
      eq_iff e.id k,
    )

-- No event goes to an endpoint that was removed, and the others are left as they were.
remove-plan_deliveries :
    (user id type k : String) (endpoints changed : List WebhookEndpoint)
    → remove user id endpoints ≡ some changed
    → reaches_endpoint k type changed ≡ (not (id == k) && reaches_endpoint k type endpoints)
unfolding remove
remove-plan_deliveries user id type k endpoints changed done =
    elim (Bool-cases (any (is_own user id) endpoints)) [
      | inl own ↦
          let same : keep (λ (e : WebhookEndpoint). not (e.id == id)) endpoints ≡ changed =
            ground (arith, done, own) in
          ap (reaches_endpoint k type) (sym same) ∙ kept-reaches id type k endpoints
      | inr other ↦ absurd (ground (arith, done, other))
    ]
