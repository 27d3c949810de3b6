-- ===== src/Worker/Attestation/Freshness.antt =====
-- What a snapshot has on chain after its run, whatever was published before and in whatever order.
use text.Mathlib.Text.{◌==◌ as str_eq}
use riskrail.Base.{
  Option, ◌≡◌, ◌⊎◌, refl, sym, ap, subst, ◌∙◌, inl, inr, Bool, true, false, not, ◌&&◌, String, none,
  some, List, [], ◌∷◌, arith, Option-cases, Bool-cases, keep, is_some, All, eq_iff,
}
use riskrail.Base.Int.{ℤ, ◌-ℤ◌, ltb_ℤ, ◌≤ℤ◌}
use riskrail.Contracts.{ContractArgs, Broadcast, PublishError, Published, publish}
use riskrail.Worker.Throttle.{AttestationDecision, Reason, decide_attestation}
use riskrail.Worker.Throttle.Freshness.{
  AgreesWith, publishes, same_figures-AgreesWith, is_covered, decide_attestation-is_covered,
}
use riskrail.Worker.Attestation.{
  RiskSnapshot, Settings, AttestationResult, ignored, disabled, misconfigured, not_found,
  already_published, skipped, threw, broadcast, find_unique, comes_before, first_in_order,
  last_published, with_tx, attestation_input, figures_of, after_publish, attest_snapshot,
  attestation_worker,
}
use riskrail.Worker.Attestation.Replay.{find_unique-mark, find_unique-id}

-- another snapshot of the wallet, with a transaction
abbrev pub is_published_beside : RiskSnapshot → RiskSnapshot → Bool
is_published_beside snapshot s =
    str_eq s.wallet_id snapshot.wallet_id
    && (not (str_eq s.id snapshot.id) && is_some s.onchain_tx_id)

-- the published snapshot of the same wallet that has the highest block
abbrev pub IsLatest : RiskSnapshot → List RiskSnapshot → RiskSnapshot → Type 0
IsLatest snapshot table p =
    (p.wallet_id ≡ snapshot.wallet_id)
    × (is_some p.onchain_tx_id ≡ true)
    × All (λ (q : RiskSnapshot). q.figures.source_block ≤ℤ p.figures.source_block)
        (keep (is_published_beside snapshot) table)

abbrev pub error_of : Published → Option PublishError
error_of (Published.rejected e) = some e
error_of (Published.failed_call args e) = some e
error_of (Published.published args tx_id) = none

-- What a run on a stored snapshot leaves, by what the publisher answers: a snapshot that is skipped is
-- covered by the published one of the highest block; one that is not covered is sent, and carries
-- its transaction then, or the run fails with the publisher's error.
unfoldable pub Settled :
    ℤ
    → Published
    → RiskSnapshot
    → List RiskSnapshot
    → AttestationResult × List RiskSnapshot
    → Type 0
Settled min_interval answer snapshot table (skipped, after) =
    (after ≡ table)
    × (snapshot.onchain_tx_id ≡ none)
    × ((p : RiskSnapshot) × IsLatest snapshot table p
        × AgreesWith snapshot.figures p.figures
        × (ltb_ℤ (snapshot.figures.source_block -ℤ p.figures.source_block) min_interval ≡ true))
Settled min_interval answer snapshot table (already_published tx_id, after) =
    (after ≡ table) × (snapshot.onchain_tx_id ≡ some tx_id)
Settled min_interval answer snapshot table (broadcast tx_id, after) =
    (find_unique snapshot.id after ≡ some (with_tx tx_id snapshot))
    × (snapshot.onchain_tx_id ≡ none)
    × (is_covered min_interval snapshot.figures (figures_of (last_published snapshot table))
        ≡ false)
    × (error_of answer ≡ none)
Settled min_interval answer snapshot table (threw e, after) =
    (after ≡ table)
    × (snapshot.onchain_tx_id ≡ none)
    × (is_covered min_interval snapshot.figures (figures_of (last_published snapshot table))
        ≡ false)
    × (error_of answer ≡ some e)
Settled min_interval answer snapshot table (ignored, after) = ⊥
Settled min_interval answer snapshot table (disabled, after) = ⊥
Settled min_interval answer snapshot table (misconfigured, after) = ⊥
Settled min_interval answer snapshot table (not_found, after) = ⊥

first_in_order-none : (xs : List RiskSnapshot) → first_in_order xs ≡ none → xs ≡ []
unfolding first_in_order
first_in_order-none [] h = refl
first_in_order-none (s ∷ rest) h = elim (Option-cases (first_in_order rest)) [
  | inl e ↦ absurd (ground (arith, h, e))
  | inr (best, e) ↦ absurd (ground (arith, h, e))
]

-- all of these are at most at the block
abbrev UpTo : ℤ → List RiskSnapshot → Type 0
UpTo block = All (λ (q : RiskSnapshot). q.figures.source_block ≤ℤ block)

UpTo-trans : (a b : ℤ) (xs : List RiskSnapshot) → a ≤ℤ b → UpTo a xs → UpTo b xs
UpTo-trans a b [] h below = tt
UpTo-trans a b (x ∷ xs) h (here, there) = (ground (arith, h, here), UpTo-trans a b xs h there)

first_in_order-highest :
    (xs : List RiskSnapshot) (p : RiskSnapshot)
    → first_in_order xs ≡ some p
    → UpTo p.figures.source_block xs
unfolding first_in_order
first_in_order-highest [] p h = tt
first_in_order-highest (s ∷ rest) p h = elim (Option-cases (first_in_order rest)) [
  | inl e ↦
      let first : s ≡ p = ground (arith, h, e) in
      subst (λ q. UpTo q.figures.source_block (s ∷ rest)) first
        (ground arith, subst (UpTo s.figures.source_block) (sym (first_in_order-none rest e)) tt)
  | inr (best, e) ↦
      let later = first_in_order-highest rest best e in
      elim (Bool-cases (comes_before s best)) [
        | inl c ↦
            let first : s ≡ p = ground (arith, h, e, c) in
            subst (λ q. UpTo q.figures.source_block (s ∷ rest)) first
              (
                ground arith,
                UpTo-trans best.figures.source_block s.figures.source_block rest (ground (arith, c))
                    later,
              )
        | inr c ↦
            let first : best ≡ p = ground (arith, h, e, c) in
            subst (λ q. UpTo q.figures.source_block (s ∷ rest)) first (ground (arith, c), later)
      ]
]

first_in_order-keep :
    (f : RiskSnapshot → Bool) (xs : List RiskSnapshot) (p : RiskSnapshot)
    → first_in_order (keep f xs) ≡ some p
    → f p ≡ true
unfolding first_in_order
first_in_order-keep f [] p h = absurd (ground (arith, h))
first_in_order-keep f (s ∷ rest) p h = elim (Bool-cases (f s)) [
  | inr unheld ↦ first_in_order-keep f rest p (ground (arith, h, unheld))
  | inl held ↦ elim (Option-cases (first_in_order (keep f rest))) [
    | inl e ↦ let first : s ≡ p = ground (arith, h, e, held) in subst (λ q. f q ≡ true) first held
    | inr (best, e) ↦
        let kept = first_in_order-keep f rest best e in
        elim (Bool-cases (comes_before s best)) [
          | inl c ↦
              let first : s ≡ p = ground (arith, h, e, c, held) in
              subst (λ q. f q ≡ true) first held
          | inr c ↦
              let first : best ≡ p = ground (arith, h, e, c, held) in
              subst (λ q. f q ≡ true) first kept
        ]
  ]
]

last_published-IsLatest :
    (snapshot : RiskSnapshot) (table : List RiskSnapshot) (p : RiskSnapshot)
    → last_published snapshot table ≡ some p
    → IsLatest snapshot table p
unfolding last_published
last_published-IsLatest snapshot table p h =
    let kept = first_in_order-keep (is_published_beside snapshot) table p h in
    (
      (eq_iff p.wallet_id snapshot.wallet_id).0 (ground (arith, kept)),
      ground (arith, kept),
      first_in_order-highest (keep (is_published_beside snapshot) table) p h,
    )

after_publish-Settled :
    (min_interval : ℤ) (answer : Published) (snapshot : RiskSnapshot) (table : List RiskSnapshot)
    → find_unique snapshot.id table ≡ some snapshot
    → snapshot.onchain_tx_id ≡ none
    → is_covered min_interval snapshot.figures (figures_of (last_published snapshot table)) ≡ false
    → Settled min_interval answer snapshot table (after_publish snapshot table answer)
unfolding after_publish Settled
after_publish-Settled min_interval (Published.rejected e) snapshot table found fresh due =
    (refl, fresh, due, refl)
after_publish-Settled min_interval (Published.failed_call args e) snapshot table found fresh due =
    (refl, fresh, due, refl)
after_publish-Settled min_interval (Published.published args tx_id) snapshot table found fresh due =
    (find_unique-mark snapshot.id tx_id table snapshot found, fresh, due, refl)

-- a decision by its kind
decision_cases :
    (d : AttestationDecision)
    → ((r : Reason) × (d ≡ AttestationDecision.publish r))
      ⊎ ((a : ℤ) × (b : ℤ) × (d ≡ AttestationDecision.unchanged a b))
decision_cases (AttestationDecision.publish r) = inl (r, refl)
decision_cases (AttestationDecision.unchanged a b) = inr (a, b, refl)

covered :
    (min_interval : ℤ) (answer : Published) (snapshot : RiskSnapshot) (table : List RiskSnapshot)
    → snapshot.onchain_tx_id ≡ none
    → is_covered min_interval snapshot.figures (figures_of (last_published snapshot table)) ≡ true
    → Settled min_interval answer snapshot table (skipped, table)
unfolding Settled
covered min_interval answer snapshot table fresh h =
    elim (Option-cases (last_published snapshot table)) [
      | inl e ↦ absurd (ground (arith, h, e))
      | inr (p, e) ↦
          let held : is_covered min_interval snapshot.figures (some p.figures) ≡ true =
            ap (λ l. is_covered min_interval snapshot.figures (figures_of l)) (sym e) ∙ h in
          (
            refl,
            fresh,
            (
              p,
              last_published-IsLatest snapshot table p e,
              same_figures-AgreesWith snapshot.figures p.figures (ground (arith, held)),
              ground (arith, held),
            ),
          )
    ]

attest_snapshot-Settled :
    (send : ContractArgs → Broadcast) (min_interval : ℤ) (table : List RiskSnapshot)
    (snapshot : RiskSnapshot)
    → find_unique snapshot.id table ≡ some snapshot
    → Settled min_interval
        (publish send (attestation_input snapshot))
        snapshot
        table
        (attest_snapshot send min_interval table snapshot)
unfolding attest_snapshot after_publish Settled
attest_snapshot-Settled send min_interval table snapshot found =
    let is = attest_snapshot send min_interval table snapshot in
    let answer = publish send (attestation_input snapshot) in
    let last = figures_of (last_published snapshot table) in
    let throttled = decide_attestation-is_covered min_interval snapshot.figures last in
    let goal = Settled min_interval answer snapshot table in
    elim (Option-cases snapshot.onchain_tx_id) [
      | inr (tx_id, published) ↦
          let same : is ≡ (already_published tx_id, table) = rw (attest_snapshot, published) refl in
          subst goal (sym same) (refl, published)
      | inl fresh ↦ elim (decision_cases (decide_attestation snapshot.figures last min_interval)) [
        | inl (r, e) ↦
            let same : is ≡ after_publish snapshot table answer =
              rw (attest_snapshot, fresh, e) refl in
            let sent : true ≡ not (is_covered min_interval snapshot.figures last) =
              ap publishes (sym e) ∙ throttled in
            subst goal (sym same) (
              after_publish-Settled min_interval answer snapshot table found fresh
                (ground (arith, sent)))
        | inr (a, b, e) ↦
            let same : is ≡ (skipped, table) = rw (attest_snapshot, fresh, e) refl in
            let quiet : false ≡ not (is_covered min_interval snapshot.figures last) =
              ap publishes (sym e) ∙ throttled in
            subst goal (sym same)
              (covered min_interval answer snapshot table fresh (ground (arith, quiet)))
      ]
    ]

-- A run on a stored snapshot, whatever was published before and in whatever order, with the publisher
-- enabled and configured: it reports the transaction that the snapshot has; or it skips the snapshot,
-- and then the published snapshot of the wallet that has the highest block agrees with it in all
-- figures and is less than the interval older; or the snapshot that it was compared with differed or
-- was at least the interval old, and then it is sent and carries its transaction, or the run fails
-- with the publisher's error and leaves the table as it is. The database is taken to answer.
pub attestation_worker-Settled :
    (settings : Settings) (send : ContractArgs → Broadcast) (job_name id : String)
    (table : List RiskSnapshot) (snapshot : RiskSnapshot)
    → str_eq job_name "risk.attest" ≡ true
    → settings.publisher_enabled ≡ true
    → settings.configured ≡ true
    → find_unique id table ≡ some snapshot
    → Settled settings.min_interval_blocks
        (publish send (attestation_input snapshot))
        snapshot
        table
        (attestation_worker settings send job_name id table)
unfolding Settled attestation_worker attest_snapshot
attestation_worker-Settled settings send job_name id table snapshot job enabled configured found =
    let interval = settings.min_interval_blocks in
    let same : attestation_worker settings send job_name id table
        ≡ attest_snapshot send interval table snapshot =
      rw (attestation_worker, job, enabled, configured, found) refl in
    subst (Settled interval (publish send (attestation_input snapshot)) snapshot table) (sym same) (
      attest_snapshot-Settled send interval table snapshot
        (ap (λ i. find_unique i table) (find_unique-id id table snapshot found) ∙ found))
