-- ===== src/Api/Alerts/Ownership.antt =====
-- An account changes its own rules only.
use text.Mathlib.Text.{◌==◌}
use riskrail.Base.{
  ◌≡◌, refl, sym, true, not, String, some, List, [], ◌∷◌, find, keep, Bool-cases, Option-cases, inl,
  inr, subst, arith,
}
use riskrail.Api.Alerts.{
  AlertStatus, AlertRule, WalletOwner, written, owns, set_status, update_status,
}

-- the rules of the wallets that an account does not own
abbrev pub rules_of_others : List WalletOwner → String → List AlertRule → List AlertRule
rules_of_others wallets user rules =
    keep (λ (r : AlertRule). not (owns user r.wallet wallets)) rules

set_status-others :
    (wallets : List WalletOwner) (user id : String) (status : AlertStatus) (rules : List AlertRule)
    (rule : AlertRule)
    → find (λ (r : AlertRule). r.id == id) rules ≡ some rule
    → owns user rule.wallet wallets ≡ true
    → rules_of_others wallets user (set_status id status rules) ≡ rules_of_others wallets user rules
unfolding set_status
set_status-others wallets user id status [] rule h own = refl
set_status-others wallets user id status (r ∷ rules) rule h own = elim (Bool-cases (r.id == id)) [
  | inl e ↦
      let same : r ≡ rule = ground (arith, h, e) in
      let mine = subst (λ (x : AlertRule). owns user x.wallet wallets ≡ true) (sym same) own in
      rw (e, mine)
  | inr e ↦
      let later : find (λ (x : AlertRule). x.id == id) rules ≡ some rule = ground (arith, h, e) in
      rw (e, set_status-others wallets user id status rules rule later own)
]

-- Changing the status of a rule leaves the rules of every wallet that the account does not own as
-- they are, and is refused for a rule of such a wallet.
pub update_status-others :
    (wallets : List WalletOwner) (user id : String) (status : AlertStatus)
    (rules changed : List AlertRule)
    → update_status wallets user id status rules ≡ written changed
    → rules_of_others wallets user changed ≡ rules_of_others wallets user rules
unfolding update_status
update_status-others wallets user id status rules changed h =
    elim (Option-cases (find (λ (r : AlertRule). r.id == id) rules)) [
      | inl e ↦ absurd (ground (arith, rw (update_status, e) at h))
      | inr (rule, e) ↦ elim (Bool-cases (owns user rule.wallet wallets)) [
        | inl own ↦
            let same : set_status id status rules ≡ changed =
              ground (arith, rw (update_status, e, own) at h) in
            subst (λ rs. rules_of_others wallets user rs ≡ rules_of_others wallets user rules) same
              (set_status-others wallets user id status rules rule e own)
        | inr other ↦ absurd (ground (arith, rw (update_status, e, other) at h))
      ]
    ]
