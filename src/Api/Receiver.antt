-- ===== src/Api/Receiver.antt =====
-- apps/api/src/modules/chainhook/chainhook.controller.ts: which deliveries are let through. Texts are
-- equal if their bytes are.
pub mod Rotation
mod Tests
use text.Mathlib.Text.{◌==◌}
use riskrail.Base.{
  Bool, true, false, not, ◌&&◌, String, Option, none, some, List, [], ◌∷◌, map, keep, any,
  or_default, if◌then◌else◌,
}
use riskrail.Base.Text.{is_empty, trim, split_on, after_prefix}
use riskrail.Api.Chainhook.{
  AffectedWallets, RegistryConfirmations, RefreshJob, IngestResult, SnapshotRow, ConfirmResult,
  ingest, confirm_attestations,
}

-- the tokens of `CHAINHOOK_AUTH_TOKEN`
unfoldable pub accepted_tokens : Option String → List String
unfolding split_on
accepted_tokens setting =
    keep (λ token. not (is_empty token)) (map trim (split_on 44 (or_default setting "")))

unfoldable pub authorized : (setting header : Option String) → Bool
unfolding accepted_tokens
authorized setting none = false
authorized setting (some value) = elim (after_prefix "Bearer " value) [
  | none ↦ false
  | some presented ↦ any (λ token. token == presented) (accepted_tokens setting)
]

-- `riskRegistry`, of the confirmations in its body; `none` is the refusal
unfoldable pub risk_registry :
    (setting header : Option String)
    → RegistryConfirmations
    → List SnapshotRow
    → Option (List SnapshotRow × ConfirmResult)
unfolding authorized confirm_attestations
risk_registry setting header registry table =
    if authorized setting header then some (confirm_attestations registry table) else none

-- `riskPolicy` and `protocol`, which name their source
unfoldable pub ingest_route :
    (setting header : Option String)
    → (is_principal : String → Bool) → (tracked : List String) → (source : String) → AffectedWallets
    → Option (List RefreshJob × IngestResult)
unfolding authorized ingest
ingest_route setting header is_principal tracked source affected =
    if authorized setting header then some (ingest is_principal tracked source affected) else none
