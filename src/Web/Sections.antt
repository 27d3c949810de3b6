-- ===== src/Web/Sections.antt =====
-- apps/web/lib/dashboard-sections.ts: the sections of the dashboard and their paths.
pub mod Paths
use Prim.Native.String.{◌++◌ as append}
use text.Mathlib.Text.{◌==◌}
use riskrail.Base.{
  Bool, true, false, String, Option, none, some, List, [], ◌∷◌, find, if◌then◌else◌,
}
use riskrail.Base.Text.{is_empty, join, split_on, after_prefix}

pub record DashboardSection : Type 0 where
  pub segment : String
  pub label : String
  pub description : String
  pub account : Bool

abbrev section : (segment label description : String) → DashboardSection
section segment label description = record {
  segment = segment;
  label = label;
  description = description;
  account = false;
}

abbrev pub overview : DashboardSection
overview = section "" "Overview" "Portfolio value, risk and exposure at a glance."

abbrev pub dashboard_sections : List DashboardSection
dashboard_sections =
    overview
    ∷ section "positions" "Positions" "Every position the protocol adapters found for this wallet."
    ∷ section "stress" "Stress tests"
        "How the portfolio and its lending positions respond to price shocks."
    ∷ section "alerts" "Alerts"
        "Thresholds that notify you in the app, by email or by webhook when crossed."
    ∷ section "policy" "Risk policy"
        "Guardrails the wallet writes on chain, for contracts to check before acting."
    ∷ (record {
      segment = "developers";
      label = "Developers";
      description = "API keys, webhooks and notification settings for your account.";
      account = true;
    })
    ∷ []

abbrev pub section_path : String → String
section_path segment = if is_empty segment then "/dashboard" else join "/dashboard/" segment

unfoldable pub section_href : (encode : String → String) → (segment address : String) → String
section_href encode segment address =
    if is_empty address
    then section_path segment
    else join (section_path segment) (join "?address=" (encode address))

-- a text without one slash at its start
abbrev pub without_slash : String → String
without_slash s = elim (after_prefix "/" s) [ none ↦ s | some rest ↦ rest ]

-- `pathname.replace(/^\/dashboard\/?/, "")`
unfoldable pub below_dashboard : String → String
below_dashboard pathname = elim (after_prefix "/dashboard" pathname) [
  | none ↦ pathname
  | some rest ↦ without_slash rest
]

abbrev pub first_part : List String → String
first_part [] = ""
first_part (s ∷ rest) = s

-- the section with this segment; unknown ones are the overview
unfoldable pub section_of : String → DashboardSection
section_of segment =
    elim (find (λ (s : DashboardSection). s.segment == segment) dashboard_sections) [
      | none ↦ overview
      | some s ↦ s
    ]

unfoldable pub section_for_path : String → DashboardSection
unfolding below_dashboard section_of split_on
section_for_path pathname = section_of (first_part (split_on 47 (below_dashboard pathname)))
