-- ===== src/Notify.antt =====
-- packages/notifications/src/index.ts and the job identifiers of packages/queue/src/index.ts. The
-- hash is a parameter, and the transport of the mail is left out.
pub mod Safe
mod Tests
use Prim.Native.Char.{Char, code}
use Prim.Native.String.{count}
use riskrail.Base.{
  ℕ, zero, suc, ◌+◌, ◌-◌, Bool, true, false, not, ◌&&◌, String, Option, none, some, List, [], ◌∷◌,
  map, keep, ltb, ◌==◌, if◌then◌else◌,
}
use riskrail.Base.Text.{join, is_empty}

-- `text.replace(/c/g, by)` of one character
unfoldable pub replace_char : ℕ → String → String → String
replace_char n by String.[] = String.[]
replace_char n by (String.◌∷◌ c s) =
    let rest = replace_char n by s in if code c == n then join by rest else String.◌∷◌ c rest

unfoldable pub escape_html : String → String
unfolding replace_char
escape_html value =
    replace_char 34 "&quot;"
      (replace_char 62 "&gt;" (replace_char 60 "&lt;" (replace_char 38 "&amp;" value)))

pub data AlertSource : Type 0 where
  local on_chain : AlertSource

pub record AlertEmailInput : Type 0 where
  pub address : String
  pub metric_label : String
  pub comparison : String
  pub observed : String
  pub threshold : String
  pub source : AlertSource
  pub dashboard_url : String

pub record RenderedEmail : Type 0 where
  pub subject : String
  pub text : String
  pub html : String

abbrev take_chars : ℕ → String → String
take_chars zero s = String.[]
take_chars (suc n) String.[] = String.[]
take_chars (suc n) (String.◌∷◌ c s) = String.◌∷◌ c (take_chars n s)

abbrev drop_chars : ℕ → String → String
drop_chars zero s = s
drop_chars (suc n) String.[] = String.[]
drop_chars (suc n) (String.◌∷◌ c s) = drop_chars n s

-- the first seven and the last five characters of a long address
unfoldable pub short_address : String → String
short_address s =
    if ltb 16 (count s) then join (take_chars 7 s) (join "…" (drop_chars (count s - 5) s)) else s

unfoldable pub origin_text : AlertSource → String
origin_text on_chain = "your on-chain risk policy"
origin_text local = "a Rivisk alert rule"

-- A piece of the page: markup of the template, or a value that it escapes.
pub data Piece : Type 0 where
  markup value : String → Piece

unfoldable pub page : List Piece → String
unfolding escape_html
page [] = String.[]
page (markup s ∷ rest) = join s (page rest)
page (value s ∷ rest) = join (escape_html s) (page rest)

unfoldable pub template : AlertEmailInput → List Piece
unfolding short_address origin_text
template input =
    markup
      "<!doctype html><html><body style=\"margin:0;background:#07111F;color:#F8FAFC;font-family:ui-sans-serif,system-ui,sans-serif\">\n<div style=\"max-width:560px;margin:0 auto;padding:32px 24px\">\n  <p style=\"margin:0 0 24px;font-size:13px;letter-spacing:.12em;text-transform:uppercase;color:#94A3B8\">Rivisk alert</p>\n  <h1 style=\"margin:0 0 16px;font-size:22px;line-height:1.3;font-weight:600\">"
    ∷ value input.metric_label
    ∷ markup " "
    ∷ value input.comparison
    ∷ markup " "
    ∷ value input.threshold
    ∷ markup
        "</h1>\n  <p style=\"margin:0 0 20px;font-size:15px;line-height:1.7;color:#94A3B8\">\n    "
    ∷ value input.metric_label
    ∷ markup " for <span style=\"color:#F8FAFC\">"
    ∷ value (short_address input.address)
    ∷ markup "</span>\n    is now <span style=\"color:#F8FAFC\">"
    ∷ value input.observed
    ∷ markup
        "</span>.\n  </p>\n  <p style=\"margin:0 0 24px;font-size:13px;line-height:1.7;color:#94A3B8\">\n    Triggered by "
    ∷ markup (origin_text input.source)
    ∷ markup ".\n  </p>\n  <a href=\""
    ∷ value input.dashboard_url
    ∷ markup
        "\" style=\"display:inline-block;background:#22D3EE;color:#07111F;text-decoration:none;font-weight:600;font-size:14px;padding:11px 18px;border-radius:10px\">Review the position</a>\n  <p style=\"margin:28px 0 0;font-size:12px;line-height:1.7;color:#64748B\">\n    Rivisk is read-only and never moves funds. Metrics are estimates derived\n    from on-chain state and external price sources. This is not financial advice.\n  </p>\n</div></body></html>"
    ∷ []

-- `lines.join('\\n')`
abbrev join_lines : List String → String
join_lines [] = ""
join_lines (s ∷ []) = s
join_lines (s ∷ t ∷ rest) = join s (join "\n" (join_lines (t ∷ rest)))

unfoldable pub subject_of : AlertEmailInput → String
subject_of input =
    join "Rivisk: "
      (join input.metric_label (join " " (join input.comparison (join " " input.threshold))))

unfoldable pub text_of : AlertEmailInput → String
unfolding short_address origin_text
text_of input = join_lines (
    join input.metric_label (
      join " for " (join (short_address input.address) (join " is now " (join input.observed "."))))
    ∷ ""
    ∷ join "Rule: alert when "
        (join input.metric_label (join " " (join input.comparison (join " " input.threshold))))
    ∷ join "Source: " (origin_text input.source)
    ∷ ""
    ∷ join "Review the position: " input.dashboard_url
    ∷ ""
    ∷ "Rivisk is read-only and never moves funds. This is analytics, not"
    ∷ "financial advice."
    ∷ [])

unfoldable pub render_alert_email : AlertEmailInput → RenderedEmail
unfolding subject_of text_of page template
render_alert_email input = record {
  subject = subject_of input;
  text = text_of input;
  html = page (template input);
}

-- `dedupeKey`
unfoldable pub dedupe_key : (String → String) → (user_id rule_id source_block : String) → String
dedupe_key hash user_id rule_id source_block =
    take_chars 32 (hash (join user_id (join ":" (join rule_id (join ":" source_block)))))

-- the parts that are given and not empty, as texts
abbrev given_parts : List (Option String) → List String
given_parts [] = []
given_parts (none ∷ rest) = given_parts rest
given_parts (some s ∷ rest) = if is_empty s then given_parts rest else s ∷ given_parts rest

abbrev join_dashes : List String → String
join_dashes [] = ""
join_dashes (s ∷ []) = s
join_dashes (s ∷ t ∷ rest) = join s (join "-" (join_dashes (t ∷ rest)))

-- `jobId`, of parts that are texts or missing
unfoldable pub job_id : List (Option String) → String
unfolding replace_char
job_id parts = join_dashes (map (replace_char 58 "-") (given_parts parts))
