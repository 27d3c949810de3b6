-- ===== src/Notify/Tests.antt =====
-- Runs of the mail and of the identifiers.
use riskrail.Base.{◌≡◌, refl, none, some, [], ◌∷◌}
use riskrail.Notify.{AlertEmailInput, on_chain, local, render_alert_email, escape_html, job_id}
use riskrail.Notify.Safe.{marks, render_alert_email-marks}

abbrev plain_alert : AlertEmailInput
plain_alert = record {
  address = "SP1";
  metric_label = "Health factor";
  comparison = "below";
  observed = "1.1";
  threshold = "1.2";
  source = on_chain;
  dashboard_url = "https://app";
}

abbrev hostile_alert : AlertEmailInput
hostile_alert = record plain_alert {
  metric_label = "<script>";
  observed = "\"><b>";
  source = local;
}

render_alert_email-marks_example :
    marks (render_alert_email hostile_alert).html ≡ marks (render_alert_email plain_alert).html
render_alert_email-marks_example = render_alert_email-marks hostile_alert plain_alert

escapes : escape_html "<a & \"b\">" ≡ "&lt;a &amp; &quot;b&quot;&gt;"
unfolding escape_html
escapes = refl

drops_empty : job_id (some "alerts" ∷ none ∷ some "" ∷ some "a:b" ∷ []) ≡ "alerts-a-b"
unfolding job_id
drops_empty = refl
