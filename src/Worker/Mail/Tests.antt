-- ===== src/Worker/Mail/Tests.antt =====
-- A breach whose mail two workers ask for.
use riskrail.Base.{◌≡◌, refl, ◌+◌, true, ◌||◌, String, none, some, [], ◌∷◌, any, keep, length}
use riskrail.Notify.{AlertSource}
use riskrail.Worker.Mail.{Owner, Breach, Notification, SendResult, Handed, send_alert_email}
use riskrail.Worker.Mail.Once.{MailRun, run, asks, with_key, taken, one_if, run-once}

abbrev owner : Owner
owner = record { id = "u1"; email = some "a@b.c"; notify_by_email = true }

abbrev breach : Breach
breach = record {
  address = "SP1";
  rule_id = "r1";
  source_block = "9";
  metric_label = "riskScoreBps";
  comparison = "gt";
  observed = "7000";
  threshold = "6000";
  source = AlertSource.local;
}

abbrev attempt : MailRun
attempt = record {
  mailer_enabled = true;
  owner = some owner;
  answers = record { accepts = true; result = SendResult.sent; updates = true };
  now = "noon";
  breach = breach;
}

abbrev same_text : String → String
same_text s = s

run-once_example :
    length (keep (with_key "u1:r1:9") (run same_text same_text none (attempt ∷ attempt ∷ []) []))
      + one_if (taken "u1:r1:9" [])
    ≡ one_if (taken "u1:r1:9" [] || any (asks same_text "u1:r1:9") (attempt ∷ attempt ∷ []))
run-once_example = run-once same_text same_text none "u1:r1:9" (attempt ∷ attempt ∷ []) []

asked_for : asks same_text "u1:r1:9" attempt ≡ true
unfolding asks riskrail.Worker.Mail.recipient_of riskrail.Worker.Mail.notification_key
asked_for = refl
