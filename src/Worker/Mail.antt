-- ===== src/Worker/Mail.antt =====
-- `sendAlertEmail` of apps/worker/src/main.ts, with `send` of packages/notifications/src/index.ts. The
-- hash, `encodeURIComponent` and the answers of the database and of the mail server are arguments;
-- the state is the table of notifications, whose keys are unique.
pub mod Once
mod Tests
use text.Mathlib.Text.{◌==◌}
use riskrail.Base.{
  Bool, true, false, not, ◌||◌, String, Option, none, some, ◌>>=◌, List, [], ◌∷◌, any, or_default,
  if◌then◌else◌,
}
use riskrail.Base.Text.{join, is_empty}
use riskrail.Notify.{AlertEmailInput, AlertSource, RenderedEmail, render_alert_email, dedupe_key}

-- the user of a wallet
pub record Owner : Type 0 where
  pub id : String
  pub email : Option String
  pub notify_by_email : Bool

pub record Breach : Type 0 where
  pub address : String
  pub rule_id : String
  pub source_block : String
  pub metric_label : String
  pub comparison : String
  pub observed : String
  pub threshold : String
  pub source : AlertSource

pub record Notification : Type 0 where
  pub user_id : String
  pub channel : String
  pub subject : String
  pub body : String
  pub dedupe_key : String
  pub sent_at : Option String
  pub error : Option String

-- what `mailer.send` gives: it never throws
pub data SendResult : Type 0 where
  sent : SendResult
  unsent : Option String → SendResult

-- What the database and the mail server answer to a call: whether the database takes the new row,
-- what the mail server says, and whether the database takes the update. A command that fails
-- changes nothing.
pub record Answers : Type 0 where
  pub accepts : Bool
  pub result : SendResult
  pub updates : Bool

-- a mail that is handed to the server, with the key of its notification
pub record Handed : Type 0 where
  pub key : String
  pub recipient : String
  pub email : RenderedEmail

abbrev pub has_key_of : String → Notification → Bool
has_key_of key n = n.dedupe_key == key

-- the address of an owner who takes mails
unfoldable pub recipient_of : Option Owner → Option (String × String)
recipient_of none = none
recipient_of (some owner) = owner.email >>= λ email.
    if is_empty email || not owner.notify_by_email then none else some (owner.id, email)

-- `notification.create`: `none` where it throws, be it that the key is taken or for another reason
unfoldable pub create_notification :
    (accepts : Bool) → Notification → List Notification → Option (List Notification)
create_notification accepts n table =
    if any (has_key_of n.dedupe_key) table || not accepts then none else some (n ∷ table)

-- the data of `notification.update`
abbrev noted : SendResult → String → Notification → Notification
noted sent now n = record n { sent_at = some now }
noted (unsent error) now n = record n { error = some (or_default error "unknown") }

unfoldable pub update_notification :
    String → SendResult → String → List Notification → List Notification
update_notification key result now [] = []
update_notification key result now (n ∷ table) =
    let rest = update_notification key result now table in
    if has_key_of key n then noted result now n ∷ table else n ∷ rest

unfoldable pub email_of : (encode : String → String) → Option String → Breach → RenderedEmail
unfolding render_alert_email
email_of encode web_url b = render_alert_email (record {
  address = b.address;
  metric_label = b.metric_label;
  comparison = b.comparison;
  observed = b.observed;
  threshold = b.threshold;
  source = b.source;
  dashboard_url =
      join (or_default web_url "http://localhost:3000")
        (join "/dashboard?address=" (encode b.address));
})

unfoldable pub notification_key : (hash : String → String) → String → Breach → String
unfolding dedupe_key
notification_key hash user_id b = dedupe_key hash user_id b.rule_id b.source_block

unfoldable pub new_notification : String → RenderedEmail → String → Notification
new_notification user_id email key = record {
  user_id = user_id;
  channel = "email";
  subject = email.subject;
  body = email.text;
  dedupe_key = key;
  sent_at = none;
  error = none;
}

module _ (hash encode : String → String) (web_url : Option String) where
  -- after the owner is read
  unfoldable pub send_to :
      (user_id recipient : String)
      → Answers
      → String
      → Breach
      → List Notification
      → List Notification × Option Handed
  unfolding email_of notification_key new_notification create_notification update_notification
  send_to user_id recipient answers now b table =
      let key = notification_key hash user_id b in
      let email = email_of encode web_url b in
      elim (create_notification answers.accepts (new_notification user_id email key) table) [
        | none ↦ (table, none)
        | some created ↦ (
          if answers.updates then update_notification key answers.result now created else created,
          some (record { key = key; recipient = recipient; email = email }),
        )
      ]

  -- `sendAlertEmail`; an owner that cannot be read is like none
  unfoldable pub send_alert_email :
      (mailer_enabled : Bool)
      → Option Owner
      → Answers
      → String
      → Breach
      → List Notification
      → List Notification × Option Handed
  unfolding recipient_of send_to
  send_alert_email false owner answers now b table = (table, none)
  send_alert_email true owner answers now b table = elim (recipient_of owner) [
    | none ↦ (table, none)
    | some (user_id, recipient) ↦ send_to user_id recipient answers now b table
  ]
