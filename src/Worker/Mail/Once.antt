-- ===== src/Worker/Mail/Once.antt =====
-- However often workers ask for the mail of one breach, it is handed over once.
use text.Mathlib.Text.{◌==◌}
use riskrail.Base.{
  ◌≡◌, refl, ap, sym, subst, ℕ, ◌+◌, Bool, true, false, not, ◌&&◌, ◌||◌, String, Option, none, some,
  List, [], ◌∷◌, any, keep, length, if◌then◌else◌, Bool-cases, Option-cases, inl, inr, eq_iff,
  arith,
}
use riskrail.Worker.Mail.{
  Owner, Breach, Notification, SendResult, Answers, Handed, has_key_of, recipient_of,
  create_notification, update_notification, new_notification, email_of, notification_key, send_to,
  send_alert_email,
}

-- one call, with what the database and the mail server answer
pub record MailRun : Type 0 where
  pub mailer_enabled : Bool
  pub owner : Option Owner
  pub answers : Answers
  pub now : String
  pub breach : Breach

abbrev pub with_handed : Option Handed → List Handed → List Handed
with_handed none rest = rest
with_handed (some h) rest = h ∷ rest

abbrev pub with_key : String → Handed → Bool
with_key key h = h.key == key

abbrev pub taken : String → List Notification → Bool
taken key table = any (has_key_of key) table

abbrev pub one_if : Bool → ℕ
one_if true = 1
one_if false = 0

taken-update :
    (key other : String) (result : SendResult) (now : String) (table : List Notification)
    → taken key (update_notification other result now table) ≡ taken key table
unfolding update_notification
taken-update key other SendResult.sent now [] = refl
taken-update key other (SendResult.unsent e) now [] = refl
taken-update key other SendResult.sent now (n ∷ table) =
    ground (arith, taken-update key other SendResult.sent now table)
taken-update key other (SendResult.unsent e) now (n ∷ table) =
    ground (arith, taken-update key other (SendResult.unsent e) now table)

-- the owner takes mails, this is the key of the breach, and the database takes its notification
unfoldable pub asks : (hash : String → String) → String → MailRun → Bool
asks hash key a = a.mailer_enabled && elim (recipient_of a.owner) [
  | none ↦ false
  | some (user_id, recipient) ↦ notification_key hash user_id a.breach == key && a.answers.accepts
]

-- A call hands over a mail of a key that was free and is taken afterwards, or it changes nothing,
-- and then it asks for no key that is free.
abbrev OneCall : (String → Bool) → List Notification → List Notification × Option Handed → Type 0
OneCall wants table (after, none) =
    (after ≡ table) × ((key : String) → (wants key && not (taken key table)) ≡ false)
OneCall wants table (after, some h) =
    (taken h.key table ≡ false)
    × ((key : String) → taken key after ≡ (h.key == key || taken key table))
    × ((key : String) → wants key ≡ (h.key == key))

module _ (hash encode : String → String) (web_url : Option String) where
  -- the mails that a sequence of calls hands over
  unfoldable pub run : List MailRun → List Notification → List Handed
  unfolding send_alert_email
  run [] table = []
  run (a ∷ attempts) table =
      let (after, handed) =
        send_alert_email hash encode web_url a.mailer_enabled a.owner a.answers a.now a.breach
          table in
      with_handed handed (run attempts after)

  send_to-OneCall :
      (user_id recipient : String) (answers : Answers) (now : String) (b : Breach)
      (table : List Notification)
      → OneCall
          (λ k. notification_key hash user_id b == k && answers.accepts)
          table
          (send_to hash encode web_url user_id recipient answers now b table)
  unfolding send_to create_notification new_notification
  send_to-OneCall user_id recipient answers now b table =
      let key = notification_key hash user_id b in
      let call = send_to hash encode web_url user_id recipient answers now b table in
      let email = email_of encode web_url b in
      elim (Bool-cases (taken key table)) [
        | inl e ↦
            let same : call ≡ (table, none) = rw (send_to, e) refl in
            subst (OneCall (λ k. key == k && answers.accepts) table) (sym same)
              (refl, λ k. ground (arith, eq_iff key k, e))
        | inr e ↦ elim (Bool-cases answers.accepts) [
          | inr c ↦
              let same : call ≡ (table, none) = rw (send_to, e, c) refl in
              subst (OneCall (λ k. key == k && answers.accepts) table) (sym same)
                (refl, λ k. ground (arith, c))
          | inl c ↦
              let created = new_notification user_id email key ∷ table in
              let same : call ≡ (
                if answers.updates
                    then update_notification key answers.result now created
                    else created,
                some (record { key = key; recipient = recipient; email = email }),
              ) =
                rw (send_to, e, c) refl in
              subst (OneCall (λ k. key == k && answers.accepts) table) (sym same) (
                e,
                λ k. ground (arith, taken-update k key answers.result now created),
                λ k. ground (arith, c),
              )
        ]
      ]

  send_alert_email-OneCall :
      (a : MailRun) (table : List Notification)
      → OneCall
          (λ k. asks hash k a)
          table
          (send_alert_email hash encode web_url a.mailer_enabled a.owner a.answers a.now a.breach
            table)
  unfolding send_alert_email asks
  send_alert_email-OneCall a table = elim (Bool-cases a.mailer_enabled) [
    | inr e ↦
        let same : send_alert_email hash encode web_url a.mailer_enabled a.owner a.answers a.now
              a.breach table
            ≡ (table, none) =
          rw (send_alert_email, e) refl in
        subst (OneCall (λ k. asks hash k a) table) (sym same) (refl, λ k. ground (arith, e))
    | inl e ↦ elim (Option-cases (recipient_of a.owner)) [
      | inl k' ↦
          let same : send_alert_email hash encode web_url a.mailer_enabled a.owner a.answers a.now
                a.breach table
              ≡ (table, none) =
            rw (send_alert_email, e, k') refl in
          subst (OneCall (λ k. asks hash k a) table) (sym same) (refl, λ k. ground (arith, e, k'))
      | inr ((user_id, recipient), k) ↦
          let same : send_alert_email hash encode web_url a.mailer_enabled a.owner a.answers a.now
                a.breach table
              ≡ send_to hash encode web_url user_id recipient a.answers a.now a.breach table =
            rw (send_alert_email, e, k) refl in
          let wants : (λ k. notification_key hash user_id a.breach == k && a.answers.accepts)
              ≡ (λ k. asks hash k a) =
            rw (asks, e, k) refl in
          subst (OneCall (λ k. asks hash k a) table) (sym same) (
            subst
              (λ w.
                OneCall w table
                  (send_to hash encode web_url user_id recipient a.answers a.now a.breach table))
              wants (send_to-OneCall user_id recipient a.answers a.now a.breach table))
    ]
  ]

  -- the mails of a key after one call, from those after the table that it left
  count-OneCall :
      (key : String) (wants : String → Bool) (later : Bool) (table : List Notification)
      (r : List Notification × Option Handed) (rest : List Handed)
      → OneCall wants table r
      → length (keep (with_key key) rest) + one_if (taken key r.0) ≡ one_if (taken key r.0 || later)
      → length (keep (with_key key) (with_handed r.1 rest)) + one_if (taken key table)
        ≡ one_if (taken key table || (wants key || later))
  count-OneCall key wants later table (after, none) rest one h =
      ground (arith, ap (taken key) one.0, one.1 key, h)
  count-OneCall key wants later table (after, some m) rest one h =
      ground (arith, one.0, one.1 key, one.2 key, eq_iff m.key key, h)

  -- Over any sequence of calls, of any workers in any order, one mail is handed over for a key that
  -- had no notification and that a call asks for whose owner takes mails and whose new notification
  -- the database does not refuse for another reason than its key, and none for any other key; a later
  -- update that fails changes nothing of this.
  pub run-once :
      (key : String) (attempts : List MailRun) (table : List Notification)
      → length (keep (with_key key) (run attempts table)) + one_if (taken key table)
        ≡ one_if (taken key table || any (asks hash key) attempts)
  unfolding run
  run-once key [] table = ground arith
  run-once key (a ∷ attempts) table =
      let r =
        send_alert_email hash encode web_url a.mailer_enabled a.owner a.answers a.now a.breach
          table in
      count-OneCall key (λ k. asks hash k a) (any (asks hash key) attempts) table r
        (run attempts r.0) (send_alert_email-OneCall a table) (run-once key attempts r.0)
