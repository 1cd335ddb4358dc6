-- ===== src/Case/ViolationTicket/Items.antt =====
-- violation-ticket-v1-activity-detail.ts, violation-ticket-v1-message.ts and
-- violation-ticket-v1-photo.ts: the items that the ticket's methods add. Each is first put blank at
-- the end of its array by `getNewItem`, and then filled by setters, most of which ask the visa.
use cellixjs.Base.{
  ℕ, Bool, true, false, String, List, [], ◌∷◌, ◌++◌, Option, none, some, Exec, ◌>>=◌, ◌>>◌, pure,
  construct,
}
use cellixjs.ValueObjects.{StringRule, ValueObjects}
use cellixjs.Iam.Visas.{Passport}
use cellixjs.Case.Parts.{ActivityDetail, update_last, system_or_manager}
use cellixjs.Case.ViolationTicket.State.{Message, Photo, ViolationTicketV1, permitted, change_props}

abbrev pub append_activity : ActivityDetail → Exec ViolationTicketV1 (Unit {0})
append_activity item = change_props (λ p. record p { activity_log = p.activity_log ++ item ∷ [] })

abbrev pub change_activity : (ActivityDetail → ActivityDetail) → Exec ViolationTicketV1 (Unit {0})
change_activity f = change_props (λ p. record p { activity_log = update_last f p.activity_log })

abbrev pub append_message : Message → Exec ViolationTicketV1 (Unit {0})
append_message item = change_props (λ p. record p { messages = p.messages ++ item ∷ [] })

abbrev pub change_message : (Message → Message) → Exec ViolationTicketV1 (Unit {0})
change_message f = change_props (λ p. record p { messages = update_last f p.messages })

abbrev pub append_photo : Photo → Exec ViolationTicketV1 (Unit {0})
append_photo item = change_props (λ p. record p { photos = p.photos ++ item ∷ [] })

abbrev pub change_photo : (Photo → Photo) → Exec ViolationTicketV1 (Unit {0})
change_photo f = change_props (λ p. record p { photos = update_last f p.photos })

-- SentByCodes, and the rule of Message and Embedding.
abbrev pub sent_by_codes : List String
sent_by_codes = "external" ∷ "internal" ∷ []

abbrev pub message_rule : StringRule
message_rule = record { trim = true; min_length = none; max_length = 2000 }

module _ (passport : Passport) where
  -- ViolationTicketV1ActivityDetail: the setters of activityType and activityDescription.
  abbrev pub set_activity_type : String → Exec ViolationTicketV1 (Unit {0})
  set_activity_type code = do
    permitted passport system_or_manager "You do not have permission to modify this activity detail"
    change_activity (λ a. record a { activity_type = code })

  abbrev pub set_activity_description : String → Exec ViolationTicketV1 (Unit {0})
  set_activity_description description = do
    permitted passport system_or_manager "You do not have permission to modify this activity detail"
    change_activity (λ a. record a { activity_description = description })

  -- ViolationTicketV1Message: the setters, whose tests differ.
  abbrev pub may_modify_message : Exec ViolationTicketV1 (Unit {0})
  may_modify_message =
      permitted passport system_or_manager "You do not have permission to modify this message"

  abbrev pub set_message_created_at : ℕ → Exec ViolationTicketV1 (Unit {0})
  set_message_created_at now = do
    permitted passport (λ p. p.is_system_account)
        "You do not have permission to modify this message timestamp"
    change_message (λ m. record m { created_at = now })

  abbrev pub set_hidden : Bool → Exec ViolationTicketV1 (Unit {0})
  set_hidden value = do
    permitted passport system_or_manager
        "You do not have permission to modify this message visibility"
    change_message (λ m. record m { is_hidden_from_applicant = value })

  abbrev pub set_embedding : ValueObjects → Option String → Exec ViolationTicketV1 (Unit {0})
  set_embedding vo none = pure tt
  set_embedding vo (some raw) = do
    embedding ← construct (vo.vo_string message_rule raw)
    may_modify_message
    change_message (λ m. record m { embedding = some embedding })

  abbrev pub set_initiated_by : Option String → Exec ViolationTicketV1 (Unit {0})
  set_initiated_by none = pure tt
  set_initiated_by (some member) = change_message (λ m. record m { initiated_by = some member })

  -- ViolationTicketV1Message.getNewInstance; `now` is `new Date()`.
  unfoldable pub new_message :
      ValueObjects
      → ℕ
      → String
      → String
      → Option String
      → Option String
      → Exec ViolationTicketV1 (Unit {0})
  new_message vo now message sent_by embedding initiated_by = do
    sender ← construct (vo.vo_set sent_by_codes sent_by)
    may_modify_message
    change_message (λ m. record m { sent_by = sender })
    text ← construct (vo.vo_string message_rule message)
    may_modify_message
    change_message (λ m. record m { message = text })
    set_embedding vo embedding
    set_initiated_by initiated_by
    set_message_created_at now
    set_hidden false

  -- ViolationTicketV1Photo.getNewInstance.
  unfoldable pub new_photo : String → String → Exec ViolationTicketV1 (Unit {0})
  new_photo document_id description = do
    permitted passport (λ p. p.can_manage_tickets)
        "You do not have permission to update photo document ID"
    change_photo (λ f. record f { document_id = document_id })
    permitted passport (λ p. p.can_manage_tickets)
        "You do not have permission to update photo description"
    change_photo (λ f. record f { description = description })
