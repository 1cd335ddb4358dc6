-- ===== src/Case/ViolationTicket/Additions.antt =====
-- What the methods of a violation ticket that add messages, photos and activities do on each
-- branch. An item that was put into its array stays there when a later setter throws.
use cellixjs.Base.{
  ℕ, Bool, true, false, ◌&&◌, String, List, [], ◌∷◌, ◌++◌, ◌≡◌, arith, succeeds, done, thrown,
  permission_error, Option, some, none, if◌then◌else◌, lookup, eq_iff, ◌∙◌,
}
use cellixjs.ValueObjects.{ValueObjects}
use cellixjs.Iam.Permissions.{MemberReference}
use cellixjs.Iam.Visas.{Passport, member_passport, system_passport, for_ticket}
use cellixjs.Iam.Facts.{IsPerson, person-eq-false}
use cellixjs.Case.Parts.{allows, ActivityDetail, activity_type_for, system_or_manager}
use cellixjs.Case.Log.{update_last-append}
use cellixjs.Case.ViolationTicket.State.{
  ViolationTicketV1, Message, Photo, reference, determine_if, status_mappings,
  valid_status_transitions,
}
use cellixjs.Case.ViolationTicket.Items.{sent_by_codes, message_rule}
use cellixjs.Case.ViolationTicket.Methods.{
  may_add, may_transition, request_add_message, request_add_photo, request_add_status_transition,
}

-- The setter of a message's createdAt asks for a system account, so `requestAddMessage` throws for
-- every member, staff user and guest, also for those whom its own test lets through.
pub people_cannot_add_messages :
    (vo : ValueObjects) (passport : Passport) (item : Message) (now : ℕ) (message sent_by : String)
    (embedding initiated_by : Option String) (t : ViolationTicketV1)
    → IsPerson passport
    → succeeds (request_add_message vo passport item now message sent_by embedding initiated_by t)
      ≡ false
unfolding request_add_message
people_cannot_add_messages vo passport item now message sent_by none none t h =
    ground (arith, person-eq-false passport (reference t) h)
people_cannot_add_messages vo passport item now message sent_by none (some by) t h =
    ground (arith, person-eq-false passport (reference t) h)
people_cannot_add_messages vo passport item now message sent_by (some e) none t h =
    ground (arith, person-eq-false passport (reference t) h)
people_cannot_add_messages vo passport item now message sent_by (some e) (some by) t h =
    ground (arith, person-eq-false passport (reference t) h)

-- `requestAddPhoto` succeeds exactly where the visa grants both its own test and
-- canManageTickets, which the two setters of a photo ask for.
pub request_add_photo-succeeds :
    (passport : Passport) (item : Photo) (document_id description : String) (t : ViolationTicketV1)
    → succeeds (request_add_photo passport item document_id description t)
      ≡ (determine_if passport may_add t && determine_if passport (λ p. p.can_manage_tickets) t)
unfolding request_add_photo
request_add_photo-succeeds passport item document_id description t = ground arith

-- The ticket with one more message.
abbrev pub with_message : ViolationTicketV1 → Message → ViolationTicketV1
with_message t m = record t { props = record t.props { messages = t.props.messages ++ m ∷ [] } }

abbrev pub filled_message : Message → ℕ → String → String → Option String → Option String → Message
filled_message item now text sender embedding initiated_by = record item {
  sent_by = sender;
  message = text;
  embedding = embedding;
  initiated_by = initiated_by;
  created_at = now;
  is_hidden_from_applicant = false;
}

-- With a system account's permissions and values that the value objects accept, `requestAddMessage`
-- adds one message to the end, filled and not hidden, and changes nothing else.
pub system_adds_message :
    (vo : ValueObjects) (spec : List (String × Bool)) (item : Message) (now : ℕ)
    (message sent_by embedding by text sender vector : String) (t : ViolationTicketV1)
    → lookup "isSystemAccount" spec ≡ some true
    → vo.vo_set sent_by_codes sent_by ≡ some sender
    → vo.vo_string message_rule message ≡ some text
    → vo.vo_string message_rule embedding ≡ some vector
    → request_add_message vo
        (system_passport spec)
        item
        now
        message
        sent_by
        (some embedding)
        (some by)
        t
      ≡ done tt (with_message t (filled_message item now text sender (some vector) (some by)))
unfolding request_add_message for_ticket
system_adds_message vo spec item now message sent_by embedding by text sender vector t h p q r =
    let f1 = λ (m : Message). record m { sent_by = sender } in
    let f2 = λ (m : Message). record m { message = text } in
    let f3 = λ (m : Message). record m { embedding = some vector } in
    let f4 = λ (m : Message). record m { initiated_by = some by } in
    let f5 = λ (m : Message). record m { created_at = now } in
    let f6 = λ (m : Message). record m { is_hidden_from_applicant = false } in
    ground (
      arith,
      update_last-append f1 item t.props.messages,
      update_last-append f2 (f1 item) t.props.messages,
      update_last-append f3 (f2 (f1 item)) t.props.messages,
      update_last-append f4 (f3 (f2 (f1 item))) t.props.messages,
      update_last-append f5 (f4 (f3 (f2 (f1 item)))) t.props.messages,
      update_last-append f6 (f5 (f4 (f3 (f2 (f1 item))))) t.props.messages,
    )

-- The ticket with a new status and one more activity.
abbrev pub moved : ViolationTicketV1 → String → ActivityDetail → ViolationTicketV1
moved t status e = record t {
  props = record t.props { status = status; activity_log = t.props.activity_log ++ e ∷ [] };
}

-- `requestAddStatusTransition` on its three branches. Where its own test fails it throws and
-- changes nothing. Where that passes but the visa grants neither a system account nor
-- canManageTickets, the setter of the new entry throws, and the ticket is left with the new status
-- and a blank entry by the member. Otherwise it returns, with the new status and one filled entry.
pub violation_transition_branches :
    (passport : Passport) (item : ActivityDetail) (new_status description by : String)
    (t : ViolationTicketV1)
    → request_add_status_transition passport item new_status description by t ≡ (
        if determine_if passport (may_transition t.props.status new_status) t
        then (if determine_if passport system_or_manager t
            then done tt (
                moved t new_status (record item {
                  activity_type = activity_type_for status_mappings new_status;
                  activity_description = description;
                  activity_by = by;
                }))
            else thrown
                (permission_error "You do not have permission to modify this activity detail")
                (moved t new_status (record item { activity_by = by })))
        else thrown
            (permission_error
              "You do not have permission to change the status of this violation ticket or the status transition is invalid")
            t)
unfolding request_add_status_transition
violation_transition_branches passport item new_status description by t = ground (
  arith,
  update_last-append (λ a. record a { activity_by = by }) item t.props.activity_log,
  update_last-append (λ a. record a { activity_description = description })
      (record item { activity_by = by }) t.props.activity_log,
  update_last-append
      (λ a. record a { activity_type = activity_type_for status_mappings new_status })
      (record item { activity_by = by; activity_description = description }) t.props.activity_log,
)

-- A member's valid transition of its own violation ticket, of its own community, always throws,
-- after the status and a blank entry by the member have been written.
pub member_transition_half_done :
    (user : String) (member : MemberReference) (community : String) (item : ActivityDetail)
    (new_status description by : String) (t : ViolationTicketV1)
    → t.props.community_id ≡ member.community_id
    → t.props.requestor_id ≡ member.id
    → allows valid_status_transitions t.props.status new_status ≡ true
    → request_add_status_transition
        (member_passport user member community)
        item
        new_status
        description
        by
        t
      ≡ thrown
          (permission_error "You do not have permission to modify this activity detail")
          (moved t new_status (record item { activity_by = by }))
unfolding for_ticket
member_transition_half_done user member community item new_status description by t p q r =
    violation_transition_branches (member_passport user member community) item new_status
      description by t
    ∙ ground (
      arith,
      eq_iff member.community_id t.props.community_id,
      eq_iff t.props.requestor_id member.id,
    )
