-- ===== src/Case/ViolationTicket/State.antt =====
-- violation-ticket-v1.aggregate.ts and violation-ticket-v1.value-objects.ts: the ticket's fields,
-- its status tables and the rules of its value objects.
use cellixjs.Base.{
  ℕ, Bool, true, ◌||◌, String, List, [], ◌∷◌, Option, some, Exec, permission_error, guard, modify,
}
use cellixjs.ValueObjects.{StringRule}
use cellixjs.Seedwork.Aggregate.{AggregateRoot}
use cellixjs.Iam.Permissions.{CaseDomainPermissions, TicketReference}
use cellixjs.Iam.Visas.{Passport, for_ticket}
use cellixjs.Case.Parts.{ActivityDetail, IdPayload}

-- ViolationTicketV1MessageProps. Dates are counts of milliseconds, members are named by id.
pub record Message : Type 0 where
  pub id : String
  pub sent_by : String
  pub initiated_by : Option String
  pub message : String
  pub embedding : Option String
  pub created_at : ℕ
  pub is_hidden_from_applicant : Bool

-- ViolationTicketV1PhotoProps.
pub record Photo : Type 0 where
  pub id : String
  pub document_id : String
  pub description : String

-- ViolationTicketV1FinanceDetailProps, with the one field that the ticket writes.
pub record FinanceDetails : Type 0 where
  pub service_fee : ℕ

-- ViolationTicketV1Props. The revision request is named by its id.
pub record ViolationTicketV1Props : Type 0 where
  pub id : String
  pub community_id : String
  pub property_id : Option String
  pub requestor_id : String
  pub assigned_to_id : Option String
  pub service_id : Option String
  pub title : String
  pub description : String
  pub status : String
  pub priority : ℕ
  pub ticket_type : Option String
  pub activity_log : List ActivityDetail
  pub messages : List Message
  pub photos : List Photo
  pub finance_details : FinanceDetails
  pub revision_request : Option String
  pub created_at : ℕ
  pub updated_at : ℕ
  pub schema_version : String
  pub hash : String
  pub last_indexed : Option ℕ
  pub update_index_failed_date : Option ℕ

-- The aggregate: what AggregateRoot keeps, the props, and the field isNew.
pub record ViolationTicketV1 : Type 0 where
  pub root : AggregateRoot IdPayload
  pub props : ViolationTicketV1Props
  pub is_new : Bool

-- Object.values(StatusCodes).
unfoldable pub status_codes : List String
status_codes = "DRAFT" ∷ "SUBMITTED" ∷ "ASSIGNED" ∷ "COMPLETED" ∷ "CLOSED" ∷ "PAID" ∷ []

-- Title, Description and StatusCode.
abbrev pub title_rule : StringRule
title_rule = record { trim = true; min_length = some 5; max_length = 200 }

abbrev pub description_rule : StringRule
description_rule = record { trim = true; min_length = some 1; max_length = 2000 }

-- validStatusTransitions.
unfoldable pub valid_status_transitions : List (String × List String)
valid_status_transitions =
    ("DRAFT", "SUBMITTED" ∷ [])
    ∷ ("SUBMITTED", "DRAFT" ∷ "ASSIGNED" ∷ [])
    ∷ ("ASSIGNED", "SUBMITTED" ∷ "PAID" ∷ [])
    ∷ ("PAID", "ASSIGNED" ∷ "CLOSED" ∷ [])
    ∷ ("CLOSED", "ASSIGNED" ∷ [])
    ∷ []

-- statusMappings.
unfoldable pub status_mappings : List (String × String)
status_mappings =
    ("DRAFT", "CREATED")
    ∷ ("SUBMITTED", "SUBMITTED")
    ∷ ("ASSIGNED", "ASSIGNED")
    ∷ ("PAID", "PAID")
    ∷ ("CLOSED", "CLOSED")
    ∷ []

-- What the visa reads of the ticket, at the time that it is asked.
abbrev pub reference : ViolationTicketV1 → TicketReference
reference t = record {
  community_id = t.props.community_id;
  requestor_id = t.props.requestor_id;
  assigned_to_id = t.props.assigned_to_id;
}

-- this.visa.determineIf(func).
abbrev pub determine_if : Passport → (CaseDomainPermissions → Bool) → ViolationTicketV1 → Bool
determine_if passport func t = for_ticket passport (reference t) func

-- `if (!this.visa.determineIf(func)) throw new PermissionError(message)`.
abbrev pub permitted :
    Passport → (CaseDomainPermissions → Bool) → String → Exec ViolationTicketV1 (Unit {0})
permitted passport func message = guard (determine_if passport func) (permission_error message)

-- The same behind `!this.isNew &&`.
abbrev pub new_or_permitted :
    Passport → (CaseDomainPermissions → Bool) → String → Exec ViolationTicketV1 (Unit {0})
new_or_permitted passport func message =
    guard (λ t. t.is_new || determine_if passport func t) (permission_error message)

abbrev pub change_props :
    (ViolationTicketV1Props → ViolationTicketV1Props) → Exec ViolationTicketV1 (Unit {0})
change_props f = modify (λ t. record t { props = f t.props })

abbrev pub change_root :
    (AggregateRoot IdPayload → AggregateRoot IdPayload) → Exec ViolationTicketV1 (Unit {0})
change_root f = modify (λ t. record t { root = f t.root })
