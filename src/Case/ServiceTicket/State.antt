-- ===== src/Case/ServiceTicket/State.antt =====
-- service-ticket-v1.aggregate.ts and service-ticket-v1.value-objects.ts: the ticket's fields, its
-- status tables and its activity log.
use cellixjs.Base.{
  ℕ, Bool, ◌||◌, String, List, [], ◌∷◌, ◌++◌, Option, Exec, permission_error, guard, modify,
}
use cellixjs.Seedwork.Aggregate.{AggregateRoot}
use cellixjs.Iam.Permissions.{CaseDomainPermissions, TicketReference}
use cellixjs.Iam.Visas.{Passport, for_ticket}
use cellixjs.Case.Parts.{ActivityDetail, IdPayload, update_last}

-- ServiceTicketV1Props. Dates are counts of milliseconds. No method of the ticket writes its
-- messages, so they are named by their ids.
pub record ServiceTicketV1Props : Type 0 where
  pub id : String
  pub title : String
  pub description : String
  pub status : String
  pub priority : ℕ
  pub ticket_type : Option String
  pub community_id : String
  pub property_id : Option String
  pub requestor_id : String
  pub assigned_to_id : Option String
  pub service_id : Option String
  pub activity_log : List ActivityDetail
  pub messages : List String
  pub created_at : ℕ
  pub updated_at : ℕ
  pub schema_version : String
  pub hash : String
  pub last_indexed : Option ℕ
  pub update_index_failed_date : Option ℕ

-- The aggregate: what AggregateRoot keeps, the props, and the field isNew.
pub record ServiceTicketV1 : Type 0 where
  pub root : AggregateRoot IdPayload
  pub props : ServiceTicketV1Props
  pub is_new : Bool

-- StatusCodes.
abbrev pub draft : String
draft = "DRAFT"

abbrev pub submitted : String
submitted = "SUBMITTED"

abbrev pub assigned : String
assigned = "ASSIGNED"

abbrev pub in_progress : String
in_progress = "INPROGRESS"

abbrev pub completed : String
completed = "COMPLETED"

abbrev pub closed : String
closed = "CLOSED"

-- validStatusTransitions.
unfoldable pub valid_status_transitions : List (String × List String)
valid_status_transitions =
    (draft, submitted ∷ [])
    ∷ (submitted, draft ∷ assigned ∷ [])
    ∷ (assigned, submitted ∷ in_progress ∷ [])
    ∷ (in_progress, assigned ∷ completed ∷ [])
    ∷ (completed, in_progress ∷ closed ∷ [])
    ∷ (closed, in_progress ∷ [])
    ∷ []

-- statusMappings.
unfoldable pub status_mappings : List (String × String)
status_mappings =
    (draft, "CREATED")
    ∷ (submitted, "SUBMITTED")
    ∷ (assigned, "ASSIGNED")
    ∷ (in_progress, "INPROGRESS")
    ∷ (completed, "COMPLETED")
    ∷ (closed, "CLOSED")
    ∷ []

-- What the visa reads of the ticket, at the time that it is asked.
abbrev pub reference : ServiceTicketV1 → TicketReference
reference t = record {
  community_id = t.props.community_id;
  requestor_id = t.props.requestor_id;
  assigned_to_id = t.props.assigned_to_id;
}

-- this.visa.determineIf(func).
abbrev pub determine_if : Passport → (CaseDomainPermissions → Bool) → ServiceTicketV1 → Bool
determine_if passport func t = for_ticket passport (reference t) func

-- `if (!this.isNew && !this.visa.determineIf(func)) throw new PermissionError(message)`.
abbrev pub new_or_permitted :
    Passport → (CaseDomainPermissions → Bool) → String → Exec ServiceTicketV1 (Unit {0})
new_or_permitted passport func message =
    guard (λ t. t.is_new || determine_if passport func t) (permission_error message)

abbrev pub change_props :
    (ServiceTicketV1Props → ServiceTicketV1Props) → Exec ServiceTicketV1 (Unit {0})
change_props f = modify (λ t. record t { props = f t.props })

abbrev pub change_root :
    (AggregateRoot IdPayload → AggregateRoot IdPayload) → Exec ServiceTicketV1 (Unit {0})
change_root f = modify (λ t. record t { root = f t.root })

-- A change of the newest entry of the activity log.
abbrev pub change_activity : (ActivityDetail → ActivityDetail) → Exec ServiceTicketV1 (Unit {0})
change_activity f = change_props (λ p. record p { activity_log = update_last f p.activity_log })

abbrev pub append_activity : ActivityDetail → Exec ServiceTicketV1 (Unit {0})
append_activity item = change_props (λ p. record p { activity_log = p.activity_log ++ item ∷ [] })
