-- ===== src/Case/ViolationTicket/Validity.antt =====
-- Violation tickets whose fields satisfy the rules of their value objects: every ticket that
-- `getNewInstance` makes is such, and stays so.
use cellixjs.Base.{
  ℕ, ◌≤◌, true, false, String, List, [], ◌∷◌, ◌≡◌, ◌⊎◌, arith, state_after, succeeds, done, Option,
  some, none, if◌then◌else◌, Option-cases, inl, inr, includes,
}
use cellixjs.ValueObjects.{ValueObjects, ValueObjectLaws}
use cellixjs.Seedwork.Aggregate.{add_integration_event, new_root}
use cellixjs.Iam.Visas.{Passport}
use cellixjs.Case.Parts.{given}
use cellixjs.Case.ViolationTicket.State.{
  ViolationTicketV1, ViolationTicketV1Props, status_codes, title_rule, description_rule,
}
use cellixjs.Case.ViolationTicket.Methods.{
  request_add_status_update, request_add_status_transition, request_delete, on_save,
  request_add_message, request_add_photo,
}
use cellixjs.Case.ViolationTicket.Setters.{
  set_title, set_description, set_status, set_priority, set_community_id, set_property_id,
  set_assigned_to_id, set_service_id, set_ticket_type, set_service_fee, set_hash, set_last_indexed,
  set_update_index_failed_date,
}
use cellixjs.Case.ViolationTicket.Create.{get_new_instance, new_ticket}
use cellixjs.Case.ViolationTicket.Commands.{
  Command, title_to, description_to, status_to, priority_to, add_status_transition, perform, run,
}

pub record IsValid (vo : ValueObjects) (t : ViolationTicketV1) : Type 0 where
  pub title_least : 5 ≤ vo.text_length t.props.title
  pub title_most : vo.text_length t.props.title ≤ 200
  pub description_least : 1 ≤ vo.text_length t.props.description
  pub description_most : vo.text_length t.props.description ≤ 2000
  pub priority_least : 1 ≤ t.props.priority
  pub priority_most : t.props.priority ≤ 5
  pub status_known : includes status_codes t.props.status ≡ true

-- A status transition is called with a StatusCode, whose constructor has seen its value.
abbrev pub HasStatusCode : Command → Type 0
HasStatusCode (add_status_transition item new_status description by) =
    includes status_codes new_status ≡ true
HasStatusCode c = Unit {0}

module _ (vo : ValueObjects) (laws : ValueObjectLaws vo) (passport : Passport)
    (t : ViolationTicketV1) where
  perform-IsValid :
      (c : Command)
      → HasStatusCode c
      → IsValid vo t
      → IsValid vo (state_after (perform vo passport c t))
  unfolding perform set_title set_description set_status set_priority set_community_id
      set_property_id set_assigned_to_id set_service_id set_ticket_type set_service_fee set_hash
      set_last_indexed set_update_index_failed_date request_add_status_update
      request_add_status_transition request_add_message request_add_photo request_delete on_save
  perform-IsValid (title_to s) h v = elim (Option-cases (vo.vo_string title_rule s)) [
    | inl e ↦ ground arith
    | inr (value, e) ↦ ground (arith, laws.string_bounds title_rule s value e)
  ]
  perform-IsValid (description_to s) h v = elim (Option-cases (vo.vo_string description_rule s)) [
    | inl e ↦ ground arith
    | inr (value, e) ↦ ground (arith, laws.string_bounds description_rule s value e)
  ]
  perform-IsValid (status_to s) h v = ground (arith, laws.set_members status_codes s)
  perform-IsValid (priority_to n) h v = elim (Option-cases (vo.vo_integer 1 5 n)) [
    | inl e ↦ ground arith
    | inr (value, e) ↦ ground (arith, laws.integer_bounds 1 5 n value e)
  ]
  perform-IsValid c h v = ground arith

abbrev pub HaveStatusCodes : List (Passport × Command) → Type 0
HaveStatusCodes [] = Unit {0}
HaveStatusCodes ((passport, c) ∷ cs) = HasStatusCode c × HaveStatusCodes cs

-- No history of calls takes a valid violation ticket out of the rules, whoever makes them and
-- whether they return or throw, where the value objects keep their laws and every transition asked
-- for names a status code: the title stays within 5 to 200 characters, the description within 1 to
-- 2000, the priority within 1 to 5, and the status among the status codes.
pub run-IsValid :
    (vo : ValueObjects) (laws : ValueObjectLaws vo) (cs : List (Passport × Command))
    (t : ViolationTicketV1)
    → HaveStatusCodes cs
    → IsValid vo t
    → IsValid vo (run vo cs t)
unfolding run
run-IsValid vo laws [] t h v = v
run-IsValid vo laws ((passport, c) ∷ cs) t (here, later) v =
    run-IsValid vo laws cs (state_after (perform vo passport c t)) later
      (perform-IsValid vo laws passport t c here v)

-- What a new ticket is made of.
abbrev pub created :
    ViolationTicketV1Props
    → String
    → String
    → String
    → String
    → ℕ
    → Option String
    → ViolationTicketV1
created props title description community_id requestor_id penalty_amount property_id = record {
  root =
      add_integration_event "ViolationTicketV1CreatedEvent" props.id (record { id = props.id })
        new_root;
  props = record props {
    title = title;
    description = description;
    community_id = community_id;
    requestor_id = requestor_id;
    status = "DRAFT";
    priority = 5;
    finance_details = record props.finance_details { service_fee = penalty_amount };
    property_id = if given property_id then property_id else props.property_id;
  };
  is_new = false;
}

-- `getNewInstance` returns, for every passport, where the title and the description satisfy their
-- rules and the value objects keep their laws; what it returns is a valid draft of priority 5 with
-- the fee that it was handed and one created event.
pub new_violation_ticket :
    (vo : ValueObjects) (laws : ValueObjectLaws vo) (passport : Passport)
    (props : ViolationTicketV1Props)
    (title description community_id requestor_id title' description' : String) (penalty_amount : ℕ)
    (property_id : Option String)
    → vo.vo_string title_rule title ≡ some title'
    → vo.vo_string description_rule description ≡ some description'
    → (get_new_instance vo passport title description community_id requestor_id penalty_amount
          property_id
          (new_ticket props)
        ≡ done tt (
            created props title' description' community_id requestor_id penalty_amount property_id))
      × IsValid vo
          (created props title' description' community_id requestor_id penalty_amount property_id)
unfolding get_new_instance status_codes
new_violation_ticket vo laws passport props title description community_id requestor_id title'
      description' penalty_amount property_id p q =
    let five = laws.integer_range 1 5 5 (omega arith) (omega arith) in
    (
      rw (get_new_instance, p, q, laws.set_members status_codes "DRAFT", five)
          (rw five (ground arith)),
      ground (
        arith,
        laws.string_bounds title_rule title title' p,
        laws.string_bounds description_rule description description' q,
      ),
    )

-- It throws where the title or the description breaks its rule.
pub new_violation_ticket_throws :
    (vo : ValueObjects) (passport : Passport) (props : ViolationTicketV1Props)
    (title description community_id requestor_id : String) (penalty_amount : ℕ)
    (property_id : Option String)
    → (vo.vo_string title_rule title ≡ none) ⊎ (vo.vo_string description_rule description ≡ none)
    → succeeds (
        get_new_instance vo passport title description community_id requestor_id penalty_amount
          property_id
          (new_ticket props))
      ≡ false
unfolding get_new_instance status_codes
new_violation_ticket_throws vo passport props title description community_id requestor_id
      penalty_amount property_id h =
    ground arith
