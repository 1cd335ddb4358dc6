-- ===== src/Case/ViolationTicket/Transitions.antt =====
-- The status of a violation ticket in the hands of people: members, staff and guests.
use cellixjs.Base.{
  true, false, ◌||◌, String, List, [], ◌∷◌, ◌≡◌, ◌≢◌, ◌⊎◌, inl, inr, sym, arith, state_after, ◌∙◌,
}
use cellixjs.ValueObjects.{ValueObjects}
use cellixjs.Iam.Visas.{Passport}
use cellixjs.Iam.Facts.{IsPerson, person-eq-false, person-implies}
use cellixjs.Case.Parts.{allows, edits_own, works_on_assigned}
use cellixjs.Case.ViolationTicket.State.{ViolationTicketV1, reference, valid_status_transitions}
use cellixjs.Case.ViolationTicket.Methods.{
  request_add_status_update, request_add_status_transition, request_delete, on_save,
  request_add_message, request_add_photo,
}
use cellixjs.Case.ViolationTicket.Setters.{
  set_title, set_description, set_status, set_priority, set_community_id, set_property_id,
  set_assigned_to_id, set_service_id, set_ticket_type, set_service_fee, set_hash, set_last_indexed,
  set_update_index_failed_date,
}
use cellixjs.Case.ViolationTicket.Commands.{Command, status_to, add_status_transition, perform, run}

-- The status stays, or moves along one entry of the table.
abbrev pub StatusStep : ViolationTicketV1 → ViolationTicketV1 → Type 0
StatusStep t u =
    (u.props.status ≡ t.props.status)
    ⊎ (allows valid_status_transitions t.props.status u.props.status ≡ true)

module _ (vo : ValueObjects) (passport : Passport) (person : IsPerson passport)
    (t : ViolationTicketV1) (old : t.is_new ≡ false) where
  perform-StatusStep : (c : Command) → StatusStep t (state_after (perform vo passport c t))
  unfolding perform set_title set_description set_status set_priority set_community_id
      set_property_id set_assigned_to_id set_service_id set_ticket_type set_service_fee set_hash
      set_last_indexed set_update_index_failed_date request_add_status_update
      request_add_status_transition request_add_message request_add_photo request_delete on_save
  perform-StatusStep (status_to s) = ground (arith, person-eq-false passport (reference t) person)
  perform-StatusStep (add_status_transition item s d by) = ground (
    arith,
    person-implies passport (reference t) (allows valid_status_transitions t.props.status s)
        (λ p. p.can_manage_tickets || p.can_assign_tickets || edits_own p || works_on_assigned p)
        person,
  )
  perform-StatusStep c = ground arith

  perform-is_new : (c : Command) → (state_after (perform vo passport c t)).is_new ≡ false
  unfolding perform set_title set_description set_status set_priority set_community_id
      set_property_id set_assigned_to_id set_service_id set_ticket_type set_service_fee set_hash
      set_last_indexed set_update_index_failed_date request_add_status_update
      request_add_status_transition request_add_message request_add_photo request_delete on_save
  perform-is_new (status_to s) = ground arith
  perform-is_new c = ground arith

-- Every call of the history is made by a member, a staff user or a guest.
abbrev pub ByPeople : List (Passport × Command) → Type 0
ByPeople [] = Unit {0}
ByPeople ((passport, c) ∷ cs) = IsPerson passport × ByPeople cs

-- Every call of the history leaves the status as it is or moves it along one entry of the table.
abbrev pub Walks : ValueObjects → List (Passport × Command) → ViolationTicketV1 → Type 0
Walks vo [] t = Unit {0}
Walks vo ((passport, c) ∷ cs) t =
    let u = state_after (perform vo passport c t) in StatusStep t u × Walks vo cs u

-- Whatever members, staff and guests do to a violation ticket that exists, one after the other,
-- each of their calls, whether it returns or throws, leaves the status as it is or moves it along
-- one entry of the table of valid transitions.
pub people_walk_the_table :
    (vo : ValueObjects) (cs : List (Passport × Command)) (t : ViolationTicketV1)
    → ByPeople cs
    → t.is_new ≡ false
    → Walks vo cs t
people_walk_the_table vo [] t h old = tt
people_walk_the_table vo ((passport, c) ∷ cs) t (here, later) old = (
  perform-StatusStep vo passport here t old c,
  people_walk_the_table vo cs (state_after (perform vo passport c t)) later
      (perform-is_new vo passport here t old c),
)

-- No entry of the table leads to COMPLETED.
not_to_completed : (status : String) → allows valid_status_transitions status "COMPLETED" ≡ false
unfolding valid_status_transitions
not_to_completed status = ground arith

StatusStep-not_completed :
    (t u : ViolationTicketV1)
    → StatusStep t u
    → t.props.status ≢ "COMPLETED"
    → u.props.status ≢ "COMPLETED"
StatusStep-not_completed t u (inl same) open_yet done_now = open_yet (sym same ∙ done_now)
StatusStep-not_completed t u (inr allowed) open_yet done_now =
    cc (rw done_now at allowed, not_to_completed t.props.status)

-- No history of calls by members, staff and guests takes a violation ticket that exists to the
-- status COMPLETED from another status, although it is among the status codes.
pub people_never_complete :
    (vo : ValueObjects) (cs : List (Passport × Command)) (t : ViolationTicketV1)
    → ByPeople cs
    → t.is_new ≡ false
    → t.props.status ≢ "COMPLETED"
    → (run vo cs t).props.status ≢ "COMPLETED"
unfolding run
people_never_complete vo [] t h old open_yet = open_yet
people_never_complete vo ((passport, c) ∷ cs) t (here, later) old open_yet =
    let u = state_after (perform vo passport c t) in
    people_never_complete vo cs u later (perform-is_new vo passport here t old c)
      (StatusStep-not_completed t u (perform-StatusStep vo passport here t old c) open_yet)
