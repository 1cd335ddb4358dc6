-- ===== src/Case/ServiceTicket/Transitions.antt =====
-- A service ticket in the hands of members: its status, and the fields that are left to staff.
use cellixjs.Base.{true, false, String, List, [], ◌∷◌, ◌≡◌, ◌⊎◌, arith, state_after, ◌∙◌}
use cellixjs.Iam.Permissions.{MemberReference}
use cellixjs.Iam.Visas.{
  Passport, member_passport, member_case_permissions, staff_user_passport, guest_passport,
  system_passport,
}
use cellixjs.Iam.Facts.{IsMember, for_ticket-eq-false}
use cellixjs.Case.Parts.{allows, system_or_manager}
use cellixjs.Case.ServiceTicket.State.{ServiceTicketV1, reference, valid_status_transitions}
use cellixjs.Case.ServiceTicket.Methods.{
  may_transition, request_add_status_update, request_add_status_transition, request_delete, on_save,
}
use cellixjs.Case.ServiceTicket.Setters.{
  may_set_status, may_assign, may_set_service, set_title, set_description, set_status, set_priority,
  set_community_id, set_property_id, set_requestor_id, set_assigned_to_id, set_service_id, set_hash,
  set_last_indexed, set_update_index_failed_date,
}
use cellixjs.Case.ServiceTicket.Commands.{
  Command, status_to, community_to, requestor_to, assigned_to, service_to, priority_to, property_to,
  add_status_transition, delete_ticket, perform, run,
}

-- The fields that a member cannot change, whoever the member is.
pub record StaffFields (t u : ServiceTicketV1) : Type 0 where
  pub is_new : u.is_new ≡ t.is_new
  pub is_deleted : u.root.is_deleted ≡ t.root.is_deleted
  pub id : u.props.id ≡ t.props.id
  pub priority : u.props.priority ≡ t.props.priority
  pub community_id : u.props.community_id ≡ t.props.community_id
  pub property_id : u.props.property_id ≡ t.props.property_id
  pub requestor_id : u.props.requestor_id ≡ t.props.requestor_id
  pub assigned_to_id : u.props.assigned_to_id ≡ t.props.assigned_to_id
  pub service_id : u.props.service_id ≡ t.props.service_id

-- The status stays, or moves along one entry of the table.
abbrev pub StatusStep : ServiceTicketV1 → ServiceTicketV1 → Type 0
StatusStep t u =
    (u.props.status ≡ t.props.status)
    ⊎ (allows valid_status_transitions t.props.status u.props.status ≡ true)

-- The setters and methods that `perform` calls, opened together.
unfoldable calls : Passport → Command → ServiceTicketV1 → ServiceTicketV1
unfolding perform set_title set_description set_status set_priority set_community_id set_property_id
    set_requestor_id set_assigned_to_id set_service_id set_hash set_last_indexed
    set_update_index_failed_date request_add_status_update request_add_status_transition
    request_delete on_save
calls passport c t = state_after (perform passport c t)

module _ (user : String) (member : MemberReference) (community : String) (t : ServiceTicketV1)
    (old : t.is_new ≡ false) where
  member_StatusStep :
      (c : Command)
      → StatusStep t (state_after (perform (member_passport user member community) c t))
  unfolding calls member_case_permissions
  member_StatusStep (status_to s) =
      ground (arith, for_ticket-eq-false user member community (reference t) may_set_status)
  member_StatusStep (add_status_transition item new_status description by) = ground (
    arith,
    for_ticket-eq-false user member community (reference t)
        (may_transition t.props.status new_status),
  )
  member_StatusStep c = ground arith

  member_StaffFields :
      (c : Command)
      → StaffFields t (state_after (perform (member_passport user member community) c t))
  unfolding calls member_case_permissions
  member_StaffFields (priority_to n) =
      ground (arith, for_ticket-eq-false user member community (reference t) may_assign)
  member_StaffFields (assigned_to s) =
      ground (arith, for_ticket-eq-false user member community (reference t) may_assign)
  member_StaffFields (service_to s) =
      ground (arith, for_ticket-eq-false user member community (reference t) may_set_service)
  member_StaffFields (community_to s) =
      ground (arith, for_ticket-eq-false user member community (reference t) system_or_manager)
  member_StaffFields (property_to s) =
      ground (arith, for_ticket-eq-false user member community (reference t) system_or_manager)
  member_StaffFields (requestor_to s) =
      ground (arith, for_ticket-eq-false user member community (reference t) system_or_manager)
  member_StaffFields delete_ticket =
      ground (arith, for_ticket-eq-false user member community (reference t) system_or_manager)
  member_StaffFields c = ground arith

-- Every call of the history is made by a member.
abbrev pub ByMembers : List (Passport × Command) → Type 0
ByMembers [] = Unit {0}
ByMembers ((passport, c) ∷ cs) = IsMember passport × ByMembers cs

passport_StatusStep :
    (passport : Passport) (c : Command) (t : ServiceTicketV1)
    → IsMember passport
    → t.is_new ≡ false
    → StatusStep t (state_after (perform passport c t))
passport_StatusStep (member_passport user member community) c t h old =
    member_StatusStep user member community t old c
passport_StatusStep (staff_user_passport user) c t h old = absurd h
passport_StatusStep guest_passport c t h old = absurd h
passport_StatusStep (system_passport spec) c t h old = absurd h

passport_StaffFields :
    (passport : Passport) (c : Command) (t : ServiceTicketV1)
    → IsMember passport
    → t.is_new ≡ false
    → StaffFields t (state_after (perform passport c t))
passport_StaffFields (member_passport user member community) c t h old =
    member_StaffFields user member community t old c
passport_StaffFields (staff_user_passport user) c t h old = absurd h
passport_StaffFields guest_passport c t h old = absurd h
passport_StaffFields (system_passport spec) c t h old = absurd h

-- Every call of the history leaves the status as it is or moves it along one entry of the table.
abbrev pub Walks : List (Passport × Command) → ServiceTicketV1 → Type 0
Walks [] t = Unit {0}
Walks ((passport, c) ∷ cs) t =
    let u = state_after (perform passport c t) in StatusStep t u × Walks cs u

-- Whatever members do to a service ticket that exists, one after the other, each of their calls
-- leaves its status as it is or moves it along one entry of the table of valid transitions.
pub members_walk_the_table :
    (cs : List (Passport × Command)) (t : ServiceTicketV1)
    → ByMembers cs
    → t.is_new ≡ false
    → Walks cs t
members_walk_the_table [] t h old = tt
members_walk_the_table ((passport, c) ∷ cs) t (here, later) old = (
  passport_StatusStep passport c t here old,
  members_walk_the_table cs (state_after (perform passport c t)) later
      ((passport_StaffFields passport c t here old).is_new ∙ old),
)

StaffFields-trans : {t u v : ServiceTicketV1} → StaffFields t u → StaffFields u v → StaffFields t v
StaffFields-trans p q = ground arith

-- No history of calls by members changes the priority, the community, the property, the requestor,
-- the assignee, the service, the id or the deletion mark of a service ticket that exists.
pub members_keep-StaffFields :
    (cs : List (Passport × Command)) (t : ServiceTicketV1)
    → ByMembers cs
    → t.is_new ≡ false
    → StaffFields t (run cs t)
unfolding run
members_keep-StaffFields [] t h old = ground arith
members_keep-StaffFields ((passport, c) ∷ cs) t (here, later) old =
    let first = passport_StaffFields passport c t here old in
    StaffFields-trans first
      (members_keep-StaffFields cs (state_after (perform passport c t)) later (first.is_new ∙ old))
