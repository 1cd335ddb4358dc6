-- ===== src/Case/ServiceTicket/Tests.antt =====
-- Service tickets at concrete inputs.
use cellixjs.Base.{true, false, List, [], ◌∷◌, ◌≡◌, refl, arith, done, none, succeeds, eq_iff}
use cellixjs.Samples.{sample_member, sample_member_passport, sample_staff_passport}
use cellixjs.Seedwork.Aggregate.{new_event}
use cellixjs.Iam.Visas.{Passport, for_ticket}
use cellixjs.Case.Parts.{ActivityDetail}
use cellixjs.Case.ServiceTicket.State.{
  ServiceTicketV1, ServiceTicketV1Props, status_mappings, valid_status_transitions,
}
use cellixjs.Case.ServiceTicket.Methods.{request_add_status_transition, request_delete}
use cellixjs.Case.ServiceTicket.Commands.{
  Command, add_activity, add_status_transition, priority_to, run,
}
use cellixjs.Case.ServiceTicket.Refusal.{Refuses, foreign_member_Refuses}
use cellixjs.Case.ServiceTicket.Transitions.{
  Walks, members_walk_the_table, StaffFields, members_keep-StaffFields,
}
use cellixjs.Case.ServiceTicket.Log.{created}
use cellixjs.Case.ServiceTicket.History.{
  LogCall, method, activity_type_to, activity_description_to, KeepsAuthors, make_calls,
  make_calls-KeepsAuthors,
}

abbrev blank_props : ServiceTicketV1Props
blank_props = record {
  id = "t1";
  title = "";
  description = "";
  status = "";
  priority = 0;
  ticket_type = none;
  community_id = "";
  property_id = none;
  requestor_id = "";
  assigned_to_id = none;
  service_id = none;
  activity_log = [];
  messages = [];
  created_at = 0;
  updated_at = 0;
  schema_version = "1.0.0";
  hash = "";
  last_indexed = none;
  update_index_failed_date = none;
}

-- The member m1's ticket in its community.
abbrev own_ticket : ServiceTicketV1
own_ticket = created blank_props "Leaking tap" "It leaks" "c1" "m1" none

abbrev foreign_ticket : ServiceTicketV1
foreign_ticket = created blank_props "Leaking tap" "It leaks" "c2" "m9" none

abbrev blank_item : ActivityDetail
blank_item = record { id = "a1"; activity_type = ""; activity_description = ""; activity_by = "" }

abbrev submit : Command
submit = add_status_transition blank_item "SUBMITTED" "ready" "m1"

abbrev member_history : List (Passport × Command)
member_history = (sample_member_passport, submit) ∷ (sample_member_passport, priority_to 1) ∷ []

member_submits :
    succeeds (
      request_add_status_transition sample_member_passport blank_item "SUBMITTED" "ready" "m1"
        own_ticket)
    ≡ true
unfolding request_add_status_transition for_ticket valid_status_transitions status_mappings
member_submits = refl

member_cannot_close :
    succeeds (
      request_add_status_transition sample_member_passport blank_item "CLOSED" "done" "m1"
        own_ticket)
    ≡ false
unfolding request_add_status_transition for_ticket valid_status_transitions status_mappings
member_cannot_close = refl

members_walk_the_table_example : Walks member_history own_ticket
members_walk_the_table_example =
    members_walk_the_table member_history own_ticket (tt, (tt, tt)) refl

members_keep-StaffFields_example : StaffFields own_ticket (run member_history own_ticket)
members_keep-StaffFields_example =
    members_keep-StaffFields member_history own_ticket (tt, (tt, tt)) refl

foreign_member_Refuses_example : Refuses sample_member_passport submit foreign_ticket
foreign_member_Refuses_example =
    foreign_member_Refuses "u1" sample_member "c1" foreign_ticket submit
      (ground (arith, eq_iff "c1" "c2")) refl refl tt

abbrev log_calls : List LogCall
log_calls =
    method sample_member_passport (add_activity blank_item "m1")
    ∷ activity_type_to 0 "CLOSED"
    ∷ activity_description_to 0 "never mind"
    ∷ []

make_calls-KeepsAuthors_example : KeepsAuthors own_ticket (make_calls log_calls own_ticket)
make_calls-KeepsAuthors_example = make_calls-KeepsAuthors log_calls own_ticket

abbrev deleted_ticket : ServiceTicketV1
deleted_ticket = record own_ticket {
  root = record own_ticket.root {
    is_deleted = true;
    integration_events =
        new_event "ServiceTicketV1CreatedEvent" "t1" (record { id = "t1" })
        ∷ new_event "ServiceTicketV1DeletedEvent" "t1" (record { id = "t1" })
        ∷ [];
  };
}

deletes : request_delete sample_staff_passport own_ticket ≡ done tt deleted_ticket
unfolding request_delete for_ticket
deletes = refl
