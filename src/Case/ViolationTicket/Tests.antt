-- ===== src/Case/ViolationTicket/Tests.antt =====
-- Violation tickets at concrete inputs.
use cellixjs.Base.{
  true, false, List, [], ◌∷◌, ◌≡◌, refl, arith, none, succeeds, length, state_after,
}
use cellixjs.Samples.{
  checked_values, checked_values_laws, sample_member_passport, sample_staff_passport,
  sample_system_passport,
}
use cellixjs.Iam.Visas.{Passport, guest_passport, for_ticket}
use cellixjs.Case.Parts.{ActivityDetail}
use cellixjs.Case.ViolationTicket.State.{
  ViolationTicketV1, ViolationTicketV1Props, Message, Photo, status_codes,
}
use cellixjs.Case.ViolationTicket.Methods.{request_add_message, request_add_photo}
use cellixjs.Case.ViolationTicket.Commands.{
  Command, add_status_transition, add_message, delete_ticket, run,
}
use cellixjs.Case.ViolationTicket.Transitions.{Walks, people_walk_the_table}
use cellixjs.Case.ViolationTicket.Additions.{people_cannot_add_messages}
use cellixjs.Case.ViolationTicket.Validity.{IsValid, created, run-IsValid}

abbrev blank_props : ViolationTicketV1Props
blank_props = record {
  id = "t1";
  community_id = "";
  property_id = none;
  requestor_id = "";
  assigned_to_id = none;
  service_id = none;
  title = "";
  description = "";
  status = "";
  priority = 0;
  ticket_type = none;
  activity_log = [];
  messages = [];
  photos = [];
  finance_details = record { service_fee = 0 };
  revision_request = none;
  created_at = 0;
  updated_at = 0;
  schema_version = "1.0.0";
  hash = "";
  last_indexed = none;
  update_index_failed_date = none;
}

-- The member m1's ticket in its community.
abbrev own_ticket : ViolationTicketV1
own_ticket = created blank_props "Noise at night" "Loud music" "c1" "m1" 100 none

abbrev foreign_ticket : ViolationTicketV1
foreign_ticket = created blank_props "Noise at night" "Loud music" "c2" "m9" 100 none

abbrev blank_item : ActivityDetail
blank_item = record { id = "a1"; activity_type = ""; activity_description = ""; activity_by = "" }

abbrev blank_message : Message
blank_message = record {
  id = "g1";
  sent_by = "";
  initiated_by = none;
  message = "";
  embedding = none;
  created_at = 0;
  is_hidden_from_applicant = true;
}

abbrev submit : Command
submit = add_status_transition blank_item "SUBMITTED" "ready" "m1"

abbrev history : List (Passport × Command)
history =
    (sample_member_passport, submit)
    ∷ (sample_staff_passport, add_message blank_message 7 "hello" "internal" none none)
    ∷ (guest_passport, delete_ticket)
    ∷ []

-- A staff user's message is left half filled when the last but one setter throws.
staff_message_left_behind :
    length
      (state_after (
        request_add_message checked_values sample_staff_passport blank_message 7 "hello" "internal"
          none none own_ticket)).props.messages
    ≡ 1
unfolding request_add_message for_ticket
staff_message_left_behind = refl

-- A photo of a system account without canManageTickets is refused by its own setter.
system_photo_refused :
    succeeds (
      request_add_photo sample_system_passport
        (record { id = "p1"; document_id = ""; description = "" })
        "d1"
        "front"
        own_ticket)
    ≡ false
unfolding request_add_photo for_ticket
system_photo_refused = refl

people_walk_the_table_example : Walks checked_values history own_ticket
people_walk_the_table_example =
    people_walk_the_table checked_values history own_ticket (tt, (tt, (tt, tt))) refl

people_cannot_add_messages_example :
    succeeds (
      request_add_message checked_values sample_staff_passport blank_message 7 "hello" "internal"
        none none own_ticket)
    ≡ false
people_cannot_add_messages_example =
    people_cannot_add_messages checked_values sample_staff_passport blank_message 7 "hello"
      "internal" none none own_ticket tt

abbrev blank_photo : Photo
blank_photo = record { id = "p1"; document_id = ""; description = "" }

own_ticket-IsValid : IsValid checked_values own_ticket
unfolding status_codes
own_ticket-IsValid = ground arith

run-IsValid_example : IsValid checked_values (run checked_values history own_ticket)
unfolding status_codes
run-IsValid_example =
    run-IsValid checked_values checked_values_laws history own_ticket (refl, (tt, (tt, tt)))
      own_ticket-IsValid
