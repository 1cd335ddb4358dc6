-- ===== src/Case/ViolationTicket/Commands.antt =====
-- The calls that a client can make on a violation ticket, and histories of such calls. An exception
-- leaves the ticket as the call had left it, and the history goes on.
use cellixjs.Base.{ℕ, Bool, String, List, [], ◌∷◌, Option, Exec, state_after, ◌>>=◌, pure}
use cellixjs.ValueObjects.{ValueObjects}
use cellixjs.Iam.Visas.{Passport}
use cellixjs.Case.Parts.{ActivityDetail}
use cellixjs.Case.ViolationTicket.State.{ViolationTicketV1, Message, Photo}
use cellixjs.Case.ViolationTicket.Methods.{
  request_new_activity_detail, request_add_status_update, request_add_status_transition,
  request_add_message, request_add_photo, request_delete, on_save,
}
use cellixjs.Case.ViolationTicket.Setters.{
  set_title, set_description, set_status, set_priority, set_community_id, set_property_id,
  set_assigned_to_id, set_service_id, set_ticket_type, set_service_fee, set_hash, set_last_indexed,
  set_update_index_failed_date,
}

pub data Command : Type 0 where
  title_to description_to status_to community_to hash_to : String → Command
  priority_to service_fee_to : ℕ → Command
  property_to assigned_to service_to ticket_type_to : Option String → Command
  last_indexed_to index_failed_to : Option ℕ → Command
  add_activity : ActivityDetail → String → Command
  add_status_update : ActivityDetail → String → String → Command
  add_status_transition : ActivityDetail → String → String → String → Command
  add_message : Message → ℕ → String → String → Option String → Option String → Command
  add_photo : Photo → String → String → Command
  delete_ticket : Command
  save_hook : Bool → Command

module _ (vo : ValueObjects) where
  unfoldable pub perform : Passport → Command → Exec ViolationTicketV1 (Unit {0})
  perform passport (title_to s) = set_title vo passport s
  perform passport (description_to s) = set_description vo passport s
  perform passport (status_to s) = set_status vo passport s
  perform passport (community_to s) = set_community_id s
  perform passport (hash_to s) = set_hash passport s
  perform passport (priority_to n) = set_priority vo passport n
  perform passport (service_fee_to n) = set_service_fee n
  perform passport (property_to s) = set_property_id passport s
  perform passport (assigned_to s) = set_assigned_to_id passport s
  perform passport (service_to s) = set_service_id passport s
  perform passport (ticket_type_to s) = set_ticket_type passport s
  perform passport (last_indexed_to d) = set_last_indexed passport d
  perform passport (index_failed_to d) = set_update_index_failed_date passport d
  perform passport (add_activity item by) = do detail ← request_new_activity_detail item by; pure tt
  perform passport (add_status_update item description by) =
      request_add_status_update passport item description by
  perform passport (add_status_transition item new_status description by) =
      request_add_status_transition passport item new_status description by
  perform passport (add_message item now message sent_by embedding initiated_by) =
      request_add_message vo passport item now message sent_by embedding initiated_by
  perform passport (add_photo item document_id description) =
      request_add_photo passport item document_id description
  perform passport delete_ticket = request_delete passport
  perform passport (save_hook is_modified) = on_save is_modified

  -- Each call comes with the passport of whoever makes it.
  unfoldable pub run : List (Passport × Command) → ViolationTicketV1 → ViolationTicketV1
  run [] t = t
  run ((passport, c) ∷ cs) t = run cs (state_after (perform passport c t))
