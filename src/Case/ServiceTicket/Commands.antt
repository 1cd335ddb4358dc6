-- ===== src/Case/ServiceTicket/Commands.antt =====
-- The calls that a client can make on a service ticket, and histories of such calls. An exception
-- leaves the ticket as the call had left it, and the history goes on.
use cellixjs.Base.{ℕ, Bool, String, List, [], ◌∷◌, Option, Exec, state_after, ◌>>=◌, pure}
use cellixjs.Iam.Visas.{Passport}
use cellixjs.Case.Parts.{ActivityDetail}
use cellixjs.Case.ServiceTicket.State.{ServiceTicketV1}
use cellixjs.Case.ServiceTicket.Methods.{
  request_add_status_update, request_add_status_transition, request_delete, on_save,
  request_new_activity_detail,
}
use cellixjs.Case.ServiceTicket.Setters.{
  set_title, set_description, set_status, set_priority, set_community_id, set_property_id,
  set_requestor_id, set_assigned_to_id, set_service_id, set_hash, set_last_indexed,
  set_update_index_failed_date,
}

pub data Command : Type 0 where
  title_to description_to status_to community_to requestor_to : String → Command
  assigned_to service_to hash_to : String → Command
  priority_to : ℕ → Command
  property_to : Option String → Command
  last_indexed_to index_failed_to : Option ℕ → Command
  add_status_update : ActivityDetail → String → String → Command
  add_status_transition : ActivityDetail → String → String → String → Command
  add_activity : ActivityDetail → String → Command
  delete_ticket : Command
  save_hook : Bool → Command

unfoldable pub perform : Passport → Command → Exec ServiceTicketV1 (Unit {0})
perform passport (title_to s) = set_title passport s
perform passport (description_to s) = set_description passport s
perform passport (status_to s) = set_status passport s
perform passport (community_to s) = set_community_id passport s
perform passport (requestor_to s) = set_requestor_id passport s
perform passport (assigned_to s) = set_assigned_to_id passport s
perform passport (service_to s) = set_service_id passport s
perform passport (hash_to s) = set_hash s
perform passport (priority_to n) = set_priority passport n
perform passport (property_to s) = set_property_id passport s
perform passport (last_indexed_to d) = set_last_indexed d
perform passport (index_failed_to d) = set_update_index_failed_date d
perform passport (add_status_update item description by) =
    request_add_status_update passport item description by
perform passport (add_status_transition item new_status description by) =
    request_add_status_transition passport item new_status description by
perform passport (add_activity item by) = do detail ← request_new_activity_detail item by; pure tt
perform passport delete_ticket = request_delete passport
perform passport (save_hook is_modified) = on_save is_modified

-- Each call comes with the passport of whoever makes it.
unfoldable pub run : List (Passport × Command) → ServiceTicketV1 → ServiceTicketV1
run [] t = t
run ((passport, c) ∷ cs) t = run cs (state_after (perform passport c t))
