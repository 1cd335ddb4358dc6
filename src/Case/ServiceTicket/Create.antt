-- ===== src/Case/ServiceTicket/Create.antt =====
-- service-ticket-v1.aggregate.ts: getNewInstance.
use cellixjs.Base.{false, String, Option, Exec, ◌>>=◌, ◌>>◌, modify, pure, construct, if◌then◌else◌}
use cellixjs.ValueObjects.{ValueObjects}
use cellixjs.Seedwork.Aggregate.{new_root}
use cellixjs.Iam.Visas.{Passport}
use cellixjs.Case.Parts.{given}
use cellixjs.Case.ServiceTicket.State.{ServiceTicketV1, ServiceTicketV1Props, draft}
use cellixjs.Case.ServiceTicket.Methods.{mark_as_new}
use cellixjs.Case.ServiceTicket.Setters.{
  set_title, set_description, set_community_id, set_requestor_id, set_property_id, set_status,
  set_priority,
}

abbrev pub new_ticket : ServiceTicketV1Props → ServiceTicketV1
new_ticket props = record { root = new_root; props = props; is_new = false }

unfoldable pub get_new_instance :
    ValueObjects
    → Passport
    → String
    → String
    → String
    → String
    → Option String
    → Exec ServiceTicketV1 (Unit {0})
unfolding set_title set_description set_community_id set_requestor_id set_property_id set_status
    set_priority
get_new_instance vo passport title description community_id requestor_id property_id = do
  mark_as_new
  set_title passport title
  set_description passport description
  set_community_id passport community_id
  set_requestor_id passport requestor_id
  if given property_id then set_property_id passport property_id else pure tt
  set_status passport draft
  priority ← construct (vo.vo_integer 1 5 3)
  set_priority passport priority
  modify (λ t. record t { is_new = false })
