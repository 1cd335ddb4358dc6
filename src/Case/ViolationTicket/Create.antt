-- ===== src/Case/ViolationTicket/Create.antt =====
-- violation-ticket-v1.aggregate.ts: getNewInstance.
use cellixjs.Base.{
  ℕ, false, String, Option, Exec, ◌>>=◌, ◌>>◌, modify, pure, construct, if◌then◌else◌,
}
use cellixjs.ValueObjects.{ValueObjects}
use cellixjs.Seedwork.Aggregate.{new_root}
use cellixjs.Iam.Visas.{Passport}
use cellixjs.Case.Parts.{given}
use cellixjs.Case.ViolationTicket.State.{ViolationTicketV1, ViolationTicketV1Props}
use cellixjs.Case.ViolationTicket.Methods.{mark_as_new}
use cellixjs.Case.ViolationTicket.Setters.{
  set_title, set_description, set_community_id, set_requestor_id, set_property_id, set_status,
  set_priority, set_service_fee,
}

abbrev pub new_ticket : ViolationTicketV1Props → ViolationTicketV1
new_ticket props = record { root = new_root; props = props; is_new = false }

unfoldable pub get_new_instance :
    ValueObjects
    → Passport
    → String
    → String
    → String
    → String
    → ℕ
    → Option String
    → Exec ViolationTicketV1 (Unit {0})
unfolding set_title set_description set_community_id set_requestor_id set_property_id set_status
    set_priority set_service_fee
get_new_instance vo passport title description community_id requestor_id penalty_amount
      property_id =
    do
      mark_as_new
      set_title vo passport title
      set_description vo passport description
      set_community_id community_id
      set_requestor_id requestor_id
      set_status vo passport "DRAFT"
      priority ← construct (vo.vo_integer 1 5 5)
      set_priority vo passport priority
      set_service_fee penalty_amount
      if given property_id then set_property_id passport property_id else pure tt
      modify (λ t. record t { is_new = false })
