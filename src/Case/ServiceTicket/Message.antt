-- ===== src/Case/ServiceTicket/Message.antt =====
-- service-ticket-v1-message.entity.ts: a message, which the aggregate's methods do not reach. The
-- values that its setters take are value objects already.
use cellixjs.Base.{
  ◌≡◌, arith, Bool, false, ◌||◌, String, Option, some, Exec, ◌>>◌, guard, modify, permission_error,
  ℕ, succeeds, state_after,
}
use cellixjs.Iam.Permissions.{MemberReference, CaseDomainPermissions, TicketReference}
use cellixjs.Iam.Visas.{
  Passport, member_passport, for_ticket, member_case_visa, member_case_permissions,
}

-- ServiceTicketV1MessageProps, with the ticket that the visa was taken for.
pub record ServiceTicketV1Message : Type 0 where
  pub id : String
  pub sent_by : String
  pub initiated_by : String
  pub message : String
  pub embedding : Option String
  pub created_at : ℕ
  pub is_hidden_from_applicant : Bool
  pub visa_ticket : TicketReference

-- The five setters, each with the value that it is given.
pub data MessageCommand : Type 0 where
  sent_by_to message_to embedding_to : String → MessageCommand
  created_at_to : ℕ → MessageCommand
  hidden_to : Bool → MessageCommand

module _ (passport : Passport) where
  abbrev pub ask : (CaseDomainPermissions → Bool) → String → Exec ServiceTicketV1Message (Unit {0})
  ask func refusal = guard (λ m. for_ticket passport m.visa_ticket func) (permission_error refusal)

  abbrev pub manages_or_system : CaseDomainPermissions → Bool
  manages_or_system p = p.can_manage_tickets || p.is_system_account

  unfoldable pub set_message_field : MessageCommand → Exec ServiceTicketV1Message (Unit {0})
  set_message_field (sent_by_to value) = do
    ask manages_or_system "You do not have permission to modify this message"
    modify (λ m. record m { sent_by = value })
  set_message_field (message_to value) = do
    ask manages_or_system "You do not have permission to modify this message"
    modify (λ m. record m { message = value })
  set_message_field (embedding_to value) = do
    ask manages_or_system "You do not have permission to modify this message"
    modify (λ m. record m { embedding = some value })
  set_message_field (created_at_to value) = do
    ask (λ p. p.is_system_account) "You do not have permission to modify this message timestamp"
    modify (λ m. record m { created_at = value })
  set_message_field (hidden_to value) = do
    ask manages_or_system "You do not have permission to modify this message visibility"
    modify (λ m. record m { is_hidden_from_applicant = value })

-- A member never changes a message, also where the ticket is the member's own.
pub members_keep_messages :
    (user : String) (member : MemberReference) (community : String) (c : MessageCommand)
    (m : ServiceTicketV1Message)
    → (succeeds (set_message_field (member_passport user member community) c m) ≡ false)
      × (state_after (set_message_field (member_passport user member community) c m) ≡ m)
unfolding set_message_field for_ticket member_case_visa member_case_permissions
members_keep_messages user member community (sent_by_to v) m = (ground arith, ground arith)
members_keep_messages user member community (message_to v) m = (ground arith, ground arith)
members_keep_messages user member community (embedding_to v) m = (ground arith, ground arith)
members_keep_messages user member community (created_at_to v) m = (ground arith, ground arith)
members_keep_messages user member community (hidden_to v) m = (ground arith, ground arith)
