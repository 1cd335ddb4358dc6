-- ===== src/Community/Invitation/Methods.antt =====
-- member-invitation.ts: getNewInstance, the actions and the setters, and histories of calls.
use cellixjs.Base.{
  ℕ, true, false, not, ◌||◌, String, List, [], ◌∷◌, some, Exec, ◌>>=◌, ◌>>◌, guard, modify,
  plain_error, permission_error, state_after,
}
use cellixjs.Iam.Visas.{Passport}
use cellixjs.Iam.Community.{for_community}
use cellixjs.Community.Invitation.State.{
  MemberInvitation, MemberInvitationProps, Texts, invitation_status, invitation_email,
  invitation_expires_at, has_status, is_expired, is_active, manages, determine_if, change_props,
  message_rule,
}
use cellixjs.Base.{construct}

module _ (texts : Texts) where
  -- The private setter of the status.
  unfoldable pub set_status : String → Exec MemberInvitation (Unit {0})
  set_status value = do
    status ← invitation_status texts value
    change_props (λ p. record p { status = status })

  -- `isActive` and `isExpired` read the clock once each.
  unfoldable pub request_accept : ℕ → ℕ → String → Exec MemberInvitation (Unit {0})
  request_accept first second accepted_by = do
    active ← is_active texts first
    guard (λ _. active) (plain_error "Cannot accept inactive invitation")
    expired ← is_expired texts second
    guard (λ _. not expired) (plain_error "Cannot accept expired invitation")
    set_status "ACCEPTED"
    change_props (λ p. record p { accepted_by = some accepted_by })

  unfoldable pub request_reject : ℕ → Exec MemberInvitation (Unit {0})
  request_reject now = do
    active ← is_active texts now
    guard (λ _. active) (plain_error "Cannot reject inactive invitation")
    set_status "REJECTED"

module _ (texts : Texts) (passport : Passport) where
  abbrev pub new_or_manager : String → Exec MemberInvitation (Unit {0})
  new_or_manager message =
      guard (λ i. i.is_new || determine_if passport manages i) (plain_error message)

  unfoldable pub set_email : String → Exec MemberInvitation (Unit {0})
  set_email value = do
    new_or_manager "Cannot modify invitation email"
    email ← invitation_email texts value
    change_props (λ p. record p { email = email })

  unfoldable pub set_message : String → Exec MemberInvitation (Unit {0})
  set_message value = do
    new_or_manager "Cannot modify invitation message"
    message ← construct (texts.values.vo_string message_rule value)
    change_props (λ p. record p { message = message })

  unfoldable pub set_expires_at : ℕ → ℕ → Exec MemberInvitation (Unit {0})
  set_expires_at now value = do
    new_or_manager "Cannot modify invitation expiration"
    expires_at ← invitation_expires_at now value
    change_props (λ p. record p { expires_at = expires_at })

  unfoldable pub request_mark_as_sent : Exec MemberInvitation (Unit {0})
  request_mark_as_sent = do
    pending ← has_status texts "PENDING"
    guard (λ _. pending) (plain_error "Can only mark pending invitations as sent")
    guard (determine_if passport manages) (plain_error "Cannot mark invitation as sent")
    set_status texts "SENT"

  unfoldable pub request_mark_as_expired : Exec MemberInvitation (Unit {0})
  request_mark_as_expired = do
    guard (determine_if passport manages) (plain_error "Cannot mark invitation as expired")
    set_status texts "EXPIRED"

  unfoldable pub request_extend_expiration : ℕ → ℕ → ℕ → Exec MemberInvitation (Unit {0})
  request_extend_expiration first second new_expires_at = do
    guard (determine_if passport manages) (plain_error "Cannot extend invitation expiration")
    active ← is_active texts first
    guard (λ _. active) (plain_error "Cannot extend inactive invitation")
    set_expires_at second new_expires_at

-- The object that the constructor makes of its props.
abbrev pub new_invitation : MemberInvitationProps → MemberInvitation
new_invitation props = record { props = props; visa_community = props.community_id; is_new = false }

unfoldable pub get_new_instance :
    Texts → Passport → ℕ → String → String → String → ℕ → String → Exec MemberInvitation (Unit {0})
get_new_instance texts passport now community_id email message expires_at invited_by = do
  guard (λ _. for_community passport community_id manages)
      (permission_error "Cannot create member invitation")
  modify (λ i. record i { is_new = true })
  set_email texts passport email
  set_message texts passport message
  set_expires_at texts passport now expires_at
  change_props (λ p. record p { invited_by = invited_by })
  change_props (λ p. record p { community_id = community_id })
  set_status texts "PENDING"
  modify (λ i. record i { is_new = false })

-- The calls that a client can make, with the readings of the clock.
pub data Command : Type 0 where
  email_to message_to : String → Command
  expires_to : ℕ → ℕ → Command
  mark_as_sent mark_as_expired : Command
  accept : ℕ → ℕ → String → Command
  reject : ℕ → Command
  extend : ℕ → ℕ → ℕ → Command

unfoldable pub perform : Texts → Passport → Command → Exec MemberInvitation (Unit {0})
perform texts passport (email_to s) = set_email texts passport s
perform texts passport (message_to s) = set_message texts passport s
perform texts passport (expires_to now d) = set_expires_at texts passport now d
perform texts passport mark_as_sent = request_mark_as_sent texts passport
perform texts passport mark_as_expired = request_mark_as_expired texts passport
perform texts passport (accept first second by) = request_accept texts first second by
perform texts passport (reject now) = request_reject texts now
perform texts passport (extend first second d) =
    request_extend_expiration texts passport first second d

-- Each call comes with the passport of whoever makes it.
unfoldable pub run : Texts → List (Passport × Command) → MemberInvitation → MemberInvitation
run texts [] i = i
run texts ((passport, c) ∷ cs) i = run texts cs (state_after (perform texts passport c i))
