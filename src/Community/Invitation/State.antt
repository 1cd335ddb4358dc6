-- ===== src/Community/Invitation/State.antt =====
-- member-invitation.ts, the fields, and the value objects of member-invitation.value-objects.ts.
-- Every call of `new Date()` is an argument, a count of milliseconds.
use Prim.Native.String
use cellixjs.Base.{
  ℕ, Bool, true, false, ◌||◌, String, List, [], ◌∷◌, Option, some, ◌≡◌, Exec, ◌>>=◌, ◌>>◌, pure,
  guard, modify, construct, plain_error, includes, leb, not, ◌==◌,
}
use cellixjs.ValueObjects.{StringRule, ValueObjects}
use cellixjs.Iam.Permissions.{CommunityDomainPermissions}
use cellixjs.Iam.Visas.{Passport}
use cellixjs.Iam.Community.{for_community}
use cellixjs.Community.Email.{matches_email}

-- MemberInvitationProps; the users are named by id.
pub record MemberInvitationProps : Type 0 where
  pub id : String
  pub email : String
  pub message : String
  pub status : String
  pub expires_at : ℕ
  pub invited_by : String
  pub accepted_by : Option String
  pub community_id : String
  pub created_at : ℕ
  pub updated_at : ℕ

-- The aggregate. `visa_community` is the community that the constructor took its visa for; the
-- class raises no events of its own.
pub record MemberInvitation : Type 0 where
  pub props : MemberInvitationProps
  pub visa_community : String
  pub is_new : Bool

-- InvitationStatuses.
abbrev pub invitation_statuses : List String
invitation_statuses = "PENDING" ∷ "SENT" ∷ "ACCEPTED" ∷ "REJECTED" ∷ "EXPIRED" ∷ []

abbrev pub status_rule : StringRule
status_rule = record { trim = true; min_length = some 1; max_length = 20 }

abbrev pub email_rule : StringRule
email_rule = record { trim = true; min_length = some 1; max_length = 254 }

abbrev pub message_rule : StringRule
message_rule = record { trim = true; min_length = some 0; max_length = 1000 }

-- The value objects, and JavaScript's toUpperCase, of which only `KeepsStatuses` is used.
pub record Texts : Type 0 where
  pub values : ValueObjects
  pub to_upper_case : String → String

-- The five statuses are in capitals, and VOString takes them as they are.
abbrev pub KeepsStatuses : Texts → Type 0
KeepsStatuses texts =
    (status : String)
    → includes invitation_statuses status ≡ true
    → (texts.to_upper_case status ≡ status)
      × (texts.values.vo_string status_rule status ≡ some status)

-- new InvitationStatus(value).valueOf().
unfoldable pub invitation_status : {S : Type 0} → Texts → String → Exec S String
invitation_status texts value = do
  status ← construct (texts.values.vo_string status_rule (texts.to_upper_case value))
  guard (λ _. includes invitation_statuses (texts.to_upper_case value))
      (plain_error (
        String.◌++◌ "Invalid invitation status: "
          (String.◌++◌ value ". Must be one of: PENDING, SENT, ACCEPTED, REJECTED, EXPIRED")))
  pure status

-- new InvitationEmail(value).valueOf(): the pattern is tried on the raw value.
unfoldable pub invitation_email : {S : Type 0} → Texts → String → Exec S String
invitation_email texts value = do
  email ← construct (texts.values.vo_string email_rule value)
  guard (λ _. matches_email value) (plain_error "Invalid email format")
  pure email

-- new InvitationExpiresAt(expiresAt).valueOf().
unfoldable pub invitation_expires_at : {S : Type 0} → ℕ → ℕ → Exec S ℕ
invitation_expires_at now expires_at = do
  guard (λ _. not (leb expires_at now))
      (plain_error "Invitation expiration date must be in the future")
  pure expires_at

-- The status helpers: each makes an InvitationStatus of the stored status.
unfoldable pub has_status : Texts → String → Exec MemberInvitation Bool
has_status texts wanted i =
    (do status ← invitation_status texts i.props.status; pure (status == wanted)) i

-- `this.props.expiresAt <= new Date() || new InvitationStatus(this.status).isExpired`.
unfoldable pub is_expired : Texts → ℕ → Exec MemberInvitation Bool
is_expired texts now i = elim (leb i.props.expires_at now) [
  | true ↦ pure true i
  | false ↦ has_status texts "EXPIRED" i
]

-- `!this.isExpired && (this.isPending || this.isSent)`.
unfoldable pub is_active : Texts → ℕ → Exec MemberInvitation Bool
is_active texts now = do
  expired ← is_expired texts now
  elim expired [
    | true ↦ pure false
    | false ↦ do
      pending ← has_status texts "PENDING"
      elim pending [ true ↦ pure true | false ↦ has_status texts "SENT" ]
  ]

abbrev pub manages : CommunityDomainPermissions → Bool
manages p = p.can_manage_members || p.is_system_account

-- this._visa.determineIf(func).
abbrev pub determine_if : Passport → (CommunityDomainPermissions → Bool) → MemberInvitation → Bool
determine_if passport func i = for_community passport i.visa_community func

abbrev pub change_props :
    (MemberInvitationProps → MemberInvitationProps) → Exec MemberInvitation (Unit {0})
change_props f = modify (λ i. record i { props = f i.props })
