-- ===== src/Community/Invitation/Create.antt =====
-- The creation of an invitation.
use cellixjs.Base.{ℕ, ◌<◌, ◌≤◌, true, false, String, ◌≡◌, refl, arith, done, Option-cases, inl, inr}
use cellixjs.ValueObjects.{ValueObjectLaws}
use cellixjs.Iam.Visas.{Passport}
use cellixjs.Iam.Community.{for_community}
use cellixjs.Community.Email.{matches_email}
use cellixjs.Community.Invitation.State.{
  MemberInvitation, Texts, KeepsStatuses, invitation_email, invitation_expires_at, manages,
  email_rule, message_rule,
}
use cellixjs.Community.Invitation.Methods.{get_new_instance, set_email, set_message, set_expires_at}
use cellixjs.Community.Invitation.Lifecycle.{set_status_of_known}

-- The invitation before its status is set.
abbrev filled : MemberInvitation → String → String → String → ℕ → String → MemberInvitation
filled i community_id email message expires_at invited_by = record i {
  props = record i.props {
    email = email;
    message = message;
    expires_at = expires_at;
    invited_by = invited_by;
    community_id = community_id;
  };
  is_new = true;
}

-- Where `getNewInstance` returns, with value objects that keep their laws, its caller manages the
-- members of that community, and its email matches the pattern; the invitation's date is later than
-- the clock's, and it is pending, in that community, by that user, with texts within their limits,
-- not new, and with the accepting user of the document that it was made of.
pub new_invitation_holds :
    (texts : Texts) (laws : ValueObjectLaws texts.values) (keeps : KeepsStatuses texts)
    (passport : Passport) (now : ℕ) (community_id email message : String) (expires_at : ℕ)
    (invited_by : String) (i u : MemberInvitation)
    → get_new_instance texts passport now community_id email message expires_at invited_by i
      ≡ done tt u
    → (for_community passport community_id manages ≡ true)
      × (matches_email email ≡ true)
      × (now < u.props.expires_at)
      × (texts.values.text_length u.props.email ≤ 254)
      × (texts.values.text_length u.props.message ≤ 1000)
      × (u.props.status ≡ "PENDING")
      × (u.props.community_id ≡ community_id)
      × (u.props.invited_by ≡ invited_by)
      × (u.props.accepted_by ≡ i.props.accepted_by)
      × (u.is_new ≡ false)
unfolding get_new_instance set_email set_message set_expires_at invitation_email
    invitation_expires_at
new_invitation_holds texts laws keeps passport now community_id email message expires_at invited_by
      i u h =
    elim (Option-cases (texts.values.vo_string email_rule email)) [
      | inl none_e ↦ ground arith
      | inr (e, email_e) ↦ elim (Option-cases (texts.values.vo_string message_rule message)) [
        | inl none_m ↦ ground arith
        | inr (m, message_e) ↦ ground (
          arith,
          laws.string_bounds email_rule email e email_e,
          laws.string_bounds message_rule message m message_e,
          set_status_of_known texts keeps "PENDING"
              (filled i community_id e m expires_at invited_by) refl,
        )
      ]
    ]
