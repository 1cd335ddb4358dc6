-- ===== src/Community/Tests.antt =====
-- Invitations, members and the search at concrete inputs.
use cellixjs.Base.{
  true, false, String, List, [], ◌∷◌, ◌≡◌, ◌↔◌, refl, subst, arith, none, some, done, ◌==◌,
  Bool-cases, inl, inr, eq_sound, state_after,
}
use cellixjs.Samples.{checked_values, sample_member_passport}
use cellixjs.Iam.Visas.{Passport, guest_passport}
use cellixjs.Iam.Community.{for_community, member_community_visa, member_community_permissions}
use cellixjs.Community.Email.{codes, matches_email}
use cellixjs.Community.Email.Shape.{IsAddressOf, matches_email_iff}
use cellixjs.Community.Invitation.State.{
  MemberInvitation, MemberInvitationProps, Texts, KeepsStatuses, status_rule, is_active, is_expired,
  has_status, invitation_status, invitation_email, invitation_expires_at,
}
use cellixjs.Community.Invitation.Lifecycle.{IsKnown}
use cellixjs.Community.Invitation.Methods.{
  new_invitation, Command, accept, reject, mark_as_expired, run, perform, request_accept,
  request_extend_expiration, get_new_instance, set_status, set_email, set_message, set_expires_at,
}
use cellixjs.Community.Invitation.Branches.{accepted}
use cellixjs.Community.Invitation.History.{
  KeepsAnswer, IsConsistent, answer_is_kept, run-IsConsistent, calls_walk_the_table,
}
use cellixjs.Community.Invitation.Moves.{may_move}

abbrev sample_texts : Texts
sample_texts = record { values = checked_values; to_upper_case = λ s. s }

abbrev TakesStatus : String → Type 0
TakesStatus s =
    (sample_texts.to_upper_case s ≡ s) × (sample_texts.values.vo_string status_rule s ≡ some s)

sample_texts-KeepsStatuses : KeepsStatuses sample_texts
sample_texts-KeepsStatuses s h = elim (Bool-cases ("PENDING" == s)) [
  | inl e ↦ subst TakesStatus (eq_sound "PENDING" s e) (refl, refl)
  | inr n1 ↦ elim (Bool-cases ("SENT" == s)) [
    | inl e ↦ subst TakesStatus (eq_sound "SENT" s e) (refl, refl)
    | inr n2 ↦ elim (Bool-cases ("ACCEPTED" == s)) [
      | inl e ↦ subst TakesStatus (eq_sound "ACCEPTED" s e) (refl, refl)
      | inr n3 ↦ elim (Bool-cases ("REJECTED" == s)) [
        | inl e ↦ subst TakesStatus (eq_sound "REJECTED" s e) (refl, refl)
        | inr n4 ↦ subst TakesStatus (eq_sound "EXPIRED" s (ground arith)) (refl, refl)
      ]
    ]
  ]
]

abbrev sent_props : MemberInvitationProps
sent_props = record {
  id = "i1";
  email = "ann@example.org";
  message = "Welcome";
  status = "SENT";
  invited_by = "u1";
  accepted_by = none;
  community_id = "c1";
  expires_at = 1000;
  created_at = 0;
  updated_at = 0;
}

abbrev sent_invitation : MemberInvitation
sent_invitation = new_invitation sent_props

abbrev rejected_invitation : MemberInvitation
rejected_invitation = new_invitation (record sent_props { status = "REJECTED" })

abbrev later_calls : List (Passport × Command)
later_calls =
    (sample_member_passport, accept 10 11 "u7")
    ∷ (guest_passport, reject 20)
    ∷ (sample_member_passport, mark_as_expired)
    ∷ []

accepted_in_time :
    request_accept sample_texts 10 11 "u7" sent_invitation ≡ done tt (accepted sent_invitation "u7")
unfolding request_accept is_active is_expired has_status invitation_status set_status
accepted_in_time = refl

answer_is_kept_example :
    KeepsAnswer rejected_invitation (run sample_texts later_calls rejected_invitation)
answer_is_kept_example =
    answer_is_kept sample_texts sample_texts-KeepsStatuses later_calls rejected_invitation refl refl

run-IsConsistent_example : IsConsistent (run sample_texts later_calls sent_invitation)
run-IsConsistent_example =
    run-IsConsistent sample_texts sample_texts-KeepsStatuses later_calls sent_invitation
      (record { known = refl; user_accepted = inl refl })

calls_walk_the_table_example :
    IsKnown (state_after (perform sample_texts sample_member_passport (reject 20) sent_invitation))
    × (may_move "SENT"
          (state_after
            (perform sample_texts sample_member_passport (reject 20) sent_invitation)).props.status
        ≡ true)
calls_walk_the_table_example =
    calls_walk_the_table sample_texts sample_texts-KeepsStatuses sample_member_passport (reject 20)
      sent_invitation refl

extended :
    request_extend_expiration sample_texts sample_member_passport 10 11 2000 sent_invitation
    ≡ done tt (new_invitation (record sent_props { expires_at = 2000 }))
unfolding request_extend_expiration for_community member_community_visa member_community_permissions
    is_active is_expired has_status invitation_status set_expires_at invitation_expires_at
extended = refl

abbrev pending_invitation : MemberInvitation
pending_invitation = new_invitation (record sent_props { status = "PENDING" })

created :
    get_new_instance sample_texts sample_member_passport 5 "c1" "ann@example.org" "Welcome" 1000
      "u1" sent_invitation
    ≡ done tt pending_invitation
unfolding get_new_instance for_community matches_email member_community_visa
    member_community_permissions set_email invitation_email set_message set_expires_at
    invitation_expires_at set_status invitation_status
created = refl

matches_email_iff_example :
    matches_email "ann@example.org" ≡ true ↔ IsAddressOf false (codes "ann@example.org")
matches_email_iff_example = matches_email_iff "ann@example.org"
