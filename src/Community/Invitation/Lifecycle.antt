-- ===== src/Community/Invitation/Lifecycle.antt =====
-- What the actions of an invitation do on each branch, for invitations with a known status.
use cellixjs.Base.{
  ℕ, Bool, true, false, not, ◌&&◌, ◌||◌, String, ◌≡◌, refl, ◌∙◌, arith, Exec, done, leb, ◌==◌,
  eq_iff, includes, Bool-cases, inl, inr, pure, ◌>>=◌,
}
use cellixjs.Community.Invitation.State.{
  MemberInvitation, Texts, KeepsStatuses, invitation_statuses, invitation_status, is_expired,
  is_active, has_status,
}
use cellixjs.Community.Invitation.Methods.{set_status}

abbrev pub IsKnown : MemberInvitation → Type 0
IsKnown i = includes invitation_statuses i.props.status ≡ true

abbrev pub with_status : MemberInvitation → String → MemberInvitation
with_status i s = record i { props = record i.props { status = s } }

-- Neither past its date at `now` nor answered: an independent reading of `isActive`.
abbrev pub open_at : ℕ → MemberInvitation → Bool
open_at now i =
    not (leb i.props.expires_at now) && (i.props.status == "PENDING" || i.props.status == "SENT")

module _ (texts : Texts) (keeps : KeepsStatuses texts) where
  invitation_status_of_known :
      {S : Type 0} (status : String) (s : S)
      → includes invitation_statuses status ≡ true
      → invitation_status texts status s ≡ done status s
  unfolding invitation_status
  invitation_status_of_known status s known = ground (arith, keeps status known)

  pub set_status_of_known :
      (status : String) (i : MemberInvitation)
      → includes invitation_statuses status ≡ true
      → set_status texts status i ≡ done tt (with_status i status)
  unfolding set_status
  set_status_of_known status i known = rw (invitation_status_of_known status i known) refl

  pub has_status_of_known :
      (wanted : String) (i : MemberInvitation)
      → IsKnown i
      → has_status texts wanted i ≡ done (i.props.status == wanted) i
  unfolding has_status
  has_status_of_known wanted i known = rw (invitation_status_of_known i.props.status i known) refl

  pub is_expired_of_known :
      (now : ℕ) (i : MemberInvitation)
      → IsKnown i
      → is_expired texts now i ≡ done (leb i.props.expires_at now || i.props.status == "EXPIRED") i
  unfolding is_expired
  is_expired_of_known now i known = ground (arith, has_status_of_known "EXPIRED" i known)

  -- The two tests that follow in `isActive`.
  waiting : Exec MemberInvitation Bool
  waiting = do
    pending ← has_status texts "PENDING"
    elim pending [ true ↦ pure true | false ↦ has_status texts "SENT" ]

  waiting_of_known :
      (i : MemberInvitation)
      → IsKnown i
      → waiting i ≡ done (i.props.status == "PENDING" || i.props.status == "SENT") i
  unfolding waiting
  waiting_of_known i known =
      rw (has_status_of_known "PENDING" i known) (elim (Bool-cases (i.props.status == "PENDING")) [
        | inl e ↦ rw e refl
        | inr e ↦ rw e (has_status_of_known "SENT" i known)
      ])

  pub is_active_of_known :
      (now : ℕ) (i : MemberInvitation) → IsKnown i → is_active texts now i ≡ done (open_at now i) i
  unfolding is_active waiting
  is_active_of_known now i known =
      rw (is_expired_of_known now i known)
        (elim (Bool-cases (leb i.props.expires_at now || i.props.status == "EXPIRED")) [
          | inl e ↦ rw e (
              ground (
                arith,
                eq_iff i.props.status "PENDING",
                eq_iff i.props.status "EXPIRED",
                eq_iff i.props.status "SENT",
                eq_iff "EXPIRED" "SENT",
                eq_iff "EXPIRED" "PENDING",
              ))
          | inr e ↦ rw e (waiting_of_known i known ∙ ground arith)
        ])
