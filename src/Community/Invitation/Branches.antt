-- ===== src/Community/Invitation/Branches.antt =====
-- The actions of an invitation with a known status, branch by branch.
use cellixjs.Base.{
  ℕ, ◌<◌, true, String, ◌≡◌, refl, arith, some, done, thrown, plain_error, leb, ◌==◌, eq_iff,
  if◌then◌else◌,
}
use cellixjs.Iam.Visas.{Passport}
use cellixjs.Community.Invitation.State.{
  MemberInvitation, Texts, KeepsStatuses, determine_if, manages, invitation_expires_at,
}
use cellixjs.Community.Invitation.Methods.{
  set_expires_at, request_accept, request_reject, request_mark_as_sent, request_mark_as_expired,
  request_extend_expiration,
}
use cellixjs.Community.Invitation.Lifecycle.{
  IsKnown, with_status, open_at, has_status_of_known, is_expired_of_known, is_active_of_known,
  set_status_of_known,
}

abbrev pub accepted : MemberInvitation → String → MemberInvitation
accepted i by = record i { props = record i.props { status = "ACCEPTED"; accepted_by = some by } }

module _ (texts : Texts) (keeps : KeepsStatuses texts) (i : MemberInvitation)
    (known : IsKnown i) where
  -- On an invitation with a known status, `requestAccept` returns exactly where the invitation is
  -- open at the first reading of the clock and not past its date at the second; then it writes the
  -- status and the user. It throws otherwise, and changes nothing.
  pub request_accept_branches :
      (first second : ℕ) (by : String)
      → request_accept texts first second by i ≡ (
          if open_at first i
          then (if leb i.props.expires_at second
              then thrown (plain_error "Cannot accept expired invitation") i
              else done tt (accepted i by))
          else thrown (plain_error "Cannot accept inactive invitation") i)
  unfolding request_accept
  request_accept_branches first second by = ground (
    arith,
    is_active_of_known texts keeps first i known,
    is_expired_of_known texts keeps second i known,
    set_status_of_known texts keeps "ACCEPTED" i refl,
    eq_iff i.props.status "PENDING",
    eq_iff i.props.status "EXPIRED",
    eq_iff i.props.status "SENT",
    eq_iff "EXPIRED" "SENT",
    eq_iff "EXPIRED" "PENDING",
  )

  pub request_reject_branches :
      (now : ℕ)
      → request_reject texts now i ≡ (
          if open_at now i
          then done tt (with_status i "REJECTED")
          else thrown (plain_error "Cannot reject inactive invitation") i)
  unfolding request_reject
  request_reject_branches now = ground (
    arith,
    is_active_of_known texts keeps now i known,
    set_status_of_known texts keeps "REJECTED" i refl,
  )

  module _ (passport : Passport) where
    pub request_mark_as_sent_branches : request_mark_as_sent texts passport i ≡ (
        if i.props.status == "PENDING"
        then (if determine_if passport manages i
            then done tt (with_status i "SENT")
            else thrown (plain_error "Cannot mark invitation as sent") i)
        else thrown (plain_error "Can only mark pending invitations as sent") i)
    unfolding request_mark_as_sent
    request_mark_as_sent_branches = ground (
      arith,
      has_status_of_known texts keeps "PENDING" i known,
      set_status_of_known texts keeps "SENT" i refl,
    )

    pub request_mark_as_expired_branches : request_mark_as_expired texts passport i ≡ (
        if determine_if passport manages i
        then done tt (with_status i "EXPIRED")
        else thrown (plain_error "Cannot mark invitation as expired") i)
    unfolding request_mark_as_expired
    request_mark_as_expired_branches =
        ground (arith, set_status_of_known texts keeps "EXPIRED" i refl)

    -- Where `requestExtendExpiration` returns on an invitation with a known status, the caller
    -- manages the members of its community, and the call has moved the date of an open invitation
    -- to a later date than the clock's, and changed nothing else.
    pub request_extend_expiration_returns :
        (first second d : ℕ) (u : MemberInvitation)
        → request_extend_expiration texts passport first second d i ≡ done tt u
        → (determine_if passport manages i ≡ true)
          × (open_at first i ≡ true)
          × (second < d)
          × (u ≡ record i { props = record i.props { expires_at = d } })
    unfolding request_extend_expiration set_expires_at invitation_expires_at
    request_extend_expiration_returns first second d u h =
        ground (arith, is_active_of_known texts keeps first i known)
