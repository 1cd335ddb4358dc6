-- ===== src/Community/Invitation/Moves.antt =====
-- What each call may do to an invitation with a known status.
use cellixjs.Base.{
  ℕ, Bool, true, false, ◌&&◌, ◌||◌, String, ◌≡◌, ◌⊎◌, refl, arith, done, thrown, plain_error, leb,
  ◌==◌, eq_iff, eq_refl, if◌then◌else◌, state_after, inl, inr, Outcome,
}
use cellixjs.Iam.Visas.{Passport}
use cellixjs.Community.Invitation.State.{
  MemberInvitation, Texts, KeepsStatuses, determine_if, manages, invitation_email,
  invitation_expires_at,
}
use cellixjs.Community.Invitation.Methods.{
  set_email, set_message, set_expires_at, request_extend_expiration, request_mark_as_sent,
  request_mark_as_expired, request_accept, request_reject, Command, mark_as_sent, mark_as_expired,
  accept, reject, extend, perform,
}
use cellixjs.Community.Invitation.Lifecycle.{IsKnown, with_status, open_at, is_active_of_known}
use cellixjs.Community.Invitation.Branches.{
  accepted, request_accept_branches, request_reject_branches, request_mark_as_sent_branches,
  request_mark_as_expired_branches,
}

-- The moves of the status: a pending invitation is sent, a pending or sent one is accepted or
-- rejected, and any one expires.
abbrev pub may_move : String → String → Bool
may_move from to =
    to == from
    || to == "EXPIRED"
    || (from == "PENDING" && to == "SENT")
    || ((from == "PENDING" || from == "SENT") && (to == "ACCEPTED" || to == "REJECTED"))

-- What one call may do to a known invitation.
pub record Moves (i u : MemberInvitation) : Type 0 where
  pub known : IsKnown u
  pub status_move : may_move i.props.status u.props.status ≡ true
  pub user_kept :
      (u.props.accepted_by ≡ i.props.accepted_by)
      ⊎ ((i.props.status == "PENDING" || i.props.status == "SENT") && u.props.status == "ACCEPTED"
          ≡ true)

Moves-refl : (i : MemberInvitation) → IsKnown i → Moves i i
Moves-refl i known = ground (arith, eq_refl i.props.status)

with_status-Moves :
    (i : MemberInvitation) (s : String)
    → IsKnown (with_status i s)
    → may_move i.props.status s ≡ true
    → Moves i (with_status i s)
with_status-Moves i s known move = record {
  known = known;
  status_move = move;
  user_kept = inl refl;
}

accepted-Moves :
    (now : ℕ) (i : MemberInvitation) (by : String) → open_at now i ≡ true → Moves i (accepted i by)
accepted-Moves now i by open_now = record {
  known = refl;
  status_move = ground arith;
  user_kept = inr (ground arith);
}

-- A call that tests, and then does one thing or the other.
Moves-if :
    (i : MemberInvitation) (test : Bool) (x y : Outcome MemberInvitation (Unit {0}))
    → (test ≡ true → Moves i (state_after x))
    → (test ≡ false → Moves i (state_after y))
    → Moves i (state_after (if test then x else y))
Moves-if i true x y h k = h refl
Moves-if i false x y h k = k refl

module _ (texts : Texts) (keeps : KeepsStatuses texts) (passport : Passport) (i : MemberInvitation)
    (known : IsKnown i) where
  mark_as_sent-Moves : Moves i (state_after (request_mark_as_sent texts passport i))
  mark_as_sent-Moves = rw (request_mark_as_sent_branches texts keeps i known passport) (
      Moves-if i (i.props.status == "PENDING")
        (if determine_if passport manages i
          then done tt (with_status i "SENT")
          else thrown (plain_error "Cannot mark invitation as sent") i)
        (thrown (plain_error "Can only mark pending invitations as sent") i)
        (λ pending.
          Moves-if i (determine_if passport manages i) (done tt (with_status i "SENT"))
            (thrown (plain_error "Cannot mark invitation as sent") i)
            (λ _. with_status-Moves i "SENT" refl (ground arith)) (λ _. Moves-refl i known))
        (λ _. Moves-refl i known))

  mark_as_expired-Moves : Moves i (state_after (request_mark_as_expired texts passport i))
  mark_as_expired-Moves = rw (request_mark_as_expired_branches texts keeps i known passport) (
      Moves-if i (determine_if passport manages i) (done tt (with_status i "EXPIRED"))
        (thrown (plain_error "Cannot mark invitation as expired") i)
        (λ _. with_status-Moves i "EXPIRED" refl (ground arith)) (λ _. Moves-refl i known))

  accept-Moves :
      (first second : ℕ) (by : String)
      → Moves i (state_after (request_accept texts first second by i))
  accept-Moves first second by = rw (request_accept_branches texts keeps i known first second by) (
      Moves-if i (open_at first i)
        (if leb i.props.expires_at second
          then thrown (plain_error "Cannot accept expired invitation") i
          else done tt (accepted i by))
        (thrown (plain_error "Cannot accept inactive invitation") i)
        (λ open_now.
          Moves-if i (leb i.props.expires_at second)
            (thrown (plain_error "Cannot accept expired invitation") i) (done tt (accepted i by))
            (λ _. Moves-refl i known) (λ _. accepted-Moves first i by open_now))
        (λ _. Moves-refl i known))

  reject-Moves : (now : ℕ) → Moves i (state_after (request_reject texts now i))
  reject-Moves now = rw (request_reject_branches texts keeps i known now) (
      Moves-if i (open_at now i) (done tt (with_status i "REJECTED"))
        (thrown (plain_error "Cannot reject inactive invitation") i)
        (λ open_now. with_status-Moves i "REJECTED" refl (ground arith)) (λ _. Moves-refl i known))

  setter-Moves :
      (u : MemberInvitation)
      → u.props.status ≡ i.props.status
      → u.props.accepted_by ≡ i.props.accepted_by
      → Moves i u
  setter-Moves u same user = ground (arith, eq_iff u.props.status i.props.status)

  pub perform-Moves : (c : Command) → Moves i (state_after (perform texts passport c i))
  unfolding perform set_email set_message set_expires_at request_extend_expiration invitation_email
      invitation_expires_at
  perform-Moves mark_as_sent = mark_as_sent-Moves
  perform-Moves mark_as_expired = mark_as_expired-Moves
  perform-Moves (accept first second by) = accept-Moves first second by
  perform-Moves (reject now) = reject-Moves now
  perform-Moves (extend first second d) =
      setter-Moves (state_after (perform texts passport (extend first second d) i))
        (ground (arith, is_active_of_known texts keeps first i known))
        (ground (arith, is_active_of_known texts keeps first i known))
  perform-Moves c =
      setter-Moves (state_after (perform texts passport c i)) (ground arith) (ground arith)
