-- ===== src/Community/Invitation/History.antt =====
-- An invitation over any history of calls.
use cellixjs.Base.{
  Bool, true, false, ◌||◌, List, [], ◌∷◌, ◌≡◌, ◌⊎◌, refl, ◌∙◌, arith, none, ◌==◌, eq_iff, eq_refl,
  eq_left, not_both, state_after, inl, inr,
}
use cellixjs.Iam.Visas.{Passport}
use cellixjs.Community.Invitation.State.{MemberInvitation, Texts, KeepsStatuses}
use cellixjs.Community.Invitation.Methods.{Command, perform, run}
use cellixjs.Community.Invitation.Lifecycle.{IsKnown}
use cellixjs.Community.Invitation.Moves.{may_move, Moves, perform-Moves}

abbrev pub is_waiting : MemberInvitation → Bool
is_waiting i = i.props.status == "PENDING" || i.props.status == "SENT"

-- An accepting user is recorded only on an invitation that was accepted.
pub record IsConsistent (i : MemberInvitation) : Type 0 where
  pub known : IsKnown i
  pub user_accepted :
      (i.props.accepted_by ≡ none)
      ⊎ (i.props.status == "ACCEPTED" || i.props.status == "EXPIRED" ≡ true)

-- An answer that is kept: the user, and the status or EXPIRED.
pub record KeepsAnswer (i u : MemberInvitation) : Type 0 where
  pub known : IsKnown u
  pub same_user : u.props.accepted_by ≡ i.props.accepted_by
  pub same_or_expired : u.props.status == i.props.status || u.props.status == "EXPIRED" ≡ true

Moves-KeepsAnswer : (i u : MemberInvitation) → is_waiting i ≡ false → Moves i u → KeepsAnswer i u
Moves-KeepsAnswer i u closed m = record {
  known = m.known;
  same_user = elim m.user_kept [ inl e ↦ e | inr e ↦ ground arith ];
  same_or_expired = ground (arith, m.status_move);
}

Moves-IsConsistent : (i u : MemberInvitation) → IsConsistent i → Moves i u → IsConsistent u
Moves-IsConsistent i u ok m = record {
  known = m.known;
  user_accepted = elim m.user_kept [
    | inl e ↦ elim ok.user_accepted [
      | inl n ↦ inl (e ∙ n)
      | inr a ↦ inr (
          ground (
            arith,
            m.status_move,
            eq_left u.props.status i.props.status "ACCEPTED",
            eq_left u.props.status i.props.status "EXPIRED",
            not_both i.props.status "PENDING" "ACCEPTED" refl,
            not_both i.props.status "PENDING" "EXPIRED" refl,
            not_both i.props.status "SENT" "ACCEPTED" refl,
            not_both i.props.status "SENT" "EXPIRED" refl,
          ))
    ]
    | inr e ↦ inr (ground arith)
  ];
}

KeepsAnswer-trans : (i u v : MemberInvitation) → KeepsAnswer i u → KeepsAnswer u v → KeepsAnswer i v
KeepsAnswer-trans i u v p q = record {
  known = q.known;
  same_user = q.same_user ∙ p.same_user;
  same_or_expired = ground (
    arith,
    p.same_or_expired,
    q.same_or_expired,
    eq_iff u.props.status i.props.status,
    eq_iff v.props.status u.props.status,
    eq_iff v.props.status i.props.status,
    eq_iff u.props.status "EXPIRED",
    eq_iff v.props.status "EXPIRED",
  );
}

KeepsAnswer-closed :
    (i u : MemberInvitation) → is_waiting i ≡ false → KeepsAnswer i u → is_waiting u ≡ false
KeepsAnswer-closed i u closed k = ground (
  arith,
  k.same_or_expired,
  eq_iff u.props.status i.props.status,
  eq_iff u.props.status "EXPIRED",
  eq_iff i.props.status "PENDING",
  eq_iff i.props.status "SENT",
  eq_iff u.props.status "PENDING",
  eq_iff u.props.status "SENT",
  eq_iff "EXPIRED" "PENDING",
  eq_iff "EXPIRED" "SENT",
)

module _ (texts : Texts) (keeps : KeepsStatuses texts) where
  -- Each call on an invitation with a known status moves the status along the table, and leaves a
  -- known status, whether it returns or throws.
  pub calls_walk_the_table :
      (passport : Passport) (c : Command) (i : MemberInvitation)
      → IsKnown i
      → IsKnown (state_after (perform texts passport c i))
        × (may_move i.props.status (state_after (perform texts passport c i)).props.status ≡ true)
  calls_walk_the_table passport c i known =
      let m = perform-Moves texts keeps passport i known c in (m.known, m.status_move)

  -- Over any calls by anyone, an invitation with a known status that is neither pending nor sent
  -- keeps the user who accepted it and its status, unless it is marked as expired: nobody accepts
  -- or rejects it a second time.
  pub answer_is_kept :
      (cs : List (Passport × Command)) (i : MemberInvitation)
      → IsKnown i
      → is_waiting i ≡ false
      → KeepsAnswer i (run texts cs i)
  unfolding run
  answer_is_kept [] i known closed = record {
    known = known;
    same_user = refl;
    same_or_expired = ground (arith, eq_refl i.props.status);
  }
  answer_is_kept ((passport, c) ∷ cs) i known closed =
      let u = state_after (perform texts passport c i) in
      let k = Moves-KeepsAnswer i u closed (perform-Moves texts keeps passport i known c) in
      KeepsAnswer-trans i u (run texts cs u) k
        (answer_is_kept cs u k.known (KeepsAnswer-closed i u closed k))

  -- Over any calls by anyone, an invitation with a known status stays consistent: a user is
  -- recorded as accepting only where it is accepted, or was marked as expired.
  pub run-IsConsistent :
      (cs : List (Passport × Command)) (i : MemberInvitation)
      → IsConsistent i
      → IsConsistent (run texts cs i)
  unfolding run
  run-IsConsistent [] i ok = ok
  run-IsConsistent ((passport, c) ∷ cs) i ok =
      run-IsConsistent cs (state_after (perform texts passport c i)) (
        Moves-IsConsistent i (state_after (perform texts passport c i)) ok
          (perform-Moves texts keeps passport i ok.known c))
