-- ===== src/Management/Loading.antt =====
-- activate_in, deactivate_in and remove_in are steady.
use cellixjs.Base.{
  ◌≡◌, refl, ◌∙◌, sym, ap, arith, false, String, Option, none, some, Exec, Outcome, done, thrown,
  ◌>>=◌, and_then, state_after, inl, inr, Option-cases, find, ◌==◌, subst,
}
use cellixjs.Community.Members.State.{Member, MemberProps, awaits_activation, is_accepted}
use cellixjs.Community.Members.Methods.{
  request_activate_member, request_deactivate_member, request_remove_member,
}
use cellixjs.Management.Source.{
  Host, Session, save, session_scope, ended, get_by_id, found, changed_by, call, doc_has_id,
  to_domain,
}
use cellixjs.Management.Single.{activate_in, deactivate_in, remove_in}
use cellixjs.Management.Saving.{load_call-save-Keeps}
use cellixjs.Management.Written.{found_id}
use cellixjs.Management.Steady.{
  Steady, restarted, settled, answer, save_alone, save_others, answer-save,
}

-- A method that leaves the member's id as it is.
abbrev pub KeepsId : Exec Member (Unit {0}) → Type 0
KeepsId method = (m u : Member) → method m ≡ done tt u → u.props.id ≡ m.props.id

module _ (host : Host) (method : Exec Member (Unit {0})) where
  abbrev rest : Member → Exec Session MemberProps
  rest m = call method m >>= (λ u. save host u)

  rest_alone :
      (m : Member) (t : Session) → ended session_scope (rest m (restarted t)) ≡ settled (rest m t)
  rest_alone m t = go (method m)
    where
      go :
          (o : Outcome Member (Unit {0}))
          → ended session_scope (and_then (changed_by o (restarted t)) (λ u. save host u))
            ≡ settled (and_then (changed_by o t) (λ u. save host u))
      go (done x u) = save_alone host u t
      go (thrown e u) = refl

  found_alone :
      (id : String) (t : Session) (o : Option MemberProps)
      → ended session_scope (and_then (found id o (restarted t)) rest)
        ≡ settled (and_then (found id o t) rest)
  found_alone id t none = refl
  found_alone id t (some p) = rest_alone (to_domain p) t

  abbrev one : String → Exec Session MemberProps
  one id = get_by_id id >>= rest

  one_alone :
      (id : String) (t : Session)
      → find (doc_has_id id) t.documents ≡ find (doc_has_id id) t.source.members
      → ended session_scope (one id (restarted t)) ≡ settled (one id t)
  unfolding get_by_id
  one_alone id t h =
      ap (λ o. ended session_scope (and_then (found id o (restarted t)) rest)) h
      ∙ found_alone id t (find (doc_has_id id) t.source.members)

  answer-rest : (m : Member) (t u : Session) → answer (rest m t) ≡ answer (rest m u)
  answer-rest m t u = go (method m)
    where
      go :
          (o : Outcome Member (Unit {0}))
          → answer (and_then (changed_by o t) (λ v. save host v))
            ≡ answer (and_then (changed_by o u) (λ v. save host v))
      go (done x v) = answer-save host v t u
      go (thrown e v) = refl

  answer-found :
      (id : String) (t u : Session) (o : Option MemberProps)
      → answer (and_then (found id o t) rest) ≡ answer (and_then (found id o u) rest)
  answer-found id t u none = refl
  answer-found id t u (some p) = answer-rest (to_domain p) t u

  answer-one :
      (id : String) (t u : Session)
      → t.source.members ≡ u.source.members
      → answer (one id t) ≡ answer (one id u)
  unfolding get_by_id
  answer-one id t u h =
      answer-found id t u (find (doc_has_id id) t.source.members)
      ∙ ap (λ docs. answer (and_then (found id (find (doc_has_id id) docs) u) rest)) h

  module _ (keeps_id : KeepsId method) where
    rest_others :
        (m : Member) (other : String) (t : Session)
        → (m.props.id == other) ≡ false
        → find (doc_has_id other) (state_after (rest m t)).documents
          ≡ find (doc_has_id other) t.documents
    rest_others m other t h = go (method m) refl
      where
        go :
            (o : Outcome Member (Unit {0}))
            → method m ≡ o
            → find
                (doc_has_id other)
                (state_after (and_then (changed_by o t) (λ u. save host u))).documents
              ≡ find (doc_has_id other) t.documents
        go (done tt u) e =
            save_others host u other t (subst (λ i. (i == other) ≡ false) (sym (keeps_id m u e)) h)
        go (thrown e u) k = refl

    one_others :
        (id other : String) (t : Session)
        → (id == other) ≡ false
        → find (doc_has_id other) (state_after (one id t)).documents
          ≡ find (doc_has_id other) t.documents
    unfolding get_by_id
    one_others id other t h = go (find (doc_has_id id) t.source.members) refl
      where
        go :
            (o : Option MemberProps)
            → find (doc_has_id id) t.source.members ≡ o
            → find (doc_has_id other) (state_after (and_then (found id o t) rest)).documents
              ≡ find (doc_has_id other) t.documents
        go none e = refl
        go (some p) e =
            rest_others (to_domain p) other t
              (subst (λ i. (i == other) ≡ false) (sym (found_id id t.source.members p e)) h)

    load_call-save-Steady : Steady one
    load_call-save-Steady = record {
      keeps = load_call-save-Keeps host method;
      same_alone = one_alone;
      others_stay = one_others;
      same_answer = answer-one;
    }

module _ (host : Host) where
  activate-KeepsId : KeepsId (request_activate_member host.values host.passport)
  unfolding request_activate_member
  activate-KeepsId m u h = elim (Option-cases (find awaits_activation m.props.accounts)) [
    | inl e ↦ ground (arith, e)
    | inr (a, e) ↦ ground (arith, e)
  ]

  deactivate-KeepsId :
      (by why : Option String)
      → KeepsId (request_deactivate_member host.values host.passport by why)
  unfolding request_deactivate_member
  deactivate-KeepsId by why m u h = elim (Option-cases (find is_accepted m.props.accounts)) [
    | inl e ↦ ground (arith, e)
    | inr (a, e) ↦ ground (arith, e)
  ]

  remove-KeepsId :
      (by why : Option String) → KeepsId (request_remove_member host.values host.passport by why)
  unfolding request_remove_member
  remove-KeepsId by why m u h = ground arith

  pub activate_in-Steady : Steady (activate_in host)
  unfolding activate_in
  activate_in-Steady =
      load_call-save-Steady host (request_activate_member host.values host.passport)
        activate-KeepsId

  pub deactivate_in-Steady : (why : Option String) → Steady (deactivate_in host why)
  unfolding deactivate_in
  deactivate_in-Steady why =
      load_call-save-Steady host (request_deactivate_member host.values host.passport none why)
        (deactivate-KeepsId none why)

  pub remove_in-Steady : (why : Option String) → Steady (remove_in host why)
  unfolding remove_in
  remove_in-Steady why =
      load_call-save-Steady host (request_remove_member host.values host.passport none why)
        (remove-KeepsId none why)
