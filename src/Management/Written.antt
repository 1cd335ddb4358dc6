-- ===== src/Management/Written.antt =====
-- removeMember and updateMemberRole: which documents they leave.
use cellixjs.Base.{
  ◌≡◌, refl, ◌∙◌, sym, ap, arith, true, false, List, [], ◌∷◌, String, Option, none, some, done,
  find, any, guard, ◌==◌, eq_refl, eq_sound, plain_error,
}
use cellixjs.Iam.Visas.{Passport}
use cellixjs.ValueObjects.{ValueObjects}
use cellixjs.UnitOfWork.Transaction.{Attempts}
use cellixjs.Community.Members.State.{Member, MemberProps, determine_if, manages_members}
use cellixjs.Community.Members.Methods.{request_remove_member, set_role}
use cellixjs.Management.Source.{
  Host, Source, Session, EndUserRole, get_by_id, call, doc_has_id, delete_document, put_document,
}
use cellixjs.Management.Single.{
  remove_in, remove_member, update_member_role, change_role_in, role_found,
}
use cellixjs.Management.Callbacks.{role-Keeps}
use cellixjs.Management.Saving.{Keeps, load_call-save-Keeps}
use cellixjs.Management.Returns.{
  bind_done, get_by_id-done, call-done, guard-done, save-done, transaction-done,
}

-- No two documents have the same id.
abbrev pub UniqueIds : List MemberProps → Type 0
UniqueIds [] = Unit {0}
UniqueIds (p ∷ docs) = (any (doc_has_id p.id) docs ≡ false) × UniqueIds docs

any-find :
    (id : String) (docs : List MemberProps)
    → any (doc_has_id id) docs ≡ false
    → find (doc_has_id id) docs ≡ none
any-find id [] h = refl
any-find id (p ∷ docs) h = ground (arith, any-find id docs)

pub found_id :
    (id : String) (docs : List MemberProps) (p : MemberProps)
    → find (doc_has_id id) docs ≡ some p
    → p.id ≡ id
found_id id [] p h = ground arith
found_id id (q ∷ docs) p h = ground (arith, found_id id docs p, eq_sound q.id id)

deleted_is_absent :
    (id : String) (docs : List MemberProps)
    → UniqueIds docs
    → find (doc_has_id id) (delete_document id docs) ≡ none
deleted_is_absent id [] u = refl
deleted_is_absent id (p ∷ docs) u =
    ground (arith, deleted_is_absent id docs u.1, any-find id docs, eq_sound p.id id, u.0)

others_stay :
    (id other : String) (docs : List MemberProps)
    → (other == id) ≡ false
    → find (doc_has_id other) (delete_document id docs) ≡ find (doc_has_id other) docs
others_stay id other [] h = refl
others_stay id other (p ∷ docs) h =
    ground (arith, others_stay id other docs h, eq_sound p.id id, eq_sound p.id other, eq_refl id)

remove_marks :
    (vo : ValueObjects) (passport : Passport) (by why : Option String) (m u : Member)
    → request_remove_member vo passport by why m ≡ done tt u
    → (determine_if passport manages_members m ≡ true)
      × ((u.root.is_deleted ≡ true) × (u.props ≡ m.props))
unfolding request_remove_member
remove_marks vo passport by why m u h = ground arith

remove_in-done :
    (host : Host) (reason : Option String) (id : String) (s t : Session) (q : MemberProps)
    → remove_in host reason id s ≡ done q t
    → s.documents ≡ s.source.members
    → t.documents ≡ delete_document id s.documents
unfolding remove_in
remove_in-done host reason id s t q h fresh =
    let (m, (s1, (e1, h1))) = bind_done (get_by_id id) _ s t q h in
    let (u, (s2, (e2, h2))) =
      bind_done (call (request_remove_member host.values host.passport none reason) m) _ s1 t q
        h1 in
    let (p, (there, (same, at_start))) = get_by_id-done id s s1 m e1 in
    let (called, at_call) =
      call-done (request_remove_member host.values host.passport none reason) m u s1 s2 e2 in
    let marks = remove_marks host.values host.passport none reason m u called in
    let wrote = (save-done host u s2 t q h2).1 in
    let same_id = found_id id s.source.members p there in
    ground (arith, marks, wrote, same_id, same, at_call, at_start)

removal-Keeps :
    (host : Host) (reason : Option String) (id : String) → Keeps (remove_in host reason id)
unfolding remove_in
removal-Keeps host reason id =
    load_call-save-Keeps host (request_remove_member host.values host.passport none reason) id

-- Where no two documents have the same id, a `removeMember` that returns has deleted the document
-- with the given id, and no other one, whatever the driver's decisions are.
pub remove_member_deletes :
    (host : Host) (attempts : Attempts) (reason : Option String) (id : String) (s t : Source)
    (q : MemberProps)
    → UniqueIds s.members
    → remove_member host attempts reason id s ≡ done q t
    → (find (doc_has_id id) t.members ≡ none)
      × ((other : String)
          → (other == id) ≡ false
          → find (doc_has_id other) t.members ≡ find (doc_has_id other) s.members)
unfolding remove_member
remove_member_deletes host attempts reason id s t q unique h =
    let (before, (same, (fresh, (after, (returned, is_t))))) =
      transaction-done attempts (remove_in host reason id) s t q (removal-Keeps host reason id) h in
    let gone : t.members ≡ delete_document id s.members =
      is_t
      ∙ remove_in-done host reason id before after q returned (fresh ∙ sym same)
      ∙ ap (delete_document id) fresh in
    (
      ap (find (doc_has_id id)) gone ∙ deleted_is_absent id s.members unique,
      λ other e. ap (find (doc_has_id other)) gone ∙ others_stay id other s.members e,
    )

set_role-done :
    (vo : ValueObjects) (passport : Passport) (role : String) (m u : Member)
    → set_role vo passport role m ≡ done tt u
    → (u.root.is_deleted ≡ m.root.is_deleted) × (u.props ≡ record m.props { role = role })
unfolding set_role
set_role-done vo passport role m u h = ground arith

role_found-done :
    (id : String) (o : Option EndUserRole) (r : EndUserRole) (s t : Session)
    → role_found id o s ≡ done r t
    → (o ≡ some r) × (t ≡ s)
role_found-done id none r s t h = ground arith
role_found-done id (some x) r s t h = ground arith

-- An `updateMemberRole` that returns has found the role, which is of the member's community, and
-- has put it into the member's document and changed nothing else, whatever the driver's decisions
-- are.
pub update_member_role_same_community :
    (host : Host) (attempts : Attempts) (id role_id : String) (s t : Source) (q : MemberProps)
    → update_member_role host attempts id role_id s ≡ done q t
    → (p : MemberProps) × ((r : EndUserRole) × ((find (doc_has_id id) s.members ≡ some p)
          × ((host.role role_id ≡ some r)
              × ((r.community_id ≡ p.community_id)
                  × ((q ≡ record p { role = r.id }) × (t.members ≡ put_document q s.members))))))
unfolding update_member_role change_role_in
update_member_role_same_community host attempts id role_id s t q h =
    let (b, (same, (fresh, (c, (h0, is_t))))) =
      transaction-done attempts _ s t q (role-Keeps host id role_id) h in
    let (r, (s1, (e1, h1))) = bind_done (role_found role_id (host.role role_id)) _ b c q h0 in
    let (m, (s2, (e2, h2))) = bind_done (get_by_id id) _ s1 c q h1 in
    let (u, (s3, (e3, h3))) =
      bind_done
        (guard (λ _. r.community_id == m.props.community_id)
          (plain_error "Role does not belong to the same community as the member"))
        _ s2 c q h2 in
    let (v, (s4, (e4, h4))) =
      bind_done (call (set_role host.values host.passport r.id) m) _ s3 c q h3 in
    let (p, (there, (is_p, at2))) = get_by_id-done id s1 s2 m e2 in
    let (role, at1) = role_found-done role_id (host.role role_id) r b s1 e1 in
    let (allowed, at3) =
      guard-done (λ _. r.community_id == m.props.community_id)
        (plain_error "Role does not belong to the same community as the member") s2 s3 e3 in
    let (called, at4) = call-done (set_role host.values host.passport r.id) m v s3 s4 e4 in
    let set = set_role-done host.values host.passport r.id m v called in
    let (is_q, wrote) = save-done host v s4 c q h4 in
    (
      p,
      (
        r,
        (
          ground (arith, there, at1, same),
          (
            role,
            (
              ground (arith, allowed, is_p, eq_sound r.community_id p.community_id),
              (
                ground (arith, is_q, set, is_p),
                ground (arith, is_q, wrote, set, is_p, at1, at2, at3, at4, fresh, is_t),
              ),
            ),
          ),
        ),
      ),
    )
