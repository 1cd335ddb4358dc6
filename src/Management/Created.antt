-- ===== src/Management/Created.antt =====
-- createMember: what the new document is, and the name that was looked for.
use cellixjs.Base.{
  ◌≡◌, ◌∙◌, arith, Bool, false, not, List, String, Option, none, some, done, find, any, guard, inl,
  inr, Option-cases,
}
use cellixjs.UnitOfWork.Transaction.{Attempts}
use cellixjs.Community.Members.State.{Member, MemberProps, member_name_rule}
use cellixjs.Community.Members.Methods.{get_new_instance, set_role, set_member_name, set_community}
use cellixjs.Management.Source.{Host, Source, EndUserRole, call, put_document}
use cellixjs.Management.Users.{
  create_member, new_member, create_in, blank_member, default_found, has_name,
}
use cellixjs.Management.Callbacks.{creation-Keeps}
use cellixjs.Management.Returns.{bind_done, guard-done, call-done, save-done, transaction-done}

new_member-done :
    (host : Host) (name community role : String) (m u : Member)
    → new_member host name community role m ≡ done tt u
    → (stored : String) × ((host.values.vo_string member_name_rule name ≡ some stored)
        × ((u.root ≡ m.root)
            × (u.props
                ≡ record m.props { member_name = stored; community_id = community; role = role })))
unfolding new_member get_new_instance set_member_name set_community set_role
new_member-done host name community role m u h =
    elim (Option-cases (host.values.vo_string member_name_rule name)) [
      | inl e ↦ ground (arith, e)
      | inr (stored, e) ↦ (stored, (e, ground (arith, e)))
    ]

default_found-done :
    (o : Option (EndUserRole × Bool)) (r : EndUserRole) (s t : Source)
    → default_found o s ≡ done r t
    → ((is_default : Bool) × (o ≡ some (r, is_default))) × (t ≡ s)
default_found-done none r s t h = ground arith
default_found-done (some (x, d)) r s t h = ((d, ground arith), ground arith)

-- A `createMember` that returns has found no member of the community with the name as it was
-- given, and a default role, and has put a document into the collection that has that role and the
-- name as the value object made it; the two names may differ. That is so whatever the driver's
-- decisions are.
pub create_member_returns :
    (host : Host) (roles : String → List (EndUserRole × Bool)) (attempts : Attempts)
    (blank : MemberProps) (name community : String) (s t : Source) (q : MemberProps)
    → create_member host roles attempts blank name community s ≡ done q t
    → (any (has_name name community) s.members ≡ false)
      × ((stored : String) × ((r : EndUserRole) × (((is_default : Bool) × (find
                    (λ x. x.1)
                    (roles community)
                  ≡ some (r, is_default)))
              × ((host.values.vo_string member_name_rule name ≡ some stored)
                  × ((q ≡ record blank {
                    member_name = stored;
                    community_id = community;
                    role = r.id;
                  })
                      × (t.members ≡ put_document q s.members))))))
unfolding create_member create_in
create_member_returns host roles attempts blank name community s t q h =
    let (x, (s1, (e1, h1))) =
      bind_done (guard (λ v. not (any (has_name name community) v.members)) _) _ s t q h in
    let (r, (s2, (e2, h2))) =
      bind_done (default_found (find (λ x. x.1) (roles community))) _ s1 t q h1 in
    let (b, (x1, (fresh, (c, (h3, is_t))))) =
      transaction-done attempts _ s2 t q (creation-Keeps host name community r.id blank) h2 in
    let (u, (s4, (e4, h4))) =
      bind_done (call (new_member host name community r.id) (blank_member blank community)) _ b c q
        h3 in
    let (free, at1) = guard-done (λ v. not (any (has_name name community) v.members)) _ s s1 e1 in
    let (role, at2) = default_found-done (find (λ x. x.1) (roles community)) r s1 s2 e2 in
    let (called, at4) =
      call-done (new_member host name community r.id) (blank_member blank community) u b s4 e4 in
    let (stored, (is_stored, (root, props))) =
      new_member-done host name community r.id (blank_member blank community) u called in
    let (is_q, wrote) = save-done host u s4 c q h4 in
    (
      ground arith,
      (
        stored,
        (
          r,
          (
            role,
            (
              is_stored,
              (is_q ∙ props, ground (arith, is_q, props, root, wrote, at1, at2, at4, fresh, is_t)),
            ),
          ),
        ),
      ),
    )
