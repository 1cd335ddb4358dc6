-- ===== src/Management/Activated.antt =====
-- activateMember: which account it accepts, and what it leaves of the documents.
use cellixjs.Base.{
  ◌≡◌, refl, ◌∙◌, sym, ap, arith, Bool, true, false, List, [], ◌∷◌, ◌++◌, String, some, done, find,
  any, ◌==◌, subst,
}
use cellixjs.ValueObjects.{ValueObjectLaws}
use cellixjs.Iam.Community.{for_community}
use cellixjs.UnitOfWork.Transaction.{Attempts}
use cellixjs.Community.Members.State.{
  Member, MemberProps, MemberAccount, awaits_activation, with_code, change_first, manages_members,
}
use cellixjs.Community.Members.Methods.{request_activate_member}
use cellixjs.Community.Members.Lifecycle.{request_activate_branches}
use cellixjs.Management.Source.{Host, Source, Session, get_by_id, call, doc_has_id, put_document}
use cellixjs.Management.Single.{activate_in, activate_member}
use cellixjs.Management.Saving.{Keeps, load_call-save-Keeps}
use cellixjs.Management.Returns.{bind_done, get_by_id-done, call-done, save-done, transaction-done}
use cellixjs.Management.Written.{found_id}
use cellixjs.Management.Documents.{put_is_found, others_stay_put}

-- `a` is the first account of the list that waits for activation, and `b` has been put in its place.
abbrev pub FirstReplaced :
    List MemberAccount → List MemberAccount → MemberAccount → MemberAccount → Type 0
FirstReplaced xs ys a b =
    (earlier : List MemberAccount) × ((later : List MemberAccount) × ((xs ≡ earlier ++ a ∷ later)
        × ((any awaits_activation earlier ≡ false)
            × ((awaits_activation a ≡ true) × (ys ≡ earlier ++ b ∷ later)))))

first_replaced :
    (xs : List MemberAccount)
    → any awaits_activation xs ≡ true
    → (a : MemberAccount) × FirstReplaced xs
        (change_first awaits_activation (with_code "ACCEPTED") xs)
        a
        (with_code "ACCEPTED" a)
first_replaced [] h = ground arith
first_replaced (x ∷ xs) h = go (awaits_activation x) refl (first_replaced xs)
  where
    go :
        (b : Bool)
        → awaits_activation x ≡ b
        → (any awaits_activation xs ≡ true
            → (a : MemberAccount) × FirstReplaced xs
                (change_first awaits_activation (with_code "ACCEPTED") xs)
                a
                (with_code "ACCEPTED" a))
        → (a : MemberAccount) × FirstReplaced
            (x ∷ xs)
            (change_first awaits_activation (with_code "ACCEPTED") (x ∷ xs))
            a
            (with_code "ACCEPTED" a)
    go true e rest = (x, ([], (xs, (refl, (refl, (e, ground (arith, e)))))))
    go false e rest =
        let (a, (earlier, (later, (is_xs, (none_wait, (waits, is_ys)))))) =
          rest (ground (arith, h, e)) in
        (
          a,
          (
            x ∷ earlier,
            (
              later,
              (
                ap (λ zs. x ∷ zs) is_xs,
                (ground (arith, none_wait, e), (waits, ground (arith, e, is_ys))),
              ),
            ),
          ),
        )

activated_object :
    (host : Host) (laws : ValueObjectLaws host.values) (m u : Member)
    → request_activate_member host.values host.passport m ≡ done tt u
    → (for_community host.passport m.visa_community manages_members ≡ true)
      × ((any awaits_activation m.props.accounts ≡ true)
          × ((u.root.is_deleted ≡ m.root.is_deleted)
              × (u.props ≡ record m.props {
                accounts = change_first awaits_activation (with_code "ACCEPTED") m.props.accounts;
              })))
activated_object host laws m u h =
    ground (arith, request_activate_branches host.values laws host.passport m)

activation-Keeps : (host : Host) (id : String) → Keeps (activate_in host id)
unfolding activate_in
activation-Keeps host id =
    load_call-save-Keeps host (request_activate_member host.values host.passport) id

-- What the callback found and wrote.
activate_in-done :
    (host : Host) (laws : ValueObjectLaws host.values) (id : String) (s t : Session)
    (q : MemberProps)
    → activate_in host id s ≡ done q t
    → (p : MemberProps) × ((find (doc_has_id id) s.source.members ≡ some p)
        × ((for_community host.passport p.community_id manages_members ≡ true)
            × ((any awaits_activation p.accounts ≡ true)
                × ((q ≡ record p {
                  accounts = change_first awaits_activation (with_code "ACCEPTED") p.accounts;
                })
                    × (t.documents ≡ put_document q s.documents)))))
unfolding activate_in
activate_in-done host laws id s t q h =
    let (m, (s1, (e1, h1))) = bind_done (get_by_id id) _ s t q h in
    let (u, (s2, (e2, h2))) =
      bind_done (call (request_activate_member host.values host.passport) m) _ s1 t q h1 in
    let (p, (there, (is_m, at1))) = get_by_id-done id s s1 m e1 in
    let (called, at2) =
      call-done (request_activate_member host.values host.passport) m u s1 s2 e2 in
    let (allowed, (waits, (kept, props))) = activated_object host laws m u called in
    let (is_q, wrote) = save-done host u s2 t q h2 in
    (
      p,
      (
        there,
        (
          ground (arith, allowed, is_m),
          (
            ground (arith, waits, is_m),
            (ground (arith, is_q, props, is_m), ground (arith, is_q, wrote, kept, is_m, at1, at2)),
          ),
        ),
      ),
    )

-- With value objects that keep their laws, an `activateMember` that returns was called by somebody
-- who manages the members of the member's community. It returns the document with the given id in
-- which the first account that waits for activation is accepted and nothing else differs; a lookup
-- of that id finds this document afterwards, and a lookup of any other id finds what it found
-- before. That is so whatever the driver's decisions are.
pub activate_member_returns :
    (host : Host) (laws : ValueObjectLaws host.values) (attempts : Attempts) (id : String)
    (s t : Source) (q : MemberProps)
    → activate_member host attempts id s ≡ done q t
    → (p : MemberProps) × ((find (doc_has_id id) s.members ≡ some p)
        × ((for_community host.passport p.community_id manages_members ≡ true)
            × ((a : MemberAccount) × (FirstReplaced p.accounts q.accounts a (with_code "ACCEPTED" a)
                  × ((q ≡ record p { accounts = q.accounts })
                      × ((find (doc_has_id id) t.members ≡ some q)
                          × ((other : String)
                              → (id == other) ≡ false
                              → find (doc_has_id other) t.members
                                ≡ find (doc_has_id other) s.members)))))))
unfolding activate_member
activate_member_returns host laws attempts id s t q h =
    let (b, (same, (fresh, (c, (returned, is_t))))) =
      transaction-done attempts (activate_in host id) s t q (activation-Keeps host id) h in
    let (p, (there, (allowed, (waits, (is_q, wrote))))) =
      activate_in-done host laws id b c q returned in
    let found_p : find (doc_has_id id) s.members ≡ some p =
      ap (find (doc_has_id id)) (sym same) ∙ there in
    let (a, (earlier, (later, (is_xs, (none_wait, (a_waits, is_ys)))))) =
      first_replaced p.accounts waits in
    let written : t.members ≡ put_document q s.members = is_t ∙ wrote ∙ ap (put_document q) fresh in
    let same_id : q.id ≡ id =
      ap (λ (x : MemberProps). x.id) is_q ∙ found_id id s.members p found_p in
    (
      p,
      (
        found_p,
        (
          allowed,
          (
            a,
            (
              (
                earlier,
                (
                  later,
                  (
                    is_xs,
                    (none_wait, (a_waits, ap (λ (x : MemberProps). x.accounts) is_q ∙ is_ys)),
                  ),
                ),
              ),
              (
                ground (arith, is_q),
                (
                  ap (find (doc_has_id id)) written
                      ∙ subst (λ i. find (doc_has_id i) (put_document q s.members) ≡ some q) same_id
                          (put_is_found q s.members),
                  λ other e.
                      ap (find (doc_has_id other)) written
                      ∙ others_stay_put q other s.members
                          (subst (λ i. (i == other) ≡ false) (sym same_id) e),
                ),
              ),
            ),
          ),
        ),
      ),
    )
