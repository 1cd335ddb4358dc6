-- ===== src/Management/Steps.antt =====
-- Each operation leaves accounts apart where they were.
use cellixjs.Base.{
  ◌≡◌, ◌∙◌, sym, ap, arith, Bool, true, false, not, List, [], String, some, Exec, done, find, any,
  ◌==◌, subst, ◌>>=◌, guard,
}
use cellixjs.UnitOfWork.Transaction.{Attempts}
use cellixjs.Community.Members.State.{Member, MemberAccount, MemberProps, has_id}
use cellixjs.Community.Members.Methods.{set_role, request_remove_account}
use cellixjs.Management.Source.{
  Host, Source, EndUserRole, get_by_id, to_domain, call, save, doc_has_id,
}
use cellixjs.Management.Single.{update_member_role, change_role_in, role_found}
use cellixjs.Management.Accounts.{
  AccountName, add_account, fill_account, of_user, taken_by_other, create_member_account,
  update_member_account, remove_member_account, create_account_in, update_account_in,
  remove_account_in, end_user_found, account_found, get_account_name_from_end_user,
  ensure_end_user_is_already_in_community,
}
use cellixjs.Management.Users.{
  new_member, create_member, create_in, blank_member, default_found, has_name, name_taken,
}
use cellixjs.Management.Saving.{guard-Reads}
use cellixjs.Management.Returns.{bind_done, Reads-done}
use cellixjs.Management.Callbacks.{
  role-Keeps, new_account-Keeps, update_account-Keeps, remove_account-Keeps, creation-Keeps,
}
use cellixjs.Management.Apart.{Apart, Apart-append}
use cellixjs.Management.Changes.{KeepsApart, role-KeepsApart, remove_account-KeepsApart}
use cellixjs.Management.Filling.{fill_account-Apart, new_account_accounts, new_member-Apart}
use cellixjs.Management.Lookups.{
  role-Reads, account-Reads, name-Reads, FindsUsers, Finds-account, Finds-user,
}
use cellixjs.Management.Effects.{default_found-Reads, Operation, create_account, create}
use cellixjs.Management.Finding.{
  AllApart, Leaves, LeavesIn, Loaded, chain, Finds-Reads, Leaves-transaction, Finds-member,
  Finds-true, Finds-call, leaves_save,
}

-- The accounts and documents that the database makes are new: the id of an account is in no list of
-- accounts that it is put into, and a new document has no accounts.
abbrev pub Fresh : Operation → List MemberProps → Type 0
Fresh (create_account item id user) docs =
    (p : MemberProps) → find (doc_has_id id) docs ≡ some p → any (has_id item.id) p.accounts ≡ false
Fresh (create roles blank name community) docs = blank.accounts ≡ []
Fresh op docs = Unit {0}

module _ (host : Host) (docs : List MemberProps) (apart : AllApart docs) where
  -- The callbacks that load, call one method and save.
  one_call :
      (method : Exec Member (Unit {0})) (m : Member)
      → KeepsApart method
      → Apart m.props.accounts
      → LeavesIn docs (call method m >>= (λ u. save host u))
  one_call method m keeps h =
      chain docs (λ u. Apart u.props.accounts) (call method m) (λ u. save host u)
        (Finds-call docs _ method m (λ u e. keeps m u e h)) (λ u k. leaves_save docs host u apart k)

  pub load_and_call :
      (method : Exec Member (Unit {0})) (id : String)
      → KeepsApart method
      → LeavesIn docs (get_by_id id >>= (λ m. call method m >>= (λ u. save host u)))
  load_and_call method id keeps =
      chain docs (Loaded docs id) (get_by_id id) _ (Finds-member docs id apart)
        (λ m h. one_call method m keeps h.0)

  pub change_role-Leaves :
      (attempts : Attempts) (id role : String)
      → Leaves docs (update_member_role host attempts id role)
  unfolding update_member_role change_role_in
  change_role-Leaves attempts id role =
      Leaves-transaction docs attempts _ (role-Keeps host id role) (
        chain docs _ (role_found role (host.role role)) _
          (Finds-Reads docs _ (role-Reads role (host.role role)))
          (λ r x. chain docs (Loaded docs id) (get_by_id id) _ (Finds-member docs id apart) (λ m h.
            chain docs (λ u. (r.community_id == m.props.community_id) ≡ true) (guard _ _) _
              (Finds-true docs _ _)
              (λ u e.
                one_call (set_role host.values host.passport r.id) m
                  (role-KeepsApart host.values host.passport r.id) h.0))))

  pub remove_account-Leaves :
      (attempts : Attempts) (id account : String)
      → Leaves docs (remove_member_account host attempts id account)
  unfolding remove_member_account remove_account_in
  remove_account-Leaves attempts id account =
      Leaves-transaction docs attempts _ (remove_account-Keeps host id account) (
        chain docs (Loaded docs id) (get_by_id id) _ (Finds-member docs id apart) (λ m h.
          chain docs _ (account_found account id (find (has_id account) m.props.accounts)) _
            (Finds-Reads docs _ (account-Reads account id (find (has_id account) m.props.accounts)))
            (λ a x.
              one_call (request_remove_account host.values host.passport a.id) m
                (remove_account-KeepsApart host.values host.passport a.id) h.0)))

  creation-LeavesIn :
      (name community role : String) (blank : MemberProps)
      → blank.accounts ≡ []
      → LeavesIn docs (create_in host name community role blank)
  unfolding create_in
  creation-LeavesIn name community role blank empty =
      chain docs (λ u. Apart u.props.accounts)
        (call (new_member host name community role) (blank_member blank community))
        (λ u. save host u)
        (Finds-call docs _ (new_member host name community role) (blank_member blank community)
          (λ u e.
            new_member-Apart host name community role (blank_member blank community) u e
              (subst Apart (sym empty) tt)))
        (λ u k. leaves_save docs host u apart k)

  pub create-Leaves :
      (attempts : Attempts) (roles : String → List (EndUserRole × Bool)) (blank : MemberProps)
      (name community : String)
      → blank.accounts ≡ []
      → Leaves docs (create_member host roles attempts blank name community)
  unfolding create_member
  create-Leaves attempts roles blank name community empty s t a at_docs h =
      let (x, (s1, (e1, h1))) =
        bind_done (guard (λ v. not (any (has_name name community) v.members)) (name_taken name)) _ s
          t a h in
      let (r, (s2, (e2, h2))) =
        bind_done (default_found (find (λ r. r.1) (roles community))) _ s1 t a h1 in
      let kept : s2 ≡ s =
        Reads-done (default_found (find (λ r. r.1) (roles community))) s1 s2 r
          (default_found-Reads (find (λ r. r.1) (roles community))) e2
        ∙ Reads-done (guard (λ v. not (any (has_name name community) v.members)) (name_taken name))
            s s1 x
            (guard-Reads (λ v. not (any (has_name name community) v.members)) (name_taken name))
            e1 in
      Leaves-transaction docs attempts _ (creation-Keeps host name community r.id blank)
        (creation-LeavesIn name community r.id blank empty) s2 t a
        (ap (λ (v : Source). v.members) kept ∙ at_docs) h2

  added :
      (item : MemberAccount) (user : String) (n : AccountName) (m v : Member)
      → add_account host item user n m ≡ done tt v
      → any (has_id item.id) m.props.accounts ≡ false
      → Apart m.props.accounts
      → any (of_user user) m.props.accounts ≡ false
      → Apart v.props.accounts
  added item user n m v e fresh h free =
      let (a, (i, (u, is_v))) = new_account_accounts host item user n m v e fresh in
      subst Apart (sym is_v) (
        Apart-append m.props.accounts a h
          (subst (λ i. any (has_id i) m.props.accounts ≡ false) (sym i) fresh)
          (subst (λ i. any (of_user i) m.props.accounts ≡ false) (sym u) free))

  module _ (finds_users : FindsUsers host) where
    pub update_account-Leaves :
        (attempts : Attempts) (id account user : String)
        → Leaves docs (update_member_account host attempts id account user)
    unfolding update_member_account update_account_in
    update_account-Leaves attempts id account user =
        Leaves-transaction docs attempts _ (update_account-Keeps host id account user) (
          chain docs (Loaded docs id) (get_by_id id) _ (Finds-member docs id apart) (λ m h.
            chain docs (λ a. a.id ≡ account)
              (account_found account id (find (has_id account) m.props.accounts)) _
              (Finds-account docs account id m.props.accounts)
              (λ a same_id.
                chain docs (λ u. u.id ≡ user) (end_user_found user (host.end_user user)) _
                  (Finds-user docs host finds_users user)
                  (λ u same_user.
                    chain docs _ (ensure_end_user_is_already_in_community m.props.community_id user)
                      _ (Finds-Reads docs _ (guard-Reads _ _))
                      (λ x y.
                        chain docs
                          (λ z. not (any (taken_by_other account user) m.props.accounts) ≡ true)
                          (guard _ _) _ (Finds-true docs _ _)
                          (λ z free.
                            chain docs _ (get_account_name_from_end_user host.trim u) _
                              (Finds-Reads docs _ (name-Reads host.trim u))
                              (λ n w.
                                chain docs (λ v. Apart v.props.accounts)
                                  (call (fill_account host a.id u.id n) m) (λ v. save host v)
                                  (Finds-call docs _ (fill_account host a.id u.id n) m (λ v e.
                                    fill_account-Apart host a.id u.id n m v e
                                      (subst
                                        (λ i. any (taken_by_other i u.id) m.props.accounts ≡ false)
                                        (sym same_id)
                                        (subst
                                          (λ i.
                                            any (taken_by_other account i) m.props.accounts ≡ false)
                                          (sym same_user) (ground arith)))
                                      h.0))
                                  (λ v k. leaves_save docs host v apart k))))))))

    pub create_account-Leaves :
        (attempts : Attempts) (item : MemberAccount) (id user : String)
        → Fresh (create_account item id user) docs
        → Leaves docs (create_member_account host attempts item id user)
    unfolding create_member_account create_account_in
    create_account-Leaves attempts item id user fresh =
        Leaves-transaction docs attempts _ (new_account-Keeps host item id user) (
          chain docs (Loaded docs id) (get_by_id id) _ (Finds-member docs id apart) (λ m h.
            chain docs (λ u. u.id ≡ user) (end_user_found user (host.end_user user)) _
              (Finds-user docs host finds_users user)
              (λ u same_user.
                chain docs _ (ensure_end_user_is_already_in_community m.props.community_id user) _
                  (Finds-Reads docs _ (guard-Reads _ _))
                  (λ x y.
                    chain docs (λ z. not (any (of_user user) m.props.accounts) ≡ true) (guard _ _) _
                      (Finds-true docs _ _)
                      (λ z free.
                        chain docs _ (get_account_name_from_end_user host.trim u) _
                          (Finds-Reads docs _ (name-Reads host.trim u))
                          (λ n w.
                            chain docs (λ v. Apart v.props.accounts)
                              (call (add_account host item u.id n) m) (λ v. save host v)
                              (Finds-call docs _ (add_account host item u.id n) m (λ v e.
                                added item u.id n m v e (fresh_in m h.1) h.0 (
                                  subst (λ i. any (of_user i) m.props.accounts ≡ false)
                                    (sym same_user) (ground arith))))
                              (λ v k. leaves_save docs host v apart k)))))))
      where
        fresh_in :
            (m : Member)
            → (p : MemberProps) × ((find (doc_has_id id) docs ≡ some p) × (m ≡ to_domain p))
            → any (has_id item.id) m.props.accounts ≡ false
        fresh_in m (p, (e, is_p)) =
            subst (λ (x : Member). any (has_id item.id) x.props.accounts ≡ false) (sym is_p)
              (fresh p e)
