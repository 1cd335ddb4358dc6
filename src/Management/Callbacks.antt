-- ===== src/Management/Callbacks.antt =====
-- What the callbacks write stays in their session.
use cellixjs.Base.{◌==◌, String, find, guard, not, any, plain_error}
use cellixjs.Community.Members.State.{MemberProps, MemberAccount, has_id}
use cellixjs.Community.Members.Methods.{set_role, request_remove_account}
use cellixjs.Management.Source.{Host, get_by_id}
use cellixjs.Management.Single.{change_role_in, role_found}
use cellixjs.Management.Accounts.{
  create_account_in, update_account_in, remove_account_in, end_user_found, account_found,
  add_account, fill_account, of_user, taken_by_other, already_associated,
  get_account_name_from_end_user, ensure_end_user_is_already_in_community,
}
use cellixjs.Management.Users.{create_in, new_member, blank_member}
use cellixjs.Management.Lookups.{role-Reads, user-Reads, account-Reads, name-Reads}
use cellixjs.Management.Saving.{
  Keeps, Reads-then, get_by_id-Reads, guard-Reads, call_and_save-Keeps,
}

module _ (host : Host) where
  pub role-Keeps : (id role : String) → Keeps (change_role_in host id role)
  unfolding change_role_in
  role-Keeps id role =
      Reads-then (role_found role (host.role role)) _ (role-Reads role (host.role role)) (λ r.
        Reads-then (get_by_id id) _ (get_by_id-Reads id) (λ m.
          Reads-then
            (guard (λ x. r.community_id == m.props.community_id)
              (plain_error "Role does not belong to the same community as the member"))
            _
            (guard-Reads (λ x. r.community_id == m.props.community_id)
              (plain_error "Role does not belong to the same community as the member"))
            (λ u. call_and_save-Keeps host (set_role host.values host.passport r.id) m)))

  pub new_account-Keeps :
      (item : MemberAccount) (id user : String) → Keeps (create_account_in host item id user)
  unfolding create_account_in
  new_account-Keeps item id user = Reads-then (get_by_id id) _ (get_by_id-Reads id) (λ m.
      Reads-then (end_user_found user (host.end_user user)) _ (user-Reads user (host.end_user user))
        (λ u.
          Reads-then (ensure_end_user_is_already_in_community m.props.community_id user) _
            (guard-Reads _ _)
            (λ x.
              Reads-then
                (guard (λ v. not (any (of_user user) m.props.accounts))
                  (plain_error already_associated))
                _
                (guard-Reads (λ v. not (any (of_user user) m.props.accounts))
                  (plain_error already_associated))
                (λ y.
                  Reads-then (get_account_name_from_end_user host.trim u) _ (name-Reads host.trim u)
                    (λ n. call_and_save-Keeps host (add_account host item u.id n) m)))))

  pub update_account-Keeps :
      (id account user : String) → Keeps (update_account_in host id account user)
  unfolding update_account_in
  update_account-Keeps id account user = Reads-then (get_by_id id) _ (get_by_id-Reads id) (λ m.
      Reads-then (account_found account id (find (has_id account) m.props.accounts)) _
        (account-Reads account id (find (has_id account) m.props.accounts))
        (λ a.
          Reads-then (end_user_found user (host.end_user user)) _
            (user-Reads user (host.end_user user))
            (λ u.
              Reads-then (ensure_end_user_is_already_in_community m.props.community_id user) _
                (guard-Reads _ _)
                (λ x.
                  Reads-then
                    (guard (λ v. not (any (taken_by_other account user) m.props.accounts))
                      (plain_error already_associated))
                    _
                    (guard-Reads (λ v. not (any (taken_by_other account user) m.props.accounts))
                      (plain_error already_associated))
                    (λ y.
                      Reads-then (get_account_name_from_end_user host.trim u) _
                        (name-Reads host.trim u)
                        (λ n. call_and_save-Keeps host (fill_account host a.id u.id n) m))))))

  pub remove_account-Keeps : (id account : String) → Keeps (remove_account_in host id account)
  unfolding remove_account_in
  remove_account-Keeps id account = Reads-then (get_by_id id) _ (get_by_id-Reads id) (λ m.
      Reads-then (account_found account id (find (has_id account) m.props.accounts)) _
        (account-Reads account id (find (has_id account) m.props.accounts))
        (λ a. call_and_save-Keeps host (request_remove_account host.values host.passport a.id) m))

  pub creation-Keeps :
      (name community role : String) (blank : MemberProps)
      → Keeps (create_in host name community role blank)
  unfolding create_in
  creation-Keeps name community role blank =
      call_and_save-Keeps host (new_member host name community role) (blank_member blank community)
