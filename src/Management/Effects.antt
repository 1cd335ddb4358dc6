-- ===== src/Management/Effects.antt =====
-- The operations on one member: what they leave when they throw, and what they write.
use cellixjs.Base.{
  ◌≡◌, refl, Bool, not, List, String, Option, none, some, Exec, thrown, Error, find, any, guard,
  subst,
}
use cellixjs.UnitOfWork.Transaction.{Attempts}
use cellixjs.Community.Members.State.{MemberProps, MemberAccount}
use cellixjs.Community.Members.Methods.{
  request_activate_member, request_deactivate_member, request_remove_member,
}
use cellixjs.Management.Source.{Host, Source, EndUserRole}
use cellixjs.Management.Single.{
  activate_in, activate_member, deactivate_in, deactivate_member, remove_in, remove_member,
  update_member_role,
}
use cellixjs.Management.Accounts.{
  create_member_account, update_member_account, remove_member_account,
}
use cellixjs.Management.Users.{create_member, default_found, has_name, name_taken}
use cellixjs.Management.Callbacks.{
  role-Keeps, new_account-Keeps, update_account-Keeps, remove_account-Keeps, creation-Keeps,
}
use cellixjs.Management.Saving.{
  Kept, IsAtomic, Reads, IsAtomic-then, guard-Reads, load_call-save-Keeps, transaction-IsAtomic,
}

-- The calls that the application services offer on one member.
pub data Operation : Type 0 where
  activate : String → Operation
  deactivate remove : Option String → String → Operation
  change_role : String → String → Operation
  create_account : MemberAccount → String → String → Operation
  update_account : String → String → String → Operation
  remove_account : String → String → Operation
  create : (String → List (EndUserRole × Bool)) → MemberProps → String → String → Operation

unfoldable pub carry_out : Host → Attempts → Operation → Exec Source MemberProps
carry_out host attempts (activate id) = activate_member host attempts id
carry_out host attempts (deactivate reason id) = deactivate_member host attempts reason id
carry_out host attempts (remove reason id) = remove_member host attempts reason id
carry_out host attempts (change_role id role) = update_member_role host attempts id role
carry_out host attempts (create_account item id user) =
    create_member_account host attempts item id user
carry_out host attempts (update_account id account user) =
    update_member_account host attempts id account user
carry_out host attempts (remove_account id account) = remove_member_account host attempts id account
carry_out host attempts (create roles blank name community) =
    create_member host roles attempts blank name community

pub default_found-Reads :
    {S : Type 0} (o : Option (EndUserRole × Bool)) → Reads (default_found {S = S} o)
default_found-Reads none s = refl
default_found-Reads (some (r, d)) s = refl

create_member-IsAtomic :
    (host : Host) (roles : String → List (EndUserRole × Bool)) (attempts : Attempts)
    (blank : MemberProps) (name community : String)
    → IsAtomic (create_member host roles attempts blank name community)
unfolding create_member
create_member-IsAtomic host roles attempts blank name community =
    IsAtomic-then (guard (λ s. not (any (has_name name community) s.members)) (name_taken name)) _
      (guard-Reads (λ s. not (any (has_name name community) s.members)) (name_taken name))
      (λ u.
        IsAtomic-then (default_found (find (λ r. r.1) (roles community))) _
          (default_found-Reads (find (λ r. r.1) (roles community)))
          (λ r. transaction-IsAtomic attempts _ (creation-Keeps host name community r.id blank)))

carry_out-IsAtomic :
    (host : Host) (attempts : Attempts) (op : Operation) → IsAtomic (carry_out host attempts op)
unfolding carry_out activate_member activate_in deactivate_member deactivate_in remove_member
    remove_in update_member_role create_member_account update_member_account remove_member_account
carry_out-IsAtomic host attempts (activate id) =
    transaction-IsAtomic attempts _
      (load_call-save-Keeps host (request_activate_member host.values host.passport) id)
carry_out-IsAtomic host attempts (deactivate reason id) =
    transaction-IsAtomic attempts _ (
      load_call-save-Keeps host (request_deactivate_member host.values host.passport none reason)
        id)
carry_out-IsAtomic host attempts (remove reason id) =
    transaction-IsAtomic attempts _
      (load_call-save-Keeps host (request_remove_member host.values host.passport none reason) id)
carry_out-IsAtomic host attempts (change_role id role) =
    transaction-IsAtomic attempts _ (role-Keeps host id role)
carry_out-IsAtomic host attempts (create_account item id user) =
    transaction-IsAtomic attempts _ (new_account-Keeps host item id user)
carry_out-IsAtomic host attempts (update_account id account user) =
    transaction-IsAtomic attempts _ (update_account-Keeps host id account user)
carry_out-IsAtomic host attempts (remove_account id account) =
    transaction-IsAtomic attempts _ (remove_account-Keeps host id account)
carry_out-IsAtomic host attempts (create roles blank name community) =
    create_member-IsAtomic host roles attempts blank name community

-- An operation on one member that throws leaves the collection of members as it was, whatever the
-- operation, the reason of the exception and the driver's decisions are.
pub failed_operation_keeps_members :
    (host : Host) (attempts : Attempts) (op : Operation) (s t : Source) (e : Error)
    → carry_out host attempts op s ≡ thrown e t
    → t.members ≡ s.members
failed_operation_keeps_members host attempts op s t e h =
    subst (Kept s) h (carry_out-IsAtomic host attempts op s)
