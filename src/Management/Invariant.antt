-- ===== src/Management/Invariant.antt =====
-- Accounts stay apart in every document, whatever operations are called.
use cellixjs.Base.{◌≡◌, refl, sym, List, none, Outcome, done, thrown, subst, state_after}
use cellixjs.UnitOfWork.Transaction.{Attempts}
use cellixjs.Community.Members.State.{MemberProps}
use cellixjs.Community.Members.Methods.{
  request_activate_member, request_deactivate_member, request_remove_member,
}
use cellixjs.Management.Source.{Host, Source}
use cellixjs.Management.Single.{
  activate_in, deactivate_in, remove_in, activate_member, deactivate_member, remove_member,
}
use cellixjs.Management.Changes.{activate-KeepsApart, deactivate-KeepsApart, remove-KeepsApart}
use cellixjs.Management.Effects.{
  Operation, activate, deactivate, remove, change_role, create_account, update_account,
  remove_account, create, carry_out, failed_operation_keeps_members,
}
use cellixjs.Management.Finding.{AllApart, Leaves, Leaves-transaction}
use cellixjs.Management.Saving.{load_call-save-Keeps}
use cellixjs.Management.Lookups.{FindsUsers}
use cellixjs.Management.Steps.{
  Fresh, load_and_call, change_role-Leaves, remove_account-Leaves, create-Leaves,
  update_account-Leaves, create_account-Leaves,
}

carry_out-Leaves :
    (host : Host) (finds_users : FindsUsers host) (attempts : Attempts) (op : Operation)
    (docs : List MemberProps)
    → Fresh op docs
    → AllApart docs
    → Leaves docs (carry_out host attempts op)
unfolding carry_out activate_member activate_in deactivate_member deactivate_in remove_member
    remove_in
carry_out-Leaves host finds_users attempts (activate id) docs fresh apart =
    Leaves-transaction docs attempts _
      (load_call-save-Keeps host (request_activate_member host.values host.passport) id)
      (load_and_call host docs apart (request_activate_member host.values host.passport) id
        (activate-KeepsApart host.values host.passport))
carry_out-Leaves host finds_users attempts (deactivate why id) docs fresh apart =
    Leaves-transaction docs attempts _
      (load_call-save-Keeps host (request_deactivate_member host.values host.passport none why) id)
      (load_and_call host docs apart (request_deactivate_member host.values host.passport none why)
        id (deactivate-KeepsApart host.values host.passport none why))
carry_out-Leaves host finds_users attempts (remove why id) docs fresh apart =
    Leaves-transaction docs attempts _
      (load_call-save-Keeps host (request_remove_member host.values host.passport none why) id)
      (load_and_call host docs apart (request_remove_member host.values host.passport none why) id
        (remove-KeepsApart host.values host.passport none why))
carry_out-Leaves host finds_users attempts (change_role id role) docs fresh apart =
    change_role-Leaves host docs apart attempts id role
carry_out-Leaves host finds_users attempts (create_account item id user) docs fresh apart =
    create_account-Leaves host docs apart finds_users attempts item id user fresh
carry_out-Leaves host finds_users attempts (update_account id account user) docs fresh apart =
    update_account-Leaves host docs apart finds_users attempts id account user
carry_out-Leaves host finds_users attempts (remove_account id account) docs fresh apart =
    remove_account-Leaves host docs apart attempts id account
carry_out-Leaves host finds_users attempts (create roles blank name community) docs fresh apart =
    create-Leaves host docs apart attempts roles blank name community fresh

-- Where users are found by their ids and the database's new accounts and documents are fresh, an
-- operation on one member, whether it returns or throws and whatever the driver's decisions are,
-- leaves a collection in which no member has two accounts with one id or of one user, if it was
-- such a collection before.
pub carry_out-AllApart :
    (host : Host) (finds_users : FindsUsers host) (attempts : Attempts) (op : Operation)
    (s : Source)
    → Fresh op s.members
    → AllApart s.members
    → AllApart (state_after (carry_out host attempts op s)).members
carry_out-AllApart host finds_users attempts op s fresh apart =
    go (carry_out host attempts op s) refl
  where
    go :
        (o : Outcome Source MemberProps)
        → carry_out host attempts op s ≡ o
        → AllApart (state_after o).members
    go (done q t) e =
        carry_out-Leaves host finds_users attempts op s.members fresh apart s t q refl e
    go (thrown x t) e =
        subst AllApart (sym (failed_operation_keeps_members host attempts op s t x e)) apart
