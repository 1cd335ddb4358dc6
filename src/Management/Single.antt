-- ===== src/Management/Single.antt =====
-- activateMember, deactivateMember, removeMember and updateMemberRole.
use Prim.Native.String
use cellixjs.Base.{
  String, Option, none, some, ◌==◌, Exec, ◌>>=◌, ◌>>◌, pure, throw, guard, plain_error,
}
use cellixjs.UnitOfWork.Transaction.{Attempts}
use cellixjs.Community.Members.State.{MemberProps}
use cellixjs.Community.Members.Methods.{
  request_activate_member, request_deactivate_member, request_remove_member, set_role,
}
use cellixjs.Management.Source.{
  Host, Source, Session, EndUserRole, get_by_id, call, save, session_scope, transaction,
}

-- `getById` of the roles throws where there is none.
abbrev pub role_found : String → Option EndUserRole → Exec Session EndUserRole
role_found id none =
    throw (plain_error (String.◌++◌ "EndUserRole with id " (String.◌++◌ id " not found")))
role_found id (some r) = pure r

module _ (host : Host) where
  -- The callbacks, which the bulk operations share.
  unfoldable pub activate_in : String → Exec Session MemberProps
  activate_in id = do
    m ← get_by_id id
    u ← call (request_activate_member host.values host.passport) m
    save host u

  unfoldable pub deactivate_in : Option String → String → Exec Session MemberProps
  deactivate_in reason id = do
    m ← get_by_id id
    u ← call (request_deactivate_member host.values host.passport none reason) m
    save host u

  unfoldable pub remove_in : Option String → String → Exec Session MemberProps
  remove_in reason id = do
    m ← get_by_id id
    u ← call (request_remove_member host.values host.passport none reason) m
    save host u

  unfoldable pub activate_member : Attempts → String → Exec Source MemberProps
  activate_member attempts id = transaction session_scope attempts (activate_in id)

  unfoldable pub deactivate_member : Attempts → Option String → String → Exec Source MemberProps
  deactivate_member attempts reason id =
      transaction session_scope attempts (deactivate_in reason id)

  unfoldable pub remove_member : Attempts → Option String → String → Exec Source MemberProps
  remove_member attempts reason id = transaction session_scope attempts (remove_in reason id)

  unfoldable pub change_role_in : String → String → Exec Session MemberProps
  change_role_in member_id role_id = do
    new_role ← role_found role_id (host.role role_id)
    m ← get_by_id member_id
    guard (λ _. new_role.community_id == m.props.community_id)
        (plain_error "Role does not belong to the same community as the member")
    u ← call (set_role host.values host.passport new_role.id) m
    save host u

  unfoldable pub update_member_role : Attempts → String → String → Exec Source MemberProps
  update_member_role attempts member_id role_id =
      transaction session_scope attempts (change_role_in member_id role_id)
