-- ===== src/Management/Accounts.antt =====
-- The accounts of a member: createMemberAccount, updateMemberAccount and removeMemberAccount.
use Prim.Native.String
use cellixjs.Base.{
  Bool, not, ◌&&◌, String, Option, none, some, ◌==◌, Exec, ◌>>=◌, ◌>>◌, pure, throw, guard,
  plain_error, find, any, if◌then◌else◌,
}
use cellixjs.UnitOfWork.Transaction.{Attempts}
use cellixjs.Community.Members.State.{Member, MemberProps, MemberAccount, has_id}
use cellixjs.Community.Members.Accounts.{set_first_name, set_last_name, set_user}
use cellixjs.Community.Members.Methods.{request_new_account, request_remove_account}
use cellixjs.Management.Source.{
  Host, Source, Session, EndUser, get_by_id, call, save, session_scope, transaction,
}

pub record AccountName : Type 0 where
  pub first_name : String
  pub last_name : Option String

-- A text that is not empty.
abbrev pub truthy : Option String → Option String
truthy none = none
truthy (some s) = if s == "" then none else some s

-- `a || b`.
abbrev pub or_text : Option String → Option String → Option String
or_text none b = truthy b
or_text (some s) b = if s == "" then truthy b else some s

abbrev pub trimmed : (String → String) → Option String → Option String
trimmed trim none = none
trimmed trim (some s) = some (trim s)

abbrev pub named : String → Option String → Option String → Exec Session AccountName
named id none last_name = throw (
    plain_error
      (String.◌++◌ "Selected end user (" (String.◌++◌ id ") does not have a usable display name")))
named id (some first_name) last_name =
    pure (record { first_name = first_name; last_name = last_name })

abbrev pub get_account_name_from_end_user : (String → String) → EndUser → Exec Session AccountName
get_account_name_from_end_user trim u =
    named u.id (or_text (trimmed trim u.rest_of_name) (trimmed trim u.display_name))
      (truthy (trimmed trim u.last_name))

-- account.user.id === endUserId.
abbrev pub of_user : String → MemberAccount → Bool
of_user user a = a.user == user

abbrev pub ensure_end_user_is_already_in_community : String → String → Exec Session (Unit {0})
ensure_end_user_is_already_in_community community user =
    guard
      (λ s.
        any (λ p. p.community_id == community && any (of_user user) p.accounts) s.source.members)
      (plain_error "Selected user is not associated with this community. Invite the user first.")

abbrev pub end_user_found : String → Option EndUser → Exec Session EndUser
end_user_found id none = throw (plain_error (String.◌++◌ "End user " (String.◌++◌ id " not found")))
end_user_found id (some u) = pure u

abbrev pub account_found : String → String → Option MemberAccount → Exec Session MemberAccount
account_found id member none = throw (
    plain_error
      (String.◌++◌ "Account " (String.◌++◌ id (String.◌++◌ " not found for member " member))))
account_found id member (some a) = pure a

abbrev pub already_associated : String
already_associated = "Selected user is already associated with this member"

abbrev pub taken_by_other : String → String → MemberAccount → Bool
taken_by_other account user a = not (a.id == account) && a.user == user

module _ (host : Host) where
  -- `if (accountName.lastName) account.lastName = accountName.lastName`.
  abbrev pub set_last_name_if : String → Option String → Exec Member (Unit {0})
  set_last_name_if id none = pure tt
  set_last_name_if id (some s) = set_last_name host.values host.passport id s

  unfoldable pub fill_account : String → String → AccountName → Exec Member (Unit {0})
  fill_account id user name = do
    set_user host.values host.passport id user
    set_first_name host.values host.passport id name.first_name
    set_last_name_if id name.last_name

  abbrev pub add_account : MemberAccount → String → AccountName → Exec Member (Unit {0})
  add_account item user name = do
    request_new_account host.values host.passport item
    fill_account item.id user name

  -- `item` is the blank account that the document's array makes.
  unfoldable pub create_account_in : MemberAccount → String → String → Exec Session MemberProps
  create_account_in item member_id user_id = do
    m ← get_by_id member_id
    user ← end_user_found user_id (host.end_user user_id)
    ensure_end_user_is_already_in_community m.props.community_id user_id
    guard (λ _. not (any (of_user user_id) m.props.accounts)) (plain_error already_associated)
    name ← get_account_name_from_end_user host.trim user
    u ← call (add_account item user.id name) m
    save host u

  unfoldable pub update_account_in : String → String → String → Exec Session MemberProps
  update_account_in member_id account_id user_id = do
    m ← get_by_id member_id
    account ← account_found account_id member_id (find (has_id account_id) m.props.accounts)
    user ← end_user_found user_id (host.end_user user_id)
    ensure_end_user_is_already_in_community m.props.community_id user_id
    guard (λ _. not (any (taken_by_other account_id user_id) m.props.accounts))
        (plain_error already_associated)
    name ← get_account_name_from_end_user host.trim user
    u ← call (fill_account account.id user.id name) m
    save host u

  unfoldable pub remove_account_in : String → String → Exec Session MemberProps
  remove_account_in member_id account_id = do
    m ← get_by_id member_id
    account ← account_found account_id member_id (find (has_id account_id) m.props.accounts)
    u ← call (request_remove_account host.values host.passport account.id) m
    save host u

  unfoldable pub create_member_account :
      Attempts → MemberAccount → String → String → Exec Source MemberProps
  create_member_account attempts item member_id user_id =
      transaction session_scope attempts (create_account_in item member_id user_id)

  unfoldable pub update_member_account :
      Attempts → String → String → String → Exec Source MemberProps
  update_member_account attempts member_id account_id user_id =
      transaction session_scope attempts (update_account_in member_id account_id user_id)

  unfoldable pub remove_member_account : Attempts → String → String → Exec Source MemberProps
  remove_member_account attempts member_id account_id =
      transaction session_scope attempts (remove_account_in member_id account_id)
