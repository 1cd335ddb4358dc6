-- ===== src/Community/Members/Methods.antt =====
-- member.ts: getNewInstance, the requests and the setters, and histories of calls.
use cellixjs.Base.{
  Bool, true, false, ◌||◌, String, List, [], ◌∷◌, ◌++◌, Option, none, some, or_else, ◌==◌, Exec,
  ◌>>=◌, ◌>>◌, guard, modify, throw, construct, permission_error, plain_error, find, if◌then◌else◌,
  state_after,
}
use cellixjs.ValueObjects.{ValueObjects}
use cellixjs.Seedwork.Aggregate.{add_domain_event, set_is_deleted}
use cellixjs.Iam.Visas.{Passport}
use cellixjs.Iam.Community.{for_community}
use cellixjs.Community.Members.State.{
  Member, MemberProps, MemberAccount, CustomView, MemberPayload, activated_props, deactivated_props,
  removed_props, account_status_codes, member_name_rule, customer_id_rule, manages_members,
  determine_if, change_props, change_accounts, change_first, is_accepted, awaits_activation,
  with_code,
}
use cellixjs.Community.Members.Accounts.{
  account_refusal, set_first_name, set_last_name, set_user, set_status_code, set_created_by,
}

abbrev pub raise : String → (MemberProps → MemberPayload) → Exec Member (Unit {0})
raise name payload =
    modify (λ m. record m { root = add_domain_event name m.props.id (payload m.props) m.root })

abbrev pub without_account : String → List MemberAccount → List MemberAccount
without_account id [] = []
without_account id (a ∷ accounts) =
    if a.id == id then without_account id accounts else a ∷ without_account id accounts

abbrev pub without_view : String → List CustomView → List CustomView
without_view id [] = []
without_view id (v ∷ views) =
    if v.id == id then without_view id views else v ∷ without_view id views

module _ (vo : ValueObjects) (passport : Passport) where
  abbrev pub new_or_manager : String → Exec Member (Unit {0})
  new_or_manager message =
      guard (λ m. m.is_new || determine_if passport manages_members m) (permission_error message)

  abbrev pub manager_only : String → Exec Member (Unit {0})
  manager_only message = guard (determine_if passport manages_members) (permission_error message)

  unfoldable pub set_member_name : String → Exec Member (Unit {0})
  set_member_name value = do
    new_or_manager "Cannot set member name"
    name ← construct (vo.vo_string member_name_rule value)
    change_props (λ p. record p { member_name = name })

  unfoldable pub set_cybersource_customer_id : String → Exec Member (Unit {0})
  set_cybersource_customer_id value = do
    new_or_manager "Cannot set cybersource customer id"
    id ← construct (vo.vo_string customer_id_rule value)
    change_props (λ p. record p { cybersource_customer_id = id })

  unfoldable pub set_community : String → Exec Member (Unit {0})
  set_community community_id = do
    new_or_manager "Cannot set community"
    change_props (λ p. record p { community_id = community_id })

  unfoldable pub set_role : String → Exec Member (Unit {0})
  set_role role = do new_or_manager "Cannot set role"; change_props (λ p. record p { role = role })

  -- `getNewItem` puts a blank account at the end of the document's array.
  unfoldable pub request_new_account : MemberAccount → Exec Member (Unit {0})
  request_new_account item = do
    new_or_manager "Cannot set role"
    change_accounts (λ accounts. accounts ++ item ∷ [])

  unfoldable pub request_remove_account : String → Exec Member (Unit {0})
  request_remove_account id = do
    new_or_manager "Cannot set role"
    change_accounts (without_account id)

  unfoldable pub request_new_custom_view : CustomView → Exec Member (Unit {0})
  request_new_custom_view item = do
    new_or_manager "Cannot set custom view"
    change_props (λ p. record p { custom_views = p.custom_views ++ item ∷ [] })

  unfoldable pub request_remove_custom_view : String → Exec Member (Unit {0})
  request_remove_custom_view id = do
    new_or_manager "Cannot remove custom view"
    change_props (λ p. record p { custom_views = without_view id p.custom_views })

  -- The setter of `statusCode` on the account that was found; it asks its own visa.
  abbrev pub set_code_of_found :
      (MemberAccount → Bool) → String → String → Option MemberAccount → Exec Member (Unit {0})
  set_code_of_found test code otherwise none = throw (plain_error otherwise)
  set_code_of_found test code otherwise (some account) = do
    guard (determine_if passport (λ p. p.is_system_account || p.can_manage_members))
        (permission_error account_refusal)
    status ← construct (vo.vo_set account_status_codes code)
    change_accounts (change_first test (with_code status))

  abbrev pub set_code_of_first : (MemberAccount → Bool) → String → String → Exec Member (Unit {0})
  set_code_of_first test code otherwise m =
      set_code_of_found test code otherwise (find test m.props.accounts) m

  unfoldable pub request_activate_member : Exec Member (Unit {0})
  request_activate_member = do
    manager_only "Cannot activate member"
    set_code_of_first awaits_activation "ACCEPTED" "No pending account found to activate"
    raise "MemberActivatedEvent" (λ p. activated_props p.id p.community_id)

  unfoldable pub request_deactivate_member : Option String → Option String → Exec Member (Unit {0})
  request_deactivate_member actor_id reason = do
    manager_only "Cannot deactivate member"
    set_code_of_first is_accepted "REJECTED" "No active account found to deactivate"
    raise "MemberDeactivatedEvent"
        (λ p. deactivated_props p.id p.community_id (or_else actor_id "system") (or_else reason ""))

  unfoldable pub request_remove_member : Option String → Option String → Exec Member (Unit {0})
  request_remove_member actor_id reason = do
    manager_only "Cannot remove member"
    modify (λ m. record m { root = set_is_deleted true m.root })
    raise "MemberRemovedEvent"
        (λ p. removed_props p.id p.community_id (or_else actor_id "system") (or_else reason ""))

unfoldable pub get_new_instance : ValueObjects → Passport → String → String → Exec Member (Unit {0})
get_new_instance vo passport name community_id = do
  guard (λ _. for_community passport community_id manages_members)
      (permission_error "Cannot create new member")
  modify (λ m. record m { is_new = true })
  set_member_name vo passport name
  set_community vo passport community_id
  modify (λ m. record m { is_new = false })

-- The calls that a client can make on a member, and on its account with a given id.
pub data Command : Type 0 where
  name_to customer_id_to community_to role_to : String → Command
  new_account : MemberAccount → Command
  remove_account remove_view : String → Command
  new_view : CustomView → Command
  activate : Command
  deactivate remove : Option String → Option String → Command
  first_name_to last_name_to user_to status_code_to created_by_to : String → String → Command

unfoldable pub perform : ValueObjects → Passport → Command → Exec Member (Unit {0})
perform vo passport (name_to s) = set_member_name vo passport s
perform vo passport (customer_id_to s) = set_cybersource_customer_id vo passport s
perform vo passport (community_to s) = set_community vo passport s
perform vo passport (role_to s) = set_role vo passport s
perform vo passport (new_account item) = request_new_account vo passport item
perform vo passport (remove_account id) = request_remove_account vo passport id
perform vo passport (new_view item) = request_new_custom_view vo passport item
perform vo passport (remove_view id) = request_remove_custom_view vo passport id
perform vo passport activate = request_activate_member vo passport
perform vo passport (deactivate by why) = request_deactivate_member vo passport by why
perform vo passport (remove by why) = request_remove_member vo passport by why
perform vo passport (first_name_to id s) = set_first_name vo passport id s
perform vo passport (last_name_to id s) = set_last_name vo passport id s
perform vo passport (user_to id s) = set_user vo passport id s
perform vo passport (status_code_to id s) = set_status_code vo passport id s
perform vo passport (created_by_to id s) = set_created_by vo passport id s

-- Each call comes with the passport of whoever makes it.
unfoldable pub run : ValueObjects → List (Passport × Command) → Member → Member
run vo [] m = m
run vo ((passport, c) ∷ cs) m = run vo cs (state_after (perform vo passport c m))
