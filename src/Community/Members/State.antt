-- ===== src/Community/Members/State.antt =====
-- member.ts and member-account.ts: the fields, the events and the questions to the visa. Users,
-- roles and communities are named by id.
use cellixjs.Base.{
  Bool, true, false, ◌&&◌, ◌||◌, String, List, [], ◌∷◌, some, ◌==◌, Exec, modify, any,
  if◌then◌else◌,
}
use cellixjs.ValueObjects.{StringRule}
use cellixjs.Seedwork.Aggregate.{AggregateRoot}
use cellixjs.Iam.Permissions.{CommunityDomainPermissions}
use cellixjs.Iam.Visas.{Passport}
use cellixjs.Iam.Community.{for_community}

-- MemberAccountProps.
pub record MemberAccount : Type 0 where
  pub id : String
  pub first_name : String
  pub last_name : String
  pub user : String
  pub status_code : String
  pub created_by : String

pub record CustomView : Type 0 where
  pub id : String
  pub name : String

-- The payloads of member-activated.ts, member-deactivated.ts and member-removed.ts.
pub data MemberPayload : Type 0 where
  activated_props : String → String → MemberPayload
  deactivated_props removed_props : String → String → String → String → MemberPayload

-- MemberProps. `community` is the reference whose id is `communityId`.
pub record MemberProps : Type 0 where
  pub id : String
  pub member_name : String
  pub cybersource_customer_id : String
  pub community_id : String
  pub accounts : List MemberAccount
  pub role : String
  pub custom_views : List CustomView

-- The aggregate; `visa_community` is the community that the constructor took its visa for.
pub record Member : Type 0 where
  pub root : AggregateRoot MemberPayload
  pub props : MemberProps
  pub visa_community : String
  pub is_new : Bool

-- AccountStatusCodes.
abbrev pub account_status_codes : List String
account_status_codes = "CREATED" ∷ "ACCEPTED" ∷ "REJECTED" ∷ []

abbrev pub member_name_rule : StringRule
member_name_rule = record { trim = true; min_length = some 1; max_length = 200 }

abbrev pub customer_id_rule : StringRule
customer_id_rule = record { trim = false; min_length = some 1; max_length = 50 }

-- FirstName and LastName.
abbrev pub person_name_rule : StringRule
person_name_rule = record { trim = true; min_length = some 1; max_length = 500 }

abbrev pub manages_members : CommunityDomainPermissions → Bool
manages_members p = p.can_manage_members || p.is_system_account

-- `validateVisa` of MemberAccount.
abbrev pub may_update_account : CommunityDomainPermissions → Bool
may_update_account p =
    p.is_system_account
    || p.can_manage_members
    || (p.can_edit_own_member_accounts && p.is_editing_own_member_account)

-- this.visa.determineIf(func).
abbrev pub determine_if : Passport → (CommunityDomainPermissions → Bool) → Member → Bool
determine_if passport func m = for_community passport m.visa_community func

abbrev pub change_props : (MemberProps → MemberProps) → Exec Member (Unit {0})
change_props f = modify (λ m. record m { props = f m.props })

abbrev pub change_accounts : (List MemberAccount → List MemberAccount) → Exec Member (Unit {0})
change_accounts f = change_props (λ p. record p { accounts = f p.accounts })

abbrev pub is_accepted : MemberAccount → Bool
is_accepted a = a.status_code == "ACCEPTED"

abbrev pub awaits_activation : MemberAccount → Bool
awaits_activation a = a.status_code == "CREATED" || a.status_code == "REJECTED"

abbrev pub with_code : String → MemberAccount → MemberAccount
with_code code a = record a { status_code = code }

-- The accounts are objects: a change of the one that `find` returned is a change in the list.
abbrev pub change_first :
    (MemberAccount → Bool)
    → (MemberAccount → MemberAccount)
    → List MemberAccount
    → List MemberAccount
change_first p f [] = []
change_first p f (a ∷ accounts) = if p a then f a ∷ accounts else a ∷ change_first p f accounts

abbrev pub has_id : String → MemberAccount → Bool
has_id id a = a.id == id

abbrev pub is_active_member : Member → Bool
is_active_member m = any is_accepted m.props.accounts

abbrev pub has_pending_activation : Member → Bool
has_pending_activation m = any (λ a. a.status_code == "CREATED") m.props.accounts
