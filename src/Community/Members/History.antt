-- ===== src/Community/Members/History.antt =====
-- A member over any history of calls, and the calls of those who do not manage its community.
use cellixjs.Base.{
  Bool, true, false, ◌&&◌, ◌||◌, String, List, [], ◌∷◌, ◌++◌, ◌≡◌, ◌≢◌, refl, arith, includes,
  state_after, succeeds, eq_iff, Bool-cases, Option-cases, inl, inr,
}
use cellixjs.ValueObjects.{ValueObjects, ValueObjectLaws}
use cellixjs.Iam.Permissions.{MemberReference}
use cellixjs.Iam.Visas.{Denies, Passport, member_passport}
use cellixjs.Iam.Community.{for_community, member_community_visa}
use cellixjs.Community.Members.State.{
  Member, MemberAccount, account_status_codes, change_first, with_code, has_id, person_name_rule,
  may_update_account, manages_members, is_accepted, awaits_activation,
}
use cellixjs.Community.Members.Accounts.{
  set_first_name, set_last_name, set_user, set_status_code, set_created_by,
}
use cellixjs.Community.Members.Methods.{
  set_member_name, set_cybersource_customer_id, set_community, set_role, request_new_account,
  request_remove_account, request_new_custom_view, request_remove_custom_view,
  request_activate_member, request_deactivate_member, request_remove_member, without_account,
  Command, new_account, remove_account, activate, deactivate, first_name_to, last_name_to, user_to,
  status_code_to, created_by_to, perform, run,
}
use cellixjs.Community.Members.Lifecycle.{request_activate_branches, request_deactivate_branches}

abbrev pub has_code : MemberAccount → Bool
has_code a = includes account_status_codes a.status_code

abbrev pub all_codes : List MemberAccount → Bool
all_codes [] = true
all_codes (a ∷ accounts) = has_code a && all_codes accounts

all_codes-append :
    (xs : List MemberAccount) (a : MemberAccount)
    → all_codes xs ≡ true
    → has_code a ≡ true
    → all_codes (xs ++ a ∷ []) ≡ true
all_codes-append [] a h k = ground arith
all_codes-append (x ∷ xs) a h k = ground (arith, all_codes-append xs a)

all_codes-without :
    (id : String) (xs : List MemberAccount)
    → all_codes xs ≡ true
    → all_codes (without_account id xs) ≡ true
all_codes-without id [] h = refl
all_codes-without id (x ∷ xs) h = ground (arith, all_codes-without id xs)

all_codes-change :
    (p : MemberAccount → Bool) (f : MemberAccount → MemberAccount)
    → ((a : MemberAccount) → has_code a ≡ true → has_code (f a) ≡ true)
    → (xs : List MemberAccount) → all_codes xs ≡ true
    → all_codes (change_first p f xs) ≡ true
all_codes-change p f keeps [] h = refl
all_codes-change p f keeps (x ∷ xs) h = ground (arith, all_codes-change p f keeps xs, keeps x)

-- The accounts that a client adds start with one of the codes.
abbrev pub HasCode : Command → Type 0
HasCode (new_account item) = has_code item ≡ true
HasCode c = Unit {0}

abbrev pub HaveCodes : List (Passport × Command) → Type 0
HaveCodes [] = Unit {0}
HaveCodes ((passport, c) ∷ cs) = HasCode c × HaveCodes cs

module _ (vo : ValueObjects) (laws : ValueObjectLaws vo) (passport : Passport) (m : Member)
    (ok : all_codes m.props.accounts ≡ true) where
  perform-all_codes :
      (c : Command)
      → HasCode c
      → all_codes (state_after (perform vo passport c m)).props.accounts ≡ true
  unfolding perform set_member_name set_cybersource_customer_id set_community set_role
      request_new_account request_remove_account request_new_custom_view request_remove_custom_view
      request_remove_member set_first_name set_last_name set_user set_created_by set_status_code
  perform-all_codes (new_account item) h =
      ground (arith, all_codes-append m.props.accounts item ok h)
  perform-all_codes (remove_account id) h = ground (arith, all_codes-without id m.props.accounts ok)
  perform-all_codes activate h = ground (
    arith,
    request_activate_branches vo laws passport m,
    all_codes-change awaits_activation (with_code "ACCEPTED") (λ a _. refl) m.props.accounts ok,
  )
  perform-all_codes (deactivate by why) h = ground (
    arith,
    request_deactivate_branches vo laws passport by why m,
    all_codes-change is_accepted (with_code "REJECTED") (λ a _. refl) m.props.accounts ok,
  )
  perform-all_codes (first_name_to id s) h = elim (Option-cases (vo.vo_string person_name_rule s)) [
    | inl e ↦ ground (arith, e)
    | inr (v, e) ↦ ground (
      arith,
      e,
      all_codes-change (has_id id) (λ a. record a { first_name = v }) (λ a k. k) m.props.accounts
          ok,
    )
  ]
  perform-all_codes (last_name_to id s) h = elim (Option-cases (vo.vo_string person_name_rule s)) [
    | inl e ↦ ground (arith, e)
    | inr (v, e) ↦ ground (
      arith,
      e,
      all_codes-change (has_id id) (λ a. record a { last_name = v }) (λ a k. k) m.props.accounts ok,
    )
  ]
  perform-all_codes (user_to id s) h = ground (
    arith,
    all_codes-change (has_id id) (λ a. record a { user = s }) (λ a k. k) m.props.accounts ok,
  )
  perform-all_codes (created_by_to id s) h = ground (
    arith,
    all_codes-change (has_id id) (λ a. record a { created_by = s }) (λ a k. k) m.props.accounts ok,
  )
  perform-all_codes (status_code_to id s) h = elim (Bool-cases (includes account_status_codes s)) [
    | inl known ↦ ground (
      arith,
      laws.set_members account_status_codes s,
      all_codes-change (has_id id) (with_code s) (λ a _. known) m.props.accounts ok,
    )
    | inr unknown ↦ ground (arith, laws.set_members account_status_codes s)
  ]
  perform-all_codes c h = ground arith

-- Where the value objects keep their laws, and the accounts that clients add start with one of the
-- three status codes, every account of a member whose accounts all have one keeps one over any
-- calls by anyone.
pub run-all_codes :
    (vo : ValueObjects) (laws : ValueObjectLaws vo) (cs : List (Passport × Command)) (m : Member)
    → HaveCodes cs
    → all_codes m.props.accounts ≡ true
    → all_codes (run vo cs m).props.accounts ≡ true
unfolding run
run-all_codes vo laws [] m h ok = ok
run-all_codes vo laws ((passport, c) ∷ cs) m (here, later) ok =
    run-all_codes vo laws cs (state_after (perform vo passport c m)) later
      (perform-all_codes vo laws passport m ok c here)

module _ (vo : ValueObjects) (passport : Passport) (m : Member)
    (denied : Denies (for_community passport m.visa_community)) (old : m.is_new ≡ false) where
  denied_Refuses :
      (c : Command)
      → (succeeds (perform vo passport c m) ≡ false) × (state_after (perform vo passport c m) ≡ m)
  unfolding perform set_member_name set_cybersource_customer_id set_community set_role
      request_new_account request_remove_account request_new_custom_view request_remove_custom_view
      request_activate_member request_deactivate_member request_remove_member set_first_name
      set_last_name set_user set_created_by set_status_code
  denied_Refuses (status_code_to id s) =
      ground (arith, old, denied (λ p. p.is_system_account || p.can_manage_members))
  denied_Refuses (first_name_to id s) = ground (arith, denied may_update_account)
  denied_Refuses (last_name_to id s) = ground (arith, denied may_update_account)
  denied_Refuses (user_to id s) = ground (arith, denied may_update_account)
  denied_Refuses (created_by_to id s) = ground (arith, denied may_update_account)
  denied_Refuses c = ground (arith, old, denied manages_members)

-- Every call by a member of another community on a saved member throws, and changes nothing.
pub foreign_member_Refuses_member :
    (vo : ValueObjects) (user : String) (member : MemberReference) (community : String) (m : Member)
    → member.community_id ≢ m.visa_community
    → m.is_new ≡ false
    → (c : Command)
    → (succeeds (perform vo (member_passport user member community) c m) ≡ false)
      × (state_after (perform vo (member_passport user member community) c m) ≡ m)
unfolding for_community member_community_visa
foreign_member_Refuses_member vo user member community m other old =
    denied_Refuses vo (member_passport user member community) m
      (λ func. ground (arith, eq_iff member.community_id m.visa_community)) old
