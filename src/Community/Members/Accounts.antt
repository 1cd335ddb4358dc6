-- ===== src/Community/Members/Accounts.antt =====
-- member-account.ts: the setters, on the member's account with a given id.
use cellixjs.Base.{◌||◌, String, Exec, ◌>>=◌, ◌>>◌, guard, construct, permission_error}
use cellixjs.ValueObjects.{ValueObjects}
use cellixjs.Iam.Visas.{Passport}
use cellixjs.Community.Members.State.{
  Member, MemberAccount, account_status_codes, person_name_rule, may_update_account, determine_if,
  change_accounts, change_first, has_id, with_code,
}

abbrev pub account_refusal : String
account_refusal = "You do not have permission to update this account"

abbrev pub validate_visa : Passport → Exec Member (Unit {0})
validate_visa passport =
    guard (determine_if passport may_update_account) (permission_error account_refusal)

abbrev pub change_account : String → (MemberAccount → MemberAccount) → Exec Member (Unit {0})
change_account id f = change_accounts (change_first (has_id id) f)

module _ (vo : ValueObjects) (passport : Passport) (id : String) where
  unfoldable pub set_first_name : String → Exec Member (Unit {0})
  set_first_name value = do
    validate_visa passport
    first_name ← construct (vo.vo_string person_name_rule value)
    change_account id (λ a. record a { first_name = first_name })

  unfoldable pub set_last_name : String → Exec Member (Unit {0})
  set_last_name value = do
    validate_visa passport
    last_name ← construct (vo.vo_string person_name_rule value)
    change_account id (λ a. record a { last_name = last_name })

  unfoldable pub set_user : String → Exec Member (Unit {0})
  set_user user = do validate_visa passport; change_account id (λ a. record a { user = user })

  unfoldable pub set_status_code : String → Exec Member (Unit {0})
  set_status_code value = do
    guard (determine_if passport (λ p. p.is_system_account || p.can_manage_members))
        (permission_error account_refusal)
    code ← construct (vo.vo_set account_status_codes value)
    change_account id (with_code code)

  unfoldable pub set_created_by : String → Exec Member (Unit {0})
  set_created_by created_by = do
    validate_visa passport
    change_account id (λ a. record a { created_by = created_by })
