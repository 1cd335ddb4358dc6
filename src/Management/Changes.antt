-- ===== src/Management/Changes.antt =====
-- What the methods that the callbacks call do to the accounts of the member.
use cellixjs.Base.{
  ◌≡◌, sym, arith, String, Option, Exec, done, find, inl, inr, Option-cases, subst, or_else,
}
use cellixjs.Iam.Visas.{Passport}
use cellixjs.ValueObjects.{ValueObjects}
use cellixjs.Community.Members.State.{
  Member, change_first, with_code, awaits_activation, is_accepted, account_status_codes,
}
use cellixjs.Community.Members.Methods.{
  request_activate_member, request_deactivate_member, request_remove_member, set_role,
  request_remove_account, without_account,
}
use cellixjs.Management.Apart.{Apart, Apart-code, Apart-without}

-- A method that leaves accounts apart which were.
abbrev pub KeepsApart : Exec Member (Unit {0}) → Type 0
KeepsApart method =
    (m u : Member) → method m ≡ done tt u → Apart m.props.accounts → Apart u.props.accounts

module _ (vo : ValueObjects) (passport : Passport) where
  activate_accounts :
      (m u : Member)
      → request_activate_member vo passport m ≡ done tt u
      → (code : String) × (u.props.accounts
          ≡ change_first awaits_activation (with_code code) m.props.accounts)
  unfolding request_activate_member
  activate_accounts m u h = elim (Option-cases (find awaits_activation m.props.accounts)) [
    | inl e ↦ ("", ground (arith, e))
    | inr (a, e) ↦ (or_else (vo.vo_set account_status_codes "ACCEPTED") "", ground (arith, e))
  ]

  pub activate-KeepsApart : KeepsApart (request_activate_member vo passport)
  activate-KeepsApart m u h k =
      let (code, e) = activate_accounts m u h in
      subst Apart (sym e) (Apart-code code awaits_activation m.props.accounts k)

  deactivate_accounts :
      (by why : Option String) (m u : Member)
      → request_deactivate_member vo passport by why m ≡ done tt u
      → (code : String) × (u.props.accounts
          ≡ change_first is_accepted (with_code code) m.props.accounts)
  unfolding request_deactivate_member
  deactivate_accounts by why m u h = elim (Option-cases (find is_accepted m.props.accounts)) [
    | inl e ↦ ("", ground (arith, e))
    | inr (a, e) ↦ (or_else (vo.vo_set account_status_codes "REJECTED") "", ground (arith, e))
  ]

  pub deactivate-KeepsApart :
      (by why : Option String) → KeepsApart (request_deactivate_member vo passport by why)
  deactivate-KeepsApart by why m u h k =
      let (code, e) = deactivate_accounts by why m u h in
      subst Apart (sym e) (Apart-code code is_accepted m.props.accounts k)

  remove_accounts :
      (by why : Option String) (m u : Member)
      → request_remove_member vo passport by why m ≡ done tt u
      → u.props.accounts ≡ m.props.accounts
  unfolding request_remove_member
  remove_accounts by why m u h = ground arith

  pub remove-KeepsApart :
      (by why : Option String) → KeepsApart (request_remove_member vo passport by why)
  remove-KeepsApart by why m u h k = subst Apart (sym (remove_accounts by why m u h)) k

  role_accounts :
      (role : String) (m u : Member)
      → set_role vo passport role m ≡ done tt u
      → u.props.accounts ≡ m.props.accounts
  unfolding set_role
  role_accounts role m u h = ground arith

  pub role-KeepsApart : (role : String) → KeepsApart (set_role vo passport role)
  role-KeepsApart role m u h k = subst Apart (sym (role_accounts role m u h)) k

  without_accounts :
      (id : String) (m u : Member)
      → request_remove_account vo passport id m ≡ done tt u
      → u.props.accounts ≡ without_account id m.props.accounts
  unfolding request_remove_account
  without_accounts id m u h = ground arith

  pub remove_account-KeepsApart : (id : String) → KeepsApart (request_remove_account vo passport id)
  remove_account-KeepsApart id m u h k =
      subst Apart (sym (without_accounts id m u h)) (Apart-without id m.props.accounts k)
