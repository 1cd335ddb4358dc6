-- ===== src/Management/Filling.antt =====
-- createMemberAccount, updateMemberAccount and createMember: the accounts of the member after the
-- calls that the callbacks make on it.
use cellixjs.Base.{
  ◌≡◌, refl, ◌∙◌, sym, ap, arith, false, List, [], ◌∷◌, ◌++◌, String, Option, none, some, done, any,
  eq_refl, inl, inr, Option-cases, subst, or_else,
}
use cellixjs.Iam.Visas.{Passport}
use cellixjs.ValueObjects.{ValueObjects}
use cellixjs.Community.Members.State.{Member, MemberAccount, change_first, has_id, person_name_rule}
use cellixjs.Community.Members.Accounts.{set_first_name, set_last_name, set_user}
use cellixjs.Community.Members.Methods.{
  request_new_account, get_new_instance, set_member_name, set_community,
}
use cellixjs.Management.Source.{Host}
use cellixjs.Management.Returns.{bind_done}
use cellixjs.Management.Accounts.{AccountName, add_account, fill_account, taken_by_other}
use cellixjs.Management.Users.{new_member}
use cellixjs.Management.Changes.{role-KeepsApart}
use cellixjs.Management.Apart.{Apart, renamed, Apart-renamed}

twice :
    (id : String) (f g : MemberAccount → MemberAccount) (xs : List MemberAccount)
    → ((a : MemberAccount) → (g a).id ≡ a.id)
    → change_first (has_id id) f (change_first (has_id id) g xs)
      ≡ change_first (has_id id) (λ a. f (g a)) xs
twice id f g [] k = refl
twice id f g (a ∷ xs) k = ground (arith, twice id f g xs k, k a)

module _ (vo : ValueObjects) (passport : Passport) (id : String) where
  user_accounts :
      (user : String) (m u : Member)
      → set_user vo passport id user m ≡ done tt u
      → u.props.accounts ≡ change_first (has_id id) (λ a. record a { user = user }) m.props.accounts
  unfolding set_user
  user_accounts user m u h = ground arith

  first_accounts :
      (name : String) (m u : Member)
      → set_first_name vo passport id name m ≡ done tt u
      → u.props.accounts
        ≡ change_first
            (has_id id)
            (λ a. record a { first_name = or_else (vo.vo_string person_name_rule name) "" })
            m.props.accounts
  unfolding set_first_name
  first_accounts name m u h = elim (Option-cases (vo.vo_string person_name_rule name)) [
    | inl e ↦ ground (arith, e)
    | inr (a, e) ↦ ground (arith, e)
  ]

  last_accounts :
      (name : String) (m u : Member)
      → set_last_name vo passport id name m ≡ done tt u
      → u.props.accounts
        ≡ change_first
            (has_id id)
            (λ a. record a { last_name = or_else (vo.vo_string person_name_rule name) "" })
            m.props.accounts
  unfolding set_last_name
  last_accounts name m u h = elim (Option-cases (vo.vo_string person_name_rule name)) [
    | inl e ↦ ground (arith, e)
    | inr (a, e) ↦ ground (arith, e)
  ]

change_last :
    (item : MemberAccount) (f : MemberAccount → MemberAccount) (xs : List MemberAccount)
    → any (has_id item.id) xs ≡ false
    → change_first (has_id item.id) f (xs ++ item ∷ []) ≡ xs ++ f item ∷ []
change_last item f [] h = ground (arith, eq_refl item.id)
change_last item f (a ∷ xs) h = ground (arith, change_last item f xs)

new_instance_accounts :
    (vo : ValueObjects) (passport : Passport) (name community : String) (m u : Member)
    → get_new_instance vo passport name community m ≡ done tt u
    → u.props.accounts ≡ m.props.accounts
unfolding get_new_instance set_member_name set_community
new_instance_accounts vo passport name community m u h = ground arith

module _ (host : Host) where
  -- The user and the names are written over the account with the id.
  fill_accounts :
      (id user : String) (name : AccountName) (m u : Member)
      → fill_account host id user name m ≡ done tt u
      → (first : String) × ((last : Option String) × (u.props.accounts
            ≡ change_first (has_id id) (renamed user first last) m.props.accounts))
  unfolding fill_account
  fill_accounts id user name m u h =
      let (x, (m1, (e1, h1))) = bind_done (set_user host.values host.passport id user) _ m u tt h in
      let (y, (m2, (e2, h2))) =
        bind_done (set_first_name host.values host.passport id name.first_name) _ m1 u tt h1 in
      let first = or_else (host.values.vo_string person_name_rule name.first_name) "" in
      let a1 = user_accounts host.values host.passport id user m m1 e1 in
      let a2 = first_accounts host.values host.passport id name.first_name m1 m2 e2 in
      let both : m2.props.accounts
          ≡ change_first (has_id id) (renamed user first none) m.props.accounts =
        a2
        ∙ ap (change_first (has_id id) (λ a. record a { first_name = first })) a1
        ∙ twice id (λ a. record a { first_name = first }) (λ a. record a { user = user })
            m.props.accounts (λ a. refl) in
      elim (Option-cases name.last_name) [
        | inl e ↦ (first, (none, ground (arith, e, both)))
        | inr (n, e) ↦
            let last = or_else (host.values.vo_string person_name_rule n) "" in
            let a3 = last_accounts host.values host.passport id n m2 u (ground (arith, e)) in
            (
              first,
              (
                some last,
                a3
                    ∙ ap (change_first (has_id id) (λ a. record a { last_name = last })) both
                    ∙ twice id (λ a. record a { last_name = last }) (renamed user first none)
                        m.props.accounts (λ a. refl),
              ),
            )
      ]

  -- The calls of updateMemberAccount, after its check.
  pub fill_account-Apart :
      (id user : String) (name : AccountName) (m u : Member)
      → fill_account host id user name m ≡ done tt u
      → any (taken_by_other id user) m.props.accounts ≡ false
      → Apart m.props.accounts
      → Apart u.props.accounts
  fill_account-Apart id user name m u h free k =
      let (first, (last, e)) = fill_accounts id user name m u h in
      subst Apart (sym e) (Apart-renamed id user first last m.props.accounts k free)

  appended :
      (item : MemberAccount) (m u : Member)
      → request_new_account host.values host.passport item m ≡ done tt u
      → u.props.accounts ≡ m.props.accounts ++ item ∷ []
  unfolding request_new_account
  appended item m u h = ground arith

  -- The calls of createMemberAccount put one account at the end.
  pub new_account_accounts :
      (item : MemberAccount) (user : String) (name : AccountName) (m u : Member)
      → add_account host item user name m ≡ done tt u
      → any (has_id item.id) m.props.accounts ≡ false
      → (a : MemberAccount) × ((a.id ≡ item.id)
          × ((a.user ≡ user) × (u.props.accounts ≡ m.props.accounts ++ a ∷ [])))
  new_account_accounts item user name m u h fresh =
      let (x, (m1, (e1, h1))) =
        bind_done (request_new_account host.values host.passport item) _ m u tt h in
      let (first, (last, e)) = fill_accounts item.id user name m1 u h1 in
      (
        renamed user first last item,
        (
          refl,
          (
            refl,
            e
                ∙ ap (change_first (has_id item.id) (renamed user first last))
                    (appended item m m1 e1)
                ∙ change_last item (renamed user first last) m.props.accounts fresh,
          ),
        ),
      )

  pub new_member-Apart :
      (name community role : String) (m u : Member)
      → new_member host name community role m ≡ done tt u
      → Apart m.props.accounts
      → Apart u.props.accounts
  unfolding new_member
  new_member-Apart name community role m u h k =
      let (x, (m1, (e1, h1))) =
        bind_done (get_new_instance host.values host.passport name community) _ m u tt h in
      role-KeepsApart host.values host.passport role m1 u h1 (
        subst Apart (sym (new_instance_accounts host.values host.passport name community m m1 e1))
          k)
