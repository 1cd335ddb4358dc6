-- ===== src/Management/Lookups.antt =====
-- What the lookups of the callbacks find.
use cellixjs.Base.{
  ◌≡◌, refl, sym, arith, List, [], ◌∷◌, String, Option, none, some, done, find, eq_sound, subst,
}
use cellixjs.Community.Members.State.{MemberAccount, MemberProps, has_id}
use cellixjs.Management.Source.{Host, Session, EndUser, EndUserRole}
use cellixjs.Management.Single.{role_found}
use cellixjs.Management.Accounts.{
  end_user_found, account_found, get_account_name_from_end_user, named,
}
use cellixjs.Management.Saving.{Reads}
use cellixjs.Management.Finding.{At, Finds}

pub role-Reads : (id : String) (o : Option EndUserRole) → Reads (role_found id o)
role-Reads id none s = refl
role-Reads id (some r) s = refl

pub user-Reads : (id : String) (o : Option EndUser) → Reads (end_user_found id o)
user-Reads id none s = refl
user-Reads id (some u) s = refl

pub account-Reads :
    (id member : String) (o : Option MemberAccount) → Reads (account_found id member o)
account-Reads id member none s = refl
account-Reads id member (some r) s = refl

named-Reads : (id : String) (first last : Option String) → Reads (named id first last)
named-Reads id none last s = refl
named-Reads id (some first) last s = refl

pub name-Reads :
    (trim : String → String) (u : EndUser) → Reads (get_account_name_from_end_user trim u)
name-Reads trim u = named-Reads u.id _ _

has_id_found :
    (id : String) (xs : List MemberAccount) (a : MemberAccount)
    → find (has_id id) xs ≡ some a
    → a.id ≡ id
has_id_found id [] a h = ground arith
has_id_found id (x ∷ xs) a h = ground (arith, has_id_found id xs a, eq_sound x.id id)

account_found-done :
    (id member : String) (o : Option MemberAccount) (a : MemberAccount) (s t : Session)
    → account_found id member o s ≡ done a t
    → (o ≡ some a) × (t ≡ s)
account_found-done id member none a s t h = ground arith
account_found-done id member (some x) a s t h = ground arith

end_user_found-done :
    (id : String) (o : Option EndUser) (u : EndUser) (s t : Session)
    → end_user_found id o s ≡ done u t
    → (o ≡ some u) × (t ≡ s)
end_user_found-done id none a s t h = ground arith
end_user_found-done id (some x) a s t h = ground arith

-- `getById` of the users finds the user with the id.
abbrev pub FindsUsers : Host → Type 0
FindsUsers host = (id : String) (u : EndUser) → host.end_user id ≡ some u → u.id ≡ id

module _ (docs : List MemberProps) where
  pub Finds-account :
      (id member : String) (xs : List MemberAccount)
      → Finds docs (λ a. a.id ≡ id) (account_found id member (find (has_id id) xs))
  Finds-account id member xs s t a at_docs h =
      let (e, same) = account_found-done id member (find (has_id id) xs) a s t h in
      (subst (At docs) (sym same) at_docs, has_id_found id xs a e)

  pub Finds-user :
      (host : Host)
      → FindsUsers host
      → (id : String) → Finds docs (λ u. u.id ≡ id) (end_user_found id (host.end_user id))
  Finds-user host finds_users id s t u at_docs h =
      let (e, same) = end_user_found-done id (host.end_user id) u s t h in
      (subst (At docs) (sym same) at_docs, finds_users id u e)
