-- ===== src/Management/Apart.antt =====
-- Lists of accounts in which no two have the same id and no two are of the same user, and what the
-- methods of a member do to them.
use cellixjs.Base.{
  ◌≡◌, refl, ◌∙◌, arith, Bool, true, false, List, [], ◌∷◌, ◌++◌, String, Option, any, ◌==◌, eq_refl,
  eq_sound, if◌then◌else◌, or_else,
}
use cellixjs.Community.Members.State.{MemberAccount, change_first, with_code, has_id}
use cellixjs.Community.Members.Methods.{without_account}
use cellixjs.Management.Accounts.{of_user, taken_by_other}

abbrev pub Apart : List MemberAccount → Type 0
Apart [] = Unit {0}
Apart (a ∷ xs) = (any (has_id a.id) xs ≡ false) × ((any (of_user a.user) xs ≡ false) × Apart xs)

-- `user` and the names written over an account.
abbrev pub renamed : String → String → Option String → MemberAccount → MemberAccount
renamed user first last a = record a {
  user = user;
  first_name = first;
  last_name = or_else last a.last_name;
}

any_id-code :
    (id code : String) (p : MemberAccount → Bool) (xs : List MemberAccount)
    → any (has_id id) (change_first p (with_code code) xs) ≡ any (has_id id) xs
any_id-code id code p [] = refl
any_id-code id code p (a ∷ xs) = ground (arith, any_id-code id code p xs)

any_user-code :
    (user code : String) (p : MemberAccount → Bool) (xs : List MemberAccount)
    → any (of_user user) (change_first p (with_code code) xs) ≡ any (of_user user) xs
any_user-code user code p [] = refl
any_user-code user code p (a ∷ xs) = ground (arith, any_user-code user code p xs)

pub Apart-code :
    (code : String) (p : MemberAccount → Bool) (xs : List MemberAccount)
    → Apart xs
    → Apart (change_first p (with_code code) xs)
Apart-code code p [] h = tt
Apart-code code p (a ∷ xs) h = go (p a) (Apart-code code p xs h.1.1)
  where
    go :
        (b : Bool)
        → Apart (change_first p (with_code code) xs)
        → Apart (if b then with_code code a ∷ xs else a ∷ change_first p (with_code code) xs)
    go true rest = h
    go false rest =
        (any_id-code a.id code p xs ∙ h.0, (any_user-code a.user code p xs ∙ h.1.0, rest))

any_without :
    (q : MemberAccount → Bool) (id : String) (xs : List MemberAccount)
    → any q xs ≡ false
    → any q (without_account id xs) ≡ false
any_without q id [] h = refl
any_without q id (a ∷ xs) h = ground (arith, any_without q id xs)

pub Apart-without :
    (id : String) (xs : List MemberAccount) → Apart xs → Apart (without_account id xs)
Apart-without id [] h = tt
Apart-without id (a ∷ xs) h = go (a.id == id) (Apart-without id xs h.1.1)
  where
    go :
        (b : Bool)
        → Apart (without_account id xs)
        → Apart (if b then without_account id xs else a ∷ without_account id xs)
    go true rest = rest
    go false rest =
        (any_without (has_id a.id) id xs h.0, (any_without (of_user a.user) id xs h.1.0, rest))

any_append :
    (q : MemberAccount → Bool) (xs : List MemberAccount) (b : MemberAccount)
    → any q xs ≡ false
    → q b ≡ false
    → any q (xs ++ b ∷ []) ≡ false
any_append q [] b h k = ground arith
any_append q (a ∷ xs) b h k = ground (arith, any_append q xs b)

pub Apart-append :
    (xs : List MemberAccount) (b : MemberAccount)
    → Apart xs
    → any (has_id b.id) xs ≡ false
    → any (of_user b.user) xs ≡ false
    → Apart (xs ++ b ∷ [])
Apart-append [] b h i u = (refl, (refl, tt))
Apart-append (a ∷ xs) b h i u = (
  any_append (has_id a.id) xs b h.0 (ground (arith, eq_sound b.id a.id, eq_refl b.id)),
  (
    any_append (of_user a.user) xs b h.1.0 (ground (arith, eq_sound b.user a.user, eq_refl b.user)),
    Apart-append xs b h.1.1 (ground arith) (ground arith),
  ),
)

any_id-renamed :
    (id account user first : String) (last : Option String) (xs : List MemberAccount)
    → any (has_id id) (change_first (has_id account) (renamed user first last) xs)
      ≡ any (has_id id) xs
any_id-renamed id account user first last [] = refl
any_id-renamed id account user first last (a ∷ xs) =
    ground (arith, any_id-renamed id account user first last xs)

any_user-renamed :
    (who account user first : String) (last : Option String) (xs : List MemberAccount)
    → any (of_user who) xs ≡ false
    → (user == who) ≡ false
    → any (of_user who) (change_first (has_id account) (renamed user first last) xs) ≡ false
any_user-renamed who account user first last [] h e = refl
any_user-renamed who account user first last (a ∷ xs) h e =
    ground (arith, any_user-renamed who account user first last xs)

taken_alone :
    (account user : String) (xs : List MemberAccount)
    → any (has_id account) xs ≡ false
    → any (taken_by_other account user) xs ≡ any (of_user user) xs
taken_alone account user [] h = refl
taken_alone account user (a ∷ xs) h = ground (arith, taken_alone account user xs)

-- The check of updateMemberAccount is the one that a change of the user needs.
pub Apart-renamed :
    (account user first : String) (last : Option String) (xs : List MemberAccount)
    → Apart xs
    → any (taken_by_other account user) xs ≡ false
    → Apart (change_first (has_id account) (renamed user first last) xs)
Apart-renamed account user first last [] h k = tt
Apart-renamed account user first last (a ∷ xs) h k =
    go (a.id == account) refl (Apart-renamed account user first last xs h.1.1)
  where
    go :
        (b : Bool)
        → (a.id == account) ≡ b
        → (any (taken_by_other account user) xs ≡ false
            → Apart (change_first (has_id account) (renamed user first last) xs))
        → Apart (
            if b
            then renamed user first last a ∷ xs
            else a ∷ change_first (has_id account) (renamed user first last) xs)
    go true e rest =
        (h.0, (ground (arith, h.0, taken_alone account user xs, eq_sound a.id account), h.1.1))
    go false e rest = (
      any_id-renamed a.id account user first last xs ∙ h.0,
      (
        any_user-renamed a.user account user first last xs h.1.0
            (ground (arith, eq_sound user a.user, eq_refl user)),
        rest (ground arith),
      ),
    )
