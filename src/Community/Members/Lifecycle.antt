-- ===== src/Community/Members/Lifecycle.antt =====
-- Activation, deactivation and removal of a member, branch by branch, and how many of its accounts
-- are accepted after them.
use cellixjs.Base.{
  ℕ, suc, ◌≤◌, Bool, true, false, ◌||◌, String, List, [], ◌∷◌, Option, none, some, or_else, ◌≡◌,
  ◌↔◌, refl, ap, ◌∙◌, arith, permission_error, plain_error, done, thrown, any, find, if◌then◌else◌,
  not_both, Option-cases, inl, inr,
}
use cellixjs.ValueObjects.{ValueObjects, ValueObjectLaws}
use cellixjs.Seedwork.Aggregate.{add_domain_event}
use cellixjs.Iam.Visas.{
  Passport, member_passport, staff_user_passport, guest_passport, system_passport,
}
use cellixjs.Iam.Community.{for_community}
use cellixjs.Community.Members.State.{
  Member, MemberAccount, MemberPayload, activated_props, deactivated_props, account_status_codes,
  manages_members, determine_if, change_first, is_accepted, awaits_activation, with_code,
  is_active_member,
}
use cellixjs.Community.Members.Methods.{request_activate_member, request_deactivate_member}

abbrev pub count : (MemberAccount → Bool) → List MemberAccount → ℕ
count p [] = 0
count p (a ∷ accounts) = if p a then suc (count p accounts) else count p accounts

-- The member with a status code written over the first account that passes the test, and an event.
abbrev pub changed : (MemberAccount → Bool) → String → String → MemberPayload → Member → Member
changed test code name payload m = record m {
  root = add_domain_event name m.props.id payload m.root;
  props = record m.props { accounts = change_first test (with_code code) m.props.accounts };
}

-- Two ways in which the code asks for the same permission.
either_order :
    (passport : Passport) (id : String)
    → for_community passport id (λ p. p.is_system_account || p.can_manage_members)
      ≡ for_community passport id manages_members
unfolding for_community
either_order (member_passport user member community) id = ground arith
either_order (staff_user_passport user) id = ground arith
either_order guest_passport id = refl
either_order (system_passport spec) id = ground arith

find-any :
    (p : MemberAccount → Bool) (xs : List MemberAccount) → find p xs ≡ none → any p xs ≡ false
find-any p [] h = refl
find-any p (x ∷ xs) h = ground (arith, find-any p xs)

find-some :
    (p : MemberAccount → Bool) (xs : List MemberAccount) (a : MemberAccount)
    → find p xs ≡ some a
    → any p xs ≡ true
find-some p [] a h = ground arith
find-some p (x ∷ xs) a h = ground (arith, find-some p xs a)

-- With value objects that keep their laws, `requestActivateMember` accepts the first account that
-- is created or rejected and raises one event; it throws, and changes nothing, where the caller
-- does not manage the members of the community, or where no account waits.
pub request_activate_branches :
    (vo : ValueObjects) (laws : ValueObjectLaws vo) (passport : Passport) (m : Member)
    → request_activate_member vo passport m ≡ (
        if determine_if passport manages_members m
        then (if any awaits_activation m.props.accounts
            then done tt (
                changed awaits_activation "ACCEPTED" "MemberActivatedEvent"
                  (activated_props m.props.id m.props.community_id)
                  m)
            else thrown (plain_error "No pending account found to activate") m)
        else thrown (permission_error "Cannot activate member") m)
unfolding request_activate_member
request_activate_branches vo laws passport m =
    elim (Option-cases (find awaits_activation m.props.accounts)) [
      | inl e ↦ ground (arith, e, find-any awaits_activation m.props.accounts e)
      | inr (a, e) ↦ ground (
        arith,
        e,
        find-some awaits_activation m.props.accounts a e,
        either_order passport m.visa_community,
        laws.set_members account_status_codes "ACCEPTED",
      )
    ]

-- With value objects that keep their laws, `requestDeactivateMember` rejects the first accepted
-- account, and raises one event with the caller's id and reason; it throws, and changes nothing,
-- where the caller does not manage the members of the community, or where no account is accepted.
pub request_deactivate_branches :
    (vo : ValueObjects) (laws : ValueObjectLaws vo) (passport : Passport)
    (actor_id reason : Option String) (m : Member)
    → request_deactivate_member vo passport actor_id reason m ≡ (
        if determine_if passport manages_members m
        then (if is_active_member m
            then done tt (
                changed is_accepted "REJECTED" "MemberDeactivatedEvent"
                  (deactivated_props m.props.id m.props.community_id
                    (or_else actor_id "system")
                    (or_else reason ""))
                  m)
            else thrown (plain_error "No active account found to deactivate") m)
        else thrown (permission_error "Cannot deactivate member") m)
unfolding request_deactivate_member
request_deactivate_branches vo laws passport actor_id reason m =
    elim (Option-cases (find is_accepted m.props.accounts)) [
      | inl e ↦ ground (arith, e, find-any is_accepted m.props.accounts e)
      | inr (a, e) ↦ ground (
        arith,
        e,
        find-some is_accepted m.props.accounts a e,
        either_order passport m.visa_community,
        laws.set_members account_status_codes "REJECTED",
      )
    ]

count-accept :
    (xs : List MemberAccount)
    → any awaits_activation xs ≡ true
    → count is_accepted (change_first awaits_activation (with_code "ACCEPTED") xs)
      ≡ suc (count is_accepted xs)
count-accept [] h = ground arith
count-accept (x ∷ xs) h = ground (
  arith,
  count-accept xs,
  not_both x.status_code "ACCEPTED" "CREATED" refl,
  not_both x.status_code "ACCEPTED" "REJECTED" refl,
)

count-reject :
    (xs : List MemberAccount)
    → any is_accepted xs ≡ true
    → suc (count is_accepted (change_first is_accepted (with_code "REJECTED") xs))
      ≡ count is_accepted xs
count-reject [] h = ground arith
count-reject (x ∷ xs) h = ground (arith, count-reject xs)

any-count : (xs : List MemberAccount) → any is_accepted xs ≡ true → 1 ≤ count is_accepted xs
any-count [] h = ground arith
any-count (x ∷ xs) h = ground (arith, any-count xs)

count-any : (xs : List MemberAccount) → 1 ≤ count is_accepted xs → any is_accepted xs ≡ true
count-any [] h = ground arith
count-any (x ∷ xs) h = ground (arith, count-any xs)

activate_returns :
    (vo : ValueObjects) (laws : ValueObjectLaws vo) (passport : Passport) (m u : Member)
    → request_activate_member vo passport m ≡ done tt u
    → (any awaits_activation m.props.accounts ≡ true)
      × (u
          ≡ changed awaits_activation "ACCEPTED" "MemberActivatedEvent"
              (activated_props m.props.id m.props.community_id)
              m)
activate_returns vo laws passport m u h =
    ground (arith, request_activate_branches vo laws passport m)

deactivate_returns :
    (vo : ValueObjects) (laws : ValueObjectLaws vo) (passport : Passport) (m u : Member)
    (actor_id reason : Option String)
    → request_deactivate_member vo passport actor_id reason m ≡ done tt u
    → (any is_accepted m.props.accounts ≡ true)
      × (u
          ≡ changed is_accepted "REJECTED" "MemberDeactivatedEvent"
              (deactivated_props m.props.id m.props.community_id
                (or_else actor_id "system")
                (or_else reason ""))
              m)
deactivate_returns vo laws passport m u actor_id reason h =
    ground (arith, request_deactivate_branches vo laws passport actor_id reason m)

module _ (vo : ValueObjects) (laws : ValueObjectLaws vo) (passport : Passport) (m u : Member) where
  -- Where `requestActivateMember` returns, with value objects that keep their laws, the member is
  -- active, with exactly one accepted account more than before.
  pub activated_is_active :
      request_activate_member vo passport m ≡ done tt u
      → (is_active_member u ≡ true)
        × (count is_accepted u.props.accounts ≡ suc (count is_accepted m.props.accounts))
  activated_is_active h =
      let r = activate_returns vo laws passport m u h in
      let counted =
        ap (λ v. count is_accepted v.props.accounts) r.1 ∙ count-accept m.props.accounts r.0 in
      (count-any u.props.accounts (ground (arith, counted)), counted)

  -- Where `requestDeactivateMember` returns, with value objects that keep their laws, the member
  -- has exactly one accepted account less than before, and is still active exactly where it had two
  -- accepted accounts or more.
  pub deactivated_may_be_active :
      (actor_id reason : Option String)
      → request_deactivate_member vo passport actor_id reason m ≡ done tt u
      → (suc (count is_accepted u.props.accounts) ≡ count is_accepted m.props.accounts)
        × ((is_active_member u ≡ true) ↔ (2 ≤ count is_accepted m.props.accounts))
  deactivated_may_be_active actor_id reason h =
      let r = deactivate_returns vo laws passport m u actor_id reason h in
      let counted =
        ap (λ v. suc (count is_accepted v.props.accounts)) r.1
        ∙ count-reject m.props.accounts r.0 in
      (
        counted,
        (
          (λ active. ground (arith, counted, any-count u.props.accounts active)),
          λ two. count-any u.props.accounts (ground (arith, counted)),
        ),
      )
