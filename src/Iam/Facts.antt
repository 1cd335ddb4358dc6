-- ===== src/Iam/Facts.antt =====
-- What the case visas of the passports can be asked to grant.
use cellixjs.Base.{Bool, true, false, ◌&&◌, ◌||◌, String, ◌≡◌, ◌≢◌, refl, arith, eq_iff}
use cellixjs.Iam.Permissions.{CaseDomainPermissions, MemberReference, TicketReference}
use cellixjs.Iam.Visas.{
  Denies, Passport, member_passport, staff_user_passport, guest_passport, system_passport,
  for_ticket, member_case_permissions,
}

module _ (user : String) (member : MemberReference) (community : String)
    (root : TicketReference) where
  -- What the permissions of the member do not grant, its visa denies.
  pub for_ticket-eq-false :
      (func : CaseDomainPermissions → Bool)
      → func (member_case_permissions member root) ≡ false
      → for_ticket (member_passport user member community) root func ≡ false
  unfolding for_ticket
  for_ticket-eq-false func h = ground arith

  -- A ticket of another community is closed to the member.
  pub foreign-Denies :
      member.community_id ≢ root.community_id
      → Denies (for_ticket (member_passport user member community) root)
  unfolding for_ticket
  foreign-Denies other func = ground (arith, eq_iff member.community_id root.community_id)

pub guest-Denies : (root : TicketReference) → Denies (for_ticket guest_passport root)
unfolding for_ticket
guest-Denies root func = refl

-- Who acts as a member, in whichever community.
abbrev pub IsMember : Passport → Type 0
IsMember (member_passport user member community) = Unit {0}
IsMember (staff_user_passport user) = ⊥
IsMember guest_passport = ⊥
IsMember (system_passport spec) = ⊥

-- A logged-in person or a guest: any passport but the system's.
abbrev pub IsPerson : Passport → Type 0
IsPerson (member_passport user member community) = Unit {0}
IsPerson (staff_user_passport user) = Unit {0}
IsPerson guest_passport = Unit {0}
IsPerson (system_passport spec) = ⊥

-- No visa of a person grants what it takes a system account to do.
pub person-eq-false :
    (passport : Passport) (root : TicketReference)
    → IsPerson passport
    → for_ticket passport root (λ p. p.is_system_account) ≡ false
unfolding for_ticket
person-eq-false (member_passport user member community) root h = ground arith
person-eq-false (staff_user_passport user) root h = refl
person-eq-false guest_passport root h = refl
person-eq-false (system_passport spec) root h = absurd h

-- A test that is a conjunction with a system account on one side is left to the other.
pub person-implies :
    (passport : Passport) (root : TicketReference) (table_allows : Bool)
    (rights : CaseDomainPermissions → Bool)
    → IsPerson passport
    → for_ticket passport root (λ p. p.is_system_account || (table_allows && rights p)) ≡ true
    → table_allows ≡ true
unfolding for_ticket
person-implies (member_passport user member community) root b rights h = ground arith
person-implies (staff_user_passport user) root b rights h = ground arith
person-implies guest_passport root b rights h = ground arith
person-implies (system_passport spec) root b rights h = absurd h
