-- ===== src/Community/Profile/Laws.antt =====
-- Who can change a profile.
use cellixjs.Base.{
  ◌≡◌, refl, ◌∙◌, sym, ap, arith, Bool, true, false, String, Option, none, some, Exec, Outcome,
  done, thrown, ◌>>◌, and_then, inl, inr, ◌⊎◌, Bool-cases,
}
use cellixjs.Iam.Visas.{
  Passport, member_passport, staff_user_passport, guest_passport, system_passport,
}
use cellixjs.Iam.Permissions.{MemberReference, StaffUserReference}
use cellixjs.Iam.Community.{
  for_community, member_community_visa, member_community_permissions, staff_community_visa,
  staff_community_permissions,
}
use cellixjs.Community.Members.State.{determine_if}
use cellixjs.Community.Profile.{
  ProfileMember, MemberProfileProps, ProfileValues, ProfileChanges, edits_profile, given, set_field,
  set_name, set_email, set_bio, set_avatar_document_id, set_interests, set_show_interests,
  set_show_email, set_show_profile, set_show_location, set_show_properties, rename, bio_rule,
  update_profile,
}

module _ (values : ProfileValues) (passport : Passport) where
  abbrev may_edit : ProfileMember → Bool
  may_edit s = determine_if passport edits_profile s.member

  -- Where it returns, it has changed nothing, or the caller may edit the profile.
  abbrev IsGuarded : Exec ProfileMember (Unit {0}) → Type 0
  IsGuarded f = (s t : ProfileMember) → f s ≡ done tt t → (t ≡ s) ⊎ (may_edit s ≡ true)

  IsGuarded-then :
      (f g : Exec ProfileMember (Unit {0})) → IsGuarded f → IsGuarded g → IsGuarded (f >> g)
  IsGuarded-then f g hf hg s t h = go (f s) refl h
    where
      after :
          (u : ProfileMember)
          → (u ≡ s) ⊎ (may_edit s ≡ true)
          → g u ≡ done tt t
          → (t ≡ s) ⊎ (may_edit s ≡ true)
      after u (inr k) e = inr k
      after u (inl k) e = hg s t (ap g (sym k) ∙ e)

      go :
          (o : Outcome ProfileMember (Unit {0}))
          → f s ≡ o
          → and_then o (λ x. g) ≡ done tt t
          → (t ≡ s) ⊎ (may_edit s ≡ true)
      go (done tt u) e k = after u (hf s u e) k
      go (thrown x u) e k = ground arith

  given-IsGuarded :
      {X : Type 0} (o : Option X) (k : X → Exec ProfileMember (Unit {0}))
      → ((x : X) → IsGuarded (k x))
      → IsGuarded (given o k)
  given-IsGuarded none k h s t e = inl (ground arith)
  given-IsGuarded (some x) k h s t e = h x s t e

  set_field-IsGuarded :
      {X : Type 0} (o : Option X) (write : X → MemberProfileProps → MemberProfileProps)
      → IsGuarded (set_field values passport o write)
  set_field-IsGuarded o write s t h = elim (Bool-cases (may_edit s)) [
    | inl e ↦ inr e
    | inr e ↦ ground (arith, e)
  ]

  rename-IsGuarded : (name : String) → IsGuarded (rename values passport name)
  unfolding rename set_name
  rename-IsGuarded name s t h = elim (Bool-cases (may_edit s)) [
    | inl e ↦ inr e
    | inr e ↦ ground (arith, e)
  ]

  update_profile-IsGuarded :
      (changes : ProfileChanges) → IsGuarded (update_profile values passport changes)
  unfolding update_profile set_email set_bio set_avatar_document_id set_interests set_show_interests
      set_show_email set_show_profile set_show_location set_show_properties
  update_profile-IsGuarded changes =
      IsGuarded-then (given changes.name (rename values passport)) _
        (given-IsGuarded changes.name (rename values passport) rename-IsGuarded)
        (IsGuarded-then (given changes.email (set_email values passport)) _
          (given-IsGuarded changes.email (set_email values passport)
            (λ x. set_field-IsGuarded (values.nullable_email x) (λ y p. record p { email = y })))
          (IsGuarded-then (given changes.bio (set_bio values passport)) _
            (given-IsGuarded changes.bio (set_bio values passport) (λ x.
              set_field-IsGuarded (values.values.vo_string bio_rule x)
                (λ y p. record p { bio = y })))
            (IsGuarded-then
              (given changes.avatar_document_id (set_avatar_document_id values passport)) _
              (given-IsGuarded changes.avatar_document_id (set_avatar_document_id values passport)
                (λ x. set_field-IsGuarded (some x) (λ y p. record p { avatar_document_id = y })))
              (IsGuarded-then (given changes.interests (set_interests values passport)) _
                (given-IsGuarded changes.interests (set_interests values passport) (λ x.
                  set_field-IsGuarded (values.interests x) (λ y p. record p { interests = y })))
                (IsGuarded-then (given changes.show_interests (set_show_interests values passport))
                  _
                  (given-IsGuarded changes.show_interests (set_show_interests values passport)
                    (λ x. set_field-IsGuarded (some x) (λ y p. record p { show_interests = y })))
                  (IsGuarded-then (given changes.show_email (set_show_email values passport)) _
                    (given-IsGuarded changes.show_email (set_show_email values passport)
                      (λ x. set_field-IsGuarded (some x) (λ y p. record p { show_email = y })))
                    (IsGuarded-then (given changes.show_profile (set_show_profile values passport))
                      _
                      (given-IsGuarded changes.show_profile (set_show_profile values passport)
                        (λ x. set_field-IsGuarded (some x) (λ y p. record p { show_profile = y })))
                      (IsGuarded-then
                        (given changes.show_location (set_show_location values passport)) _
                        (given-IsGuarded changes.show_location (set_show_location values passport)
                          (λ x.
                            set_field-IsGuarded (some x) (λ y p. record p { show_location = y })))
                        (given-IsGuarded changes.show_properties
                          (set_show_properties values passport)
                          (λ x.
                            set_field-IsGuarded (some x)
                              (λ y p. record p { show_properties = y })))))))))))

-- The visas of people: none of them says that somebody edits an account of their own.
people_edit :
    (user : String) (member : MemberReference) (community id : String)
    → for_community (member_passport user member community) id edits_profile
      ≡ for_community (member_passport user member community) id (λ p. p.can_manage_members)
unfolding for_community member_community_visa member_community_permissions
people_edit user member community id = ground arith

staff_edit :
    (user : StaffUserReference) (id : String)
    → for_community (staff_user_passport user) id edits_profile
      ≡ for_community (staff_user_passport user) id (λ p. p.can_manage_members)
unfolding for_community staff_community_visa staff_community_permissions
staff_edit user id = ground arith

guests_edit : (id : String) → for_community guest_passport id edits_profile ≡ false
unfolding for_community
guests_edit id = refl

-- Whether the passport is that of a person.
abbrev pub is_person : Passport → Bool
is_person (member_passport user member community) = true
is_person (staff_user_passport user) = true
is_person guest_passport = true
is_person (system_passport spec) = false

-- A person who changes anything in a profile manages the members of the community: for a member, a
-- staff user or a guest, `updateMemberProfile` leaves the object alone, throws, or finds the
-- permission canManageMembers. The permission to edit one's own profile never suffices.
pub profile_needs_manager :
    (values : ProfileValues) (passport : Passport) (changes : ProfileChanges) (s t : ProfileMember)
    → is_person passport ≡ true
    → update_profile values passport changes s ≡ done tt t
    → (t ≡ s) ⊎ (determine_if passport (λ p. p.can_manage_members) s.member ≡ true)
profile_needs_manager values (member_passport user member community) changes s t p h = ground (
  arith,
  update_profile-IsGuarded values (member_passport user member community) changes s t h,
  people_edit user member community s.member.visa_community,
)
profile_needs_manager values (staff_user_passport user) changes s t p h = ground (
  arith,
  update_profile-IsGuarded values (staff_user_passport user) changes s t h,
  staff_edit user s.member.visa_community,
)
profile_needs_manager values guest_passport changes s t p h = ground (
  arith,
  update_profile-IsGuarded values guest_passport changes s t h,
  guests_edit s.member.visa_community,
)
profile_needs_manager values (system_passport spec) changes s t p h = ground arith
