-- ===== src/Community/Profile.antt =====
-- member-profile.ts, and what `updateMemberProfile` of member-management.ts does with a member
-- before it saves it.
pub mod Laws
pub mod Tests
use cellixjs.Base.{
  Bool, true, false, ◌&&◌, ◌||◌, String, List, Option, none, some, Exec, Outcome, done, thrown,
  ◌>>=◌, ◌>>◌, pure, modify, guard, construct, permission_error,
}
use cellixjs.ValueObjects.{StringRule, ValueObjects}
use cellixjs.Iam.Permissions.{CommunityDomainPermissions}
use cellixjs.Iam.Visas.{Passport}
use cellixjs.Community.Members.State.{Member, determine_if, person_name_rule}
use cellixjs.Community.Members.Methods.{set_member_name}

-- MemberProfileProps.
pub record MemberProfileProps : Type 0 where
  pub name : String
  pub email : String
  pub bio : String
  pub avatar_document_id : String
  pub interests : List String
  pub show_interests : Bool
  pub show_email : Bool
  pub show_profile : Bool
  pub show_location : Bool
  pub show_properties : Bool

-- A member with the profile that is embedded in it.
pub record ProfileMember : Type 0 where
  pub member : Member
  pub profile : MemberProfileProps

-- The value objects of the profile: NullableEmail and Interests beside those by rules.
pub record ProfileValues : Type 0 where
  pub values : ValueObjects
  pub nullable_email : String → Option String
  pub interests : List String → Option (List String)

abbrev pub bio_rule : StringRule
bio_rule = record { trim = true; min_length = none; max_length = 2000 }

abbrev pub edits_profile : CommunityDomainPermissions → Bool
edits_profile p =
    p.can_manage_members || (p.can_edit_own_member_profile && p.is_editing_own_member_account)

-- MemberUpdateProfileCommand.profile: `none` is undefined or null.
pub record ProfileChanges : Type 0 where
  pub name : Option String
  pub email : Option String
  pub bio : Option String
  pub avatar_document_id : Option String
  pub interests : Option (List String)
  pub show_interests : Option Bool
  pub show_email : Option Bool
  pub show_profile : Option Bool
  pub show_location : Option Bool
  pub show_properties : Option Bool

-- A call on the member itself.
abbrev pub with_profile :
    MemberProfileProps → Outcome Member (Unit {0}) → Outcome ProfileMember (Unit {0})
with_profile profile (done u m) = done u (record { member = m; profile = profile })
with_profile profile (thrown e m) = thrown e (record { member = m; profile = profile })

abbrev pub on_member : Exec Member (Unit {0}) → Exec ProfileMember (Unit {0})
on_member method s = with_profile s.profile (method s.member)

-- `if (x !== undefined && x !== null) ...`.
abbrev pub given :
    {X : Type 0} → Option X → (X → Exec ProfileMember (Unit {0})) → Exec ProfileMember (Unit {0})
given none k s = done tt s
given (some x) k s = k x s

module _ (values : ProfileValues) (passport : Passport) where
  abbrev pub validate_visa : Exec ProfileMember (Unit {0})
  validate_visa =
      guard (λ s. determine_if passport edits_profile s.member)
        (permission_error "You do not have permission to update this profile")

  -- A setter: the visa, the value object, the field.
  abbrev pub set_field :
      {X : Type 0}
      → Option X
      → (X → MemberProfileProps → MemberProfileProps)
      → Exec ProfileMember (Unit {0})
  set_field value write = do
    validate_visa
    x ← construct value
    modify (λ s. record s { profile = write x s.profile })

  unfoldable pub set_name : String → Exec ProfileMember (Unit {0})
  set_name name =
      set_field (values.values.vo_string person_name_rule name) (λ x p. record p { name = x })

  unfoldable pub set_email : String → Exec ProfileMember (Unit {0})
  set_email email = set_field (values.nullable_email email) (λ x p. record p { email = x })

  unfoldable pub set_bio : String → Exec ProfileMember (Unit {0})
  set_bio bio = set_field (values.values.vo_string bio_rule bio) (λ x p. record p { bio = x })

  unfoldable pub set_avatar_document_id : String → Exec ProfileMember (Unit {0})
  set_avatar_document_id id = set_field (some id) (λ x p. record p { avatar_document_id = x })

  unfoldable pub set_interests : List String → Exec ProfileMember (Unit {0})
  set_interests interests =
      set_field (values.interests interests) (λ x p. record p { interests = x })

  unfoldable pub set_show_interests : Bool → Exec ProfileMember (Unit {0})
  set_show_interests b = set_field (some b) (λ x p. record p { show_interests = x })

  unfoldable pub set_show_email : Bool → Exec ProfileMember (Unit {0})
  set_show_email b = set_field (some b) (λ x p. record p { show_email = x })

  unfoldable pub set_show_profile : Bool → Exec ProfileMember (Unit {0})
  set_show_profile b = set_field (some b) (λ x p. record p { show_profile = x })

  unfoldable pub set_show_location : Bool → Exec ProfileMember (Unit {0})
  set_show_location b = set_field (some b) (λ x p. record p { show_location = x })

  unfoldable pub set_show_properties : Bool → Exec ProfileMember (Unit {0})
  set_show_properties b = set_field (some b) (λ x p. record p { show_properties = x })

  unfoldable pub rename : String → Exec ProfileMember (Unit {0})
  rename name = do set_name name; on_member (set_member_name values.values passport name)

  unfoldable pub update_profile : ProfileChanges → Exec ProfileMember (Unit {0})
  update_profile changes = do
    given changes.name rename
    given changes.email set_email
    given changes.bio set_bio
    given changes.avatar_document_id set_avatar_document_id
    given changes.interests set_interests
    given changes.show_interests set_show_interests
    given changes.show_email set_show_email
    given changes.show_profile set_show_profile
    given changes.show_location set_show_location
    given changes.show_properties set_show_properties
