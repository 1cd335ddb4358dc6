-- ===== src/Community/Profile/Tests.antt =====
-- A profile at concrete inputs.
use cellixjs.Base.{
  ◌≡◌, refl, true, false, [], none, some, done, thrown, state_after, ◌⊎◌, permission_error,
}
use cellixjs.Samples.{checked_values, sample_member_passport, sample_role, sample_member}
use cellixjs.Seedwork.Aggregate.{new_root}
use cellixjs.Iam.Visas.{Passport, member_passport}
use cellixjs.Iam.Community.{for_community, member_community_visa, member_community_permissions}
use cellixjs.Community.Members.State.{determine_if}
use cellixjs.Community.Members.Methods.{set_member_name}
use cellixjs.Community.Profile.{
  ProfileMember, ProfileValues, ProfileChanges, update_profile, rename, set_name, set_bio,
  set_show_email,
}
use cellixjs.Community.Profile.Laws.{profile_needs_manager}

abbrev sample_values : ProfileValues
sample_values = record {
  values = checked_values;
  nullable_email = λ s. some s;
  interests = λ xs. some xs;
}

abbrev sample_profile : ProfileMember
sample_profile = record {
  member = record {
    root = new_root;
    props = record {
      id = "m2";
      member_name = "Ann Lee";
      cybersource_customer_id = "x";
      community_id = "c1";
      accounts = [];
      role = "r1";
      custom_views = [];
    };
    visa_community = "c1";
    is_new = false;
  };
  profile = record {
    name = "Ann";
    email = "";
    bio = "";
    avatar_document_id = "";
    interests = [];
    show_interests = false;
    show_email = false;
    show_profile = true;
    show_location = false;
    show_properties = false;
  };
}

abbrev sample_changes : ProfileChanges
sample_changes = record {
  name = some "Anna";
  email = none;
  bio = some "Gardener";
  avatar_document_id = none;
  interests = none;
  show_interests = none;
  show_email = some true;
  show_profile = none;
  show_location = none;
  show_properties = none;
}

abbrev changed_profile : ProfileMember
changed_profile =
    state_after (update_profile sample_values sample_member_passport sample_changes sample_profile)

updates :
    update_profile sample_values sample_member_passport sample_changes sample_profile
    ≡ done tt changed_profile
unfolding update_profile rename set_name set_bio set_show_email set_member_name for_community
    member_community_visa member_community_permissions
updates = refl

-- A member whose role has the permission to edit the own profile, and not to manage members.
abbrev own_profile_passport : Passport
own_profile_passport =
    member_passport "u1"
      (record sample_member { role = record sample_role { can_manage_members = false } }) "c1"

refused :
    update_profile sample_values own_profile_passport sample_changes sample_profile
    ≡ thrown (permission_error "You do not have permission to update this profile") sample_profile
unfolding update_profile rename set_name set_bio set_show_email set_member_name for_community
    member_community_visa member_community_permissions
refused = refl

profile_needs_manager_example :
    (changed_profile ≡ sample_profile)
    ⊎ (determine_if sample_member_passport (λ p. p.can_manage_members) sample_profile.member ≡ true)
profile_needs_manager_example =
    profile_needs_manager sample_values sample_member_passport sample_changes sample_profile
      changed_profile refl updates
