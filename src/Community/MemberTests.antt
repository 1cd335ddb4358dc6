-- ===== src/Community/MemberTests.antt =====
-- Members and the search at concrete inputs.
use cellixjs.Base.{
  ◌≤◌, true, false, String, List, [], ◌∷◌, ◌≡◌, ◌≢◌, ◌↔◌, refl, arith, none, some, done,
  state_after, suc, eq_iff, ◌==◌,
}
use cellixjs.Samples.{
  checked_values, checked_values_laws, sample_member, sample_member_passport, sample_staff_passport,
}
use cellixjs.Seedwork.Aggregate.{new_root}
use cellixjs.Iam.Visas.{Passport, guest_passport}
use cellixjs.Iam.Community.{for_community, member_community_visa, member_community_permissions}
use cellixjs.Community.Members.State.{
  Member, MemberAccount, activated_props, is_active_member, is_accepted, awaits_activation,
}
use cellixjs.Community.Members.Methods.{
  Command, activate, deactivate, status_code_to, new_account, run, request_activate_member,
  request_deactivate_member,
}
use cellixjs.Community.Members.Lifecycle.{
  changed, count, activated_is_active, deactivated_may_be_active,
}
use cellixjs.Community.Members.History.{all_codes, run-all_codes}
use cellixjs.Community.Search.{
  Searches, MemberSearchSpec, Criteria, Candidate, active, create, matches, to_query_criteria,
  search_text, search_rule,
}
use cellixjs.Community.Search.Laws.{
  criteria_of, KeepsValues, create-to_query_criteria, Satisfies, matches_iff,
}

abbrev account : String → String → MemberAccount
account id code = record {
  id = id;
  first_name = "Ann";
  last_name = "Lee";
  user = "u1";
  status_code = code;
  created_by = "u1";
}

abbrev with_accounts : List MemberAccount → Member
with_accounts accounts = record {
  root = new_root;
  props = record {
    id = "m2";
    member_name = "Ann Lee";
    cybersource_customer_id = "x";
    community_id = "c1";
    accounts = accounts;
    role = "r1";
    custom_views = [];
  };
  visa_community = "c1";
  is_new = false;
}

abbrev invited : Member
invited = with_accounts (account "a1" "CREATED" ∷ account "a2" "ACCEPTED" ∷ [])

abbrev both_accepted : Member
both_accepted = with_accounts (account "a1" "ACCEPTED" ∷ account "a2" "ACCEPTED" ∷ [])

abbrev after_activation : Member
after_activation =
    changed awaits_activation "ACCEPTED" "MemberActivatedEvent" (activated_props "m2" "c1") invited

activates :
    request_activate_member checked_values sample_member_passport invited ≡ done tt after_activation
unfolding request_activate_member for_community member_community_visa member_community_permissions
activates = refl

activated_is_active_example :
    (is_active_member after_activation ≡ true)
    × (count is_accepted after_activation.props.accounts
        ≡ suc (count is_accepted invited.props.accounts))
activated_is_active_example =
    activated_is_active checked_values checked_values_laws sample_member_passport invited
      after_activation activates

abbrev after_deactivation : Member
after_deactivation =
    state_after
      (request_deactivate_member checked_values sample_member_passport none none both_accepted)

deactivates :
    request_deactivate_member checked_values sample_member_passport none none both_accepted
    ≡ done tt after_deactivation
unfolding request_deactivate_member for_community member_community_visa member_community_permissions
deactivates = refl

deactivated_may_be_active_example :
    (suc (count is_accepted after_deactivation.props.accounts)
      ≡ count is_accepted both_accepted.props.accounts)
    × ((is_active_member after_deactivation ≡ true)
        ↔ (2 ≤ count is_accepted both_accepted.props.accounts))
deactivated_may_be_active_example =
    deactivated_may_be_active checked_values checked_values_laws sample_member_passport
      both_accepted after_deactivation none none deactivates

abbrev sample_calls : List (Passport × Command)
sample_calls =
    (sample_member_passport, activate)
    ∷ (guest_passport, deactivate none none)
    ∷ (sample_staff_passport, status_code_to "a2" "GONE")
    ∷ (sample_member_passport, new_account (account "a3" "CREATED"))
    ∷ []

run-all_codes_example : all_codes (run checked_values sample_calls invited).props.accounts ≡ true
run-all_codes_example =
    run-all_codes checked_values checked_values_laws sample_calls invited
      (tt, (tt, (tt, (refl, tt)))) refl

abbrev elsewhere : Member
elsewhere = record invited { visa_community = "c2" }

other_community : sample_member.community_id ≢ elsewhere.visa_community
other_community h = ground (arith, eq_iff "c1" "c2")

abbrev sample_searches : Searches
sample_searches = record {
  values = checked_values;
  to_lower_case = λ s. s;
  contains = λ text term. text == term;
}

sample_searches-KeepsValues : KeepsValues checked_values
sample_searches-KeepsValues = record { again = λ raw value h. again raw value h; empty = refl }
  where
    again :
        (raw value : String)
        → checked_values.vo_string search_rule raw ≡ some value
        → checked_values.vo_string search_rule value ≡ some value
    again raw value h = ground arith

abbrev sample_criteria : Criteria
sample_criteria = record { name = some "Ann"; email = none; status = some active; role = none }

abbrev sample_spec : MemberSearchSpec
sample_spec = record { name = "Ann"; email = ""; status = active; role = "all" }

made : create sample_searches sample_criteria ≡ some sample_spec
unfolding create search_text
made = refl

create-to_query_criteria_example :
    create sample_searches (criteria_of (to_query_criteria sample_spec)) ≡ some sample_spec
create-to_query_criteria_example =
    create-to_query_criteria sample_searches sample_searches-KeepsValues sample_criteria sample_spec
      made

abbrev ann : Candidate
ann = record {
  member_name = "Ann";
  profile_name = none;
  accounts = record { email_address = "ann@example.org"; is_active = true } ∷ [];
  role_id = "r1";
}

matches_iff_example :
    matches sample_searches sample_spec ann ≡ true ↔ Satisfies sample_searches sample_spec ann
matches_iff_example = matches_iff sample_searches sample_spec ann
