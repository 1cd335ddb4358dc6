-- ===== src/Management/Tests.antt =====
-- The management of members at concrete inputs.
use cellixjs.Base.{
  ◌≡◌, refl, arith, Bool, true, false, List, [], ◌∷◌, String, Option, none, some, done, find, any,
  ◌==◌, state_after, if◌then◌else◌, permission_error,
}
use cellixjs.Samples.{checked_values, checked_values_laws, sample_member_passport}
use cellixjs.Iam.Visas.{guest_passport}
use cellixjs.Iam.Community.{for_community, member_community_visa, member_community_permissions}
use cellixjs.UnitOfWork.Transaction.{commit, run_again}
use cellixjs.Community.Members.State.{
  MemberProps, MemberAccount, member_name_rule, manages_members, with_code,
}
use cellixjs.Community.Members.Methods.{
  request_activate_member, request_remove_member, set_role, get_new_instance, set_member_name,
  set_community,
}
use cellixjs.Management.Source.{
  Host, Source, EndUser, EndUserRole, doc_has_id, get_by_id, save, dispatch_all, transaction,
  put_document,
}
use cellixjs.Management.Single.{
  activate_in, activate_member, remove_in, remove_member, update_member_role, change_role_in,
}
use cellixjs.Management.Users.{create_member, create_in, new_member, has_name}
use cellixjs.Management.Effects.{
  activate, create_account, carry_out, failed_operation_keeps_members,
}
use cellixjs.Management.Activated.{FirstReplaced, activate_member_returns}
use cellixjs.Management.Written.{remove_member_deletes}
use cellixjs.Management.Lookups.{FindsUsers}
use cellixjs.Management.Steps.{Fresh}
use cellixjs.Management.Finding.{AllApart}
use cellixjs.Management.Invariant.{carry_out-AllApart}
use cellixjs.Management.Created.{create_member_returns}

abbrev account_of : String → String → String → MemberAccount
account_of id user code = record {
  id = id;
  first_name = "Ann";
  last_name = "Lee";
  user = user;
  status_code = code;
  created_by = user;
}

abbrev document : String → String → List MemberAccount → MemberProps
document id name accounts = record {
  id = id;
  member_name = name;
  cybersource_customer_id = "x";
  community_id = "c1";
  accounts = accounts;
  role = "r1";
  custom_views = [];
}

abbrev sample_end_user : String → Option EndUser
sample_end_user id =
    some
      (record { id = id; rest_of_name = none; last_name = some "Lee"; display_name = some "Ann" })

abbrev sample_roles : String → Option EndUserRole
sample_roles id = if id == "r2" then some (record { id = "r2"; community_id = "c1" }) else none

abbrev pub sample_host : Host
sample_host = record {
  passport = sample_member_passport;
  values = checked_values;
  dispatch = λ event. none;
  write = λ p. none;
  end_user = sample_end_user;
  role = sample_roles;
  trim = λ s. s;
}

abbrev pub ann_waits : MemberProps
ann_waits = document "m1" "Ann" (account_of "a1" "u1" "CREATED" ∷ [])

abbrev pub bob : MemberProps
bob = document "m2" "Bob" (account_of "a2" "u2" "ACCEPTED" ∷ [])

abbrev pub sample_source : Source
sample_source = record { members = ann_waits ∷ bob ∷ []; dispatched = [] }

failed_operation_keeps_members_example :
    (state_after (
      carry_out
        (record sample_host { passport = guest_passport })
        commit
        (activate "m1")
        sample_source)).members
    ≡ sample_source.members
unfolding carry_out activate_member activate_in transaction get_by_id request_activate_member
    for_community
failed_operation_keeps_members_example =
    failed_operation_keeps_members (record sample_host { passport = guest_passport }) commit
      (activate "m1") sample_source sample_source (permission_error "Cannot activate member") refl

abbrev pub activated_ann : MemberProps
activated_ann = document "m1" "Ann" (account_of "a1" "u1" "ACCEPTED" ∷ [])

abbrev after_activation : Source
after_activation = state_after (activate_member sample_host (run_again commit) "m1" sample_source)

activates :
    activate_member sample_host (run_again commit) "m1" sample_source
    ≡ done activated_ann after_activation
unfolding activate_member activate_in transaction get_by_id save dispatch_all
    request_activate_member for_community member_community_visa member_community_permissions
activates = refl

activate_member_returns_example :
    (p : MemberProps) × ((find (doc_has_id "m1") sample_source.members ≡ some p)
      × ((for_community sample_member_passport p.community_id manages_members ≡ true)
          × ((a : MemberAccount) × (FirstReplaced p.accounts activated_ann.accounts a
                  (with_code "ACCEPTED" a)
                × ((activated_ann ≡ record p { accounts = activated_ann.accounts })
                    × ((find (doc_has_id "m1") after_activation.members ≡ some activated_ann)
                        × ((other : String)
                            → ("m1" == other) ≡ false
                            → find (doc_has_id other) after_activation.members
                              ≡ find (doc_has_id other) sample_source.members)))))))
activate_member_returns_example =
    activate_member_returns sample_host checked_values_laws (run_again commit) "m1" sample_source
      after_activation activated_ann activates

abbrev after_removal : Source
after_removal = state_after (remove_member sample_host (run_again commit) none "m1" sample_source)

removes :
    remove_member sample_host (run_again commit) none "m1" sample_source
    ≡ done ann_waits after_removal
unfolding remove_member remove_in transaction get_by_id save dispatch_all request_remove_member
    for_community member_community_visa member_community_permissions
removes = refl

remove_member_deletes_example :
    (find (doc_has_id "m1") after_removal.members ≡ none)
    × ((other : String)
        → (other == "m1") ≡ false
        → find (doc_has_id other) after_removal.members
          ≡ find (doc_has_id other) sample_source.members)
remove_member_deletes_example =
    remove_member_deletes sample_host (run_again commit) none "m1" sample_source after_removal
      ann_waits (refl, (refl, tt)) removes

abbrev in_role : MemberProps
in_role = record ann_waits { role = "r2" }

abbrev after_role : Source
after_role = record sample_source { members = in_role ∷ bob ∷ [] }

changes_role :
    update_member_role sample_host commit "m1" "r2" sample_source ≡ done in_role after_role
unfolding update_member_role change_role_in transaction get_by_id save dispatch_all set_role
    for_community member_community_visa member_community_permissions
changes_role = refl

users_found : FindsUsers sample_host
users_found id u h = ground arith

Fresh-account :
    Fresh (create_account (account_of "a3" "" "CREATED") "m1" "u2") sample_source.members
Fresh-account p h = ground arith

carry_out-AllApart_example :
    AllApart
      (state_after (
        carry_out sample_host commit
          (create_account (account_of "a3" "" "CREATED") "m1" "u2")
          sample_source)).members
carry_out-AllApart_example =
    carry_out-AllApart sample_host users_found commit
      (create_account (account_of "a3" "" "CREATED") "m1" "u2") sample_source Fresh-account
      ((refl, (refl, tt)), ((refl, (refl, tt)), tt))

abbrev community_roles : String → List (EndUserRole × Bool)
community_roles id = (record { id = "r1"; community_id = id }, true) ∷ []

abbrev carol : MemberProps
carol = document "m3" "Carol" []

creates :
    create_member sample_host community_roles commit carol "Carol" "c1" sample_source
    ≡ done carol (record sample_source { members = ann_waits ∷ bob ∷ carol ∷ [] })
unfolding create_member create_in transaction save dispatch_all new_member get_new_instance
    set_member_name set_community set_role for_community member_community_visa
    member_community_permissions
creates = refl

create_member_returns_example :
    (any (has_name "Carol" "c1") sample_source.members ≡ false)
    × ((stored : String) × ((r : EndUserRole) × (((is_default : Bool) × (find
                  (λ x. x.1)
                  (community_roles "c1")
                ≡ some (r, is_default)))
            × ((checked_values.vo_string member_name_rule "Carol" ≡ some stored)
                × ((carol ≡ record carol { member_name = stored; community_id = "c1"; role = r.id })
                    × (ann_waits ∷ bob ∷ carol ∷ [] ≡ put_document carol sample_source.members))))))
create_member_returns_example =
    create_member_returns sample_host community_roles commit carol "Carol" "c1" sample_source
      (record sample_source { members = ann_waits ∷ bob ∷ carol ∷ [] }) carol creates
