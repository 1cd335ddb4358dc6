-- ===== src/Management/BatchTests.antt =====
-- The bulk operations at concrete inputs.
use cellixjs.Base.{
  ◌≡◌, refl, false, List, [], ◌∷◌, ◌++◌, none, done, Outcome, state_after, succeeds,
}
use cellixjs.Iam.Community.{for_community, member_community_visa, member_community_permissions}
use cellixjs.UnitOfWork.Transaction.{commit, run_again}
use cellixjs.Community.Members.State.{MemberProps}
use cellixjs.Community.Members.Methods.{request_activate_member, request_remove_member}
use cellixjs.Management.Source.{Source, get_by_id, save, dispatch_all, transaction}
use cellixjs.Management.Single.{activate_in, activate_member, remove_in, remove_member}
use cellixjs.Management.Bulk.{bulk, attempt_each, bulk_activate_members, bulk_remove_members}
use cellixjs.Management.Batches.{in_sequence, some_failed, none_done, each_returned}
use cellixjs.Management.Sequences.{
  bulk_activate_in_sequence, bulk_remove-in_sequence, bulk_activate_repeats,
}
use cellixjs.Management.Tests.{sample_host, activated_ann, bob, sample_source}

bulk_activate_in_sequence_example :
    bulk_activate_members sample_host commit ("m1" ∷ "m9" ∷ []) sample_source
    ≡ in_sequence
        (activate_member sample_host commit)
        none_done
        "Failed to activate all members: "
        (λ rs. rs)
        ("m1" ∷ "m9" ∷ [])
        sample_source
bulk_activate_in_sequence_example =
    bulk_activate_in_sequence sample_host ("m1" ∷ "m9" ∷ []) sample_source (refl, (refl, tt))

bulk_remove-in_sequence_example :
    bulk_remove_members sample_host commit none ("m1" ∷ "m9" ∷ []) sample_source
    ≡ in_sequence
        (remove_member sample_host commit none)
        some_failed
        "Failed to remove member(s): "
        (λ rs. tt)
        ("m1" ∷ "m9" ∷ [])
        sample_source
bulk_remove-in_sequence_example =
    bulk_remove-in_sequence sample_host none ("m1" ∷ "m9" ∷ []) sample_source (refl, (refl, tt))

-- The ids "m1" and "m9", of which only the first is one of a member: the call throws, and the first
-- member is gone.
removed_and_thrown :
    (succeeds (bulk_remove_members sample_host commit none ("m1" ∷ "m9" ∷ []) sample_source)
      ≡ false)
    × ((state_after
          (bulk_remove_members sample_host commit none ("m1" ∷ "m9" ∷ []) sample_source)).members
        ≡ bob ∷ [])
unfolding bulk_remove_members bulk attempt_each remove_member remove_in transaction get_by_id save
    dispatch_all request_remove_member for_community member_community_visa
    member_community_permissions
removed_and_thrown = (refl, refl)

abbrev twice_activated : Outcome Source (List MemberProps)
twice_activated = bulk_activate_members sample_host (run_again commit) ("m1" ∷ []) sample_source

runs_twice :
    twice_activated ≡ done (activated_ann ∷ activated_ann ∷ []) (state_after twice_activated)
unfolding bulk_activate_members bulk attempt_each activate_in transaction get_by_id save
    dispatch_all request_activate_member for_community member_community_visa
    member_community_permissions
runs_twice = refl

bulk_activate_repeats_example :
    activated_ann ∷ activated_ann ∷ []
    ≡ each_returned (activate_member sample_host commit) ("m1" ∷ []) sample_source
      ++ each_returned (activate_member sample_host commit) ("m1" ∷ []) sample_source
bulk_activate_repeats_example =
    bulk_activate_repeats sample_host ("m1" ∷ []) sample_source (state_after twice_activated)
      (activated_ann ∷ activated_ann ∷ []) runs_twice

-- The same id twice: the second read does not see that the first has activated the member, where a
-- second `activateMember` would be refused.
given_twice :
    bulk_activate_members sample_host commit ("m1" ∷ "m1" ∷ []) sample_source
    ≡ done
        (activated_ann ∷ activated_ann ∷ [])
        (state_after (bulk_activate_members sample_host commit ("m1" ∷ "m1" ∷ []) sample_source))
unfolding bulk_activate_members bulk attempt_each activate_in transaction get_by_id save
    dispatch_all request_activate_member for_community member_community_visa
    member_community_permissions
given_twice = refl
