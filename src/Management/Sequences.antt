-- ===== src/Management/Sequences.antt =====
-- The bulk operations are sequences of operations on one member, and what a repeated callback does.
use cellixjs.Base.{◌≡◌, refl, ◌∙◌, ap, arith, List, ◌++◌, String, Option, Exec, done}
use cellixjs.UnitOfWork.Transaction.{commit, run_again}
use cellixjs.Community.Members.State.{MemberProps}
use cellixjs.Management.Source.{Host, Source, Session, transaction, session_scope}
use cellixjs.Management.Single.{
  activate_in, activate_member, remove_in, remove_member, deactivate_in, deactivate_member,
}
use cellixjs.Management.Bulk.{
  attempt_each, bulk, new_batch, finished, some_result, no_error, with_state, bulk_activate_members,
  bulk_deactivate_members, bulk_remove_members,
}
use cellixjs.Management.Batches.{
  returned, refused, after_all, each_returned, attempt_each_all, in_sequence, none_done,
  some_failed,
}
use cellixjs.Management.Steady.{Steady}
use cellixjs.Management.Sessions.{Distinct, alone, one_by_one, opened-Unwritten, loop_results}
use cellixjs.Management.Loading.{activate_in-Steady, deactivate_in-Steady, remove_in-Steady}

module _ (one : String → Exec Session MemberProps) (steady : Steady one) where
  -- The batch that a transaction around the loop leaves.
  committed_batch :
      (ids : List String) (s : Source)
      → Distinct ids
      → with_state session_scope.committed
          (attempt_each one ids (with_state session_scope.opened (new_batch s)))
        ≡ record {
          state = after_all (alone one) ids s;
          results = returned (alone one) ids s;
          errors = refused (alone one) ids s;
        }
  committed_batch ids s d =
      one_by_one one steady ids (with_state session_scope.opened (new_batch s)) d
        (opened-Unwritten ids s)
      ∙ attempt_each_all (alone one) ids (new_batch s)

  some_result_of :
      (prefix : String) (ids : List String) (s : Source)
      → Distinct ids
      → finished (λ b. b.results) (bulk one (some_result prefix) commit ids (new_batch s))
        ≡ in_sequence (alone one) none_done prefix (λ rs. rs) ids s
  unfolding bulk transaction
  some_result_of prefix ids s d = ground (arith, committed_batch ids s d)

  no_error_of :
      (prefix : String) (ids : List String) (s : Source)
      → Distinct ids
      → finished (λ b. tt) (bulk one (no_error prefix) commit ids (new_batch s))
        ≡ in_sequence (alone one) some_failed prefix (λ rs. tt) ids s
  unfolding bulk transaction
  no_error_of prefix ids s d = ground (arith, committed_batch ids s d)

  -- The results of two runs of the loop, the first of which is aborted.
  results_twice :
      (ids : List String) (s : Source)
      → (attempt_each one ids (
          with_state session_scope.opened (
            with_state session_scope.aborted
              (attempt_each one ids (with_state session_scope.opened (new_batch s)))))).results
        ≡ each_returned (alone one) ids s ++ each_returned (alone one) ids s
  results_twice ids s =
      let (first, kept) =
        loop_results one steady ids (with_state session_scope.opened (new_batch s)) s refl in
      (loop_results one steady ids
        (with_state session_scope.opened (
          with_state session_scope.aborted
            (attempt_each one ids (with_state session_scope.opened (new_batch s)))))
        s kept).0
      ∙ ap (λ rs. rs ++ each_returned (alone one) ids s) first

  repeats_of :
      (prefix : String) (ids : List String) (s t : Source) (rs : List MemberProps)
      → finished
          (λ b. b.results)
          (bulk one (some_result prefix) (run_again commit) ids (new_batch s))
        ≡ done rs t
      → rs ≡ each_returned (alone one) ids s ++ each_returned (alone one) ids s
  unfolding bulk transaction
  repeats_of prefix ids s t rs h = ground (arith, results_twice ids s)

-- `bulkActivateMembers`, with ids of which none is given twice and in a transaction that the driver
-- commits at once, refuses more than a hundred ids, and else does what `activateMember` does for
-- the ids one after the other, each in a transaction of its own: it returns what those calls
-- return, and throws with the ids that they refuse only where they refuse some and return nothing.
pub bulk_activate_in_sequence :
    (host : Host) (ids : List String) (s : Source)
    → Distinct ids
    → bulk_activate_members host commit ids s
      ≡ in_sequence
          (activate_member host commit)
          none_done
          "Failed to activate all members: "
          (λ rs. rs)
          ids
          s
unfolding bulk_activate_members activate_member
bulk_activate_in_sequence host ids s d =
    some_result_of (activate_in host) (activate_in-Steady host) "Failed to activate all members: "
      ids s d

-- `bulkDeactivateMembers`, with ids of which none is given twice and in a transaction that the
-- driver commits at once, refuses more than a hundred ids, and else does what `deactivateMember`
-- does for the ids one after the other, each in a transaction of its own: it returns what those
-- calls return, and throws with the ids that they refuse only where they refuse some and return
-- nothing.
pub bulk_deactivate_in_sequence :
    (host : Host) (why : Option String) (ids : List String) (s : Source)
    → Distinct ids
    → bulk_deactivate_members host commit why ids s
      ≡ in_sequence
          (deactivate_member host commit why)
          none_done
          "Failed to deactivate all members: "
          (λ rs. rs)
          ids
          s
unfolding bulk_deactivate_members deactivate_member
bulk_deactivate_in_sequence host why ids s d =
    some_result_of (deactivate_in host why) (deactivate_in-Steady host why)
      "Failed to deactivate all members: " ids s d

-- `bulkRemoveMembers`, with ids of which none is given twice and in a transaction that the driver
-- commits at once, refuses more than a hundred ids, and else does what `removeMember` does for the
-- ids one after the other, each in a transaction of its own: it throws with the ids that they
-- refuse where they refuse some, and the other members stay removed.
pub bulk_remove-in_sequence :
    (host : Host) (why : Option String) (ids : List String) (s : Source)
    → Distinct ids
    → bulk_remove_members host commit why ids s
      ≡ in_sequence
          (remove_member host commit why)
          some_failed
          "Failed to remove member(s): "
          (λ rs. tt)
          ids
          s
unfolding bulk_remove_members remove_member
bulk_remove-in_sequence host why ids s d =
    no_error_of (remove_in host why) (remove_in-Steady host why) "Failed to remove member(s): " ids
      s d

-- Where the driver runs the callback of `bulkActivateMembers` twice before it commits, the arrays
-- hold what both runs have put into them, though the first run is aborted: a list that is returned
-- has what `activateMember` returns for each of the ids on the collection as it was, and then all
-- of it once more. The ids need not be distinct: the reads of one run do not see its writes.
pub bulk_activate_repeats :
    (host : Host) (ids : List String) (s t : Source) (rs : List MemberProps)
    → bulk_activate_members host (run_again commit) ids s ≡ done rs t
    → rs
      ≡ each_returned (activate_member host commit) ids s
        ++ each_returned (activate_member host commit) ids s
unfolding bulk_activate_members activate_member
bulk_activate_repeats host ids s t rs h =
    repeats_of (activate_in host) (activate_in-Steady host) "Failed to activate all members: " ids s
      t rs h
