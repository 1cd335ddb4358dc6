-- ===== src/Management/Bulk.antt =====
-- bulkActivateMembers, bulkDeactivateMembers and bulkRemoveMembers.
use Prim.Native.String
use cellixjs.Base.{
  Bool, true, false, String, List, [], ◌∷◌, ◌++◌, Option, Exec, Outcome, done, thrown, ◌>>◌, pure,
  throw, guard, not, ◌&&◌, plain_error, leb, length, if◌then◌else◌,
}
use cellixjs.UnitOfWork.Transaction.{Attempts}
use cellixjs.Community.Members.State.{MemberProps}
use cellixjs.Management.Source.{Host, Source, Session, Scope, session_scope, transaction}
use cellixjs.Management.Single.{activate_in, deactivate_in, remove_in}

-- The state that a callback works on or that the caller sees, and the two arrays that the callback
-- fills: they are made outside of it, so no abort empties them.
pub record Batch (S : Type 0) : Type 0 where
  pub state : S
  pub results : List MemberProps
  pub errors : List String

abbrev pub with_state : {S T : Type 0} → (S → T) → Batch S → Batch T
with_state f b = record { state = f b.state; results = b.results; errors = b.errors }

abbrev pub batch_scope : Scope (Batch Source) (Batch Session)
batch_scope = record {
  opened = with_state session_scope.opened;
  committed = with_state session_scope.committed;
  aborted = with_state session_scope.aborted;
}

-- ids.join(', ').
abbrev pub join : List String → String
join [] = ""
join (s ∷ []) = s
join (s ∷ t ∷ ss) = String.◌++◌ s (String.◌++◌ ", " (join (t ∷ ss)))

-- The `try` around one member. What it wrote before it threw stays in the session.
abbrev pub noted : {S : Type 0} → String → Batch S → Outcome S MemberProps → Batch S
noted id b (done p s) = record b { state = s; results = b.results ++ p ∷ [] }
noted id b (thrown e s) = record b { state = s; errors = b.errors ++ id ∷ [] }

unfoldable pub attempt_each :
    {S : Type 0} → (String → Exec S MemberProps) → List String → Batch S → Batch S
attempt_each one [] b = b
attempt_each one (id ∷ ids) b = attempt_each one ids (noted id b (one id b.state))

abbrev pub loop :
    {S : Type 0} → (String → Exec S MemberProps) → List String → Exec (Batch S) (Unit {0})
loop one ids b = done tt (attempt_each one ids b)

-- The arrays of one call start empty; the caller sees the data source and the results.
abbrev pub new_batch : Source → Batch Source
new_batch s = record { state = s; results = []; errors = [] }

abbrev pub finished :
    {A : Type 0} → (Batch Source → A) → Outcome (Batch Source) (Unit {0}) → Outcome Source A
finished result (done u b) = done (result b) b.state
finished result (thrown e b) = thrown e b.state

abbrev pub is_empty : {A : Type 0} → List A → Bool
is_empty [] = true
is_empty (x ∷ xs) = false

-- `if (errors.length > 0 && results.length === 0) throw ...`.
abbrev pub some_result : String → Exec (Batch Source) (Unit {0})
some_result prefix b =
    if not (is_empty b.errors) && is_empty b.results
    then throw (plain_error (String.◌++◌ prefix (join b.errors))) b
    else pure tt b

abbrev pub no_error : String → Exec (Batch Source) (Unit {0})
no_error prefix b =
    if is_empty b.errors
    then pure tt b
    else throw (plain_error (String.◌++◌ prefix (join b.errors))) b

-- The body that the three functions share: the check of the size, the loop in a transaction, and
-- the check of the arrays.
unfoldable pub bulk :
    (String → Exec Session MemberProps)
    → Exec (Batch Source) (Unit {0})
    → Attempts
    → List String
    → Exec (Batch Source) (Unit {0})
bulk one check attempts ids = do
  guard (λ _. leb (length ids) 100) (plain_error "Bulk operation exceeds maximum batch size of 100")
  transaction batch_scope attempts (loop one ids)
  check

module _ (host : Host) (attempts : Attempts) where
  unfoldable pub bulk_activate_members : List String → Exec Source (List MemberProps)
  bulk_activate_members ids s =
      finished (λ b. b.results)
        (bulk (activate_in host) (some_result "Failed to activate all members: ") attempts ids
          (new_batch s))

  unfoldable pub bulk_deactivate_members :
      Option String → List String → Exec Source (List MemberProps)
  bulk_deactivate_members reason ids s =
      finished (λ b. b.results)
        (bulk (deactivate_in host reason) (some_result "Failed to deactivate all members: ")
          attempts ids (new_batch s))

  unfoldable pub bulk_remove_members : Option String → List String → Exec Source (Unit {0})
  bulk_remove_members reason ids s =
      finished (λ b. tt)
        (bulk (remove_in host reason) (no_error "Failed to remove member(s): ") attempts ids
          (new_batch s))
