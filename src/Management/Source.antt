-- ===== src/Management/Source.antt =====
-- The data source of members: the documents of the collection, the repository's `getById` and
-- `save`, and the transaction that the unit of work runs a callback in. The reads do not name the
-- session of the transaction, so that they see what is committed; the writes do.
use cellixjs.Base.{
  Bool, false, String, List, [], ◌∷◌, ◌++◌, Option, none, some, ◌==◌, Exec, Outcome, Error, done,
  thrown, ◌>>◌, pure, throw, modify, plain_error, find, if◌then◌else◌, state_after,
}
use Prim.Native.String
use cellixjs.ValueObjects.{ValueObjects}
use cellixjs.Seedwork.Aggregate.{CustomDomainEvent, new_root}
use cellixjs.Iam.Visas.{Passport}
use cellixjs.UnitOfWork.Transaction.{Attempts, commit, run_again, give_up}
use cellixjs.Community.Members.State.{Member, MemberProps, MemberPayload}

abbrev pub MemberEvent : Type 0
MemberEvent = CustomDomainEvent MemberPayload

-- What the names of a user's profile are read from.
pub record EndUser : Type 0 where
  pub id : String
  pub rest_of_name : Option String
  pub last_name : Option String
  pub display_name : Option String

pub record EndUserRole : Type 0 where
  pub id : String
  pub community_id : String

-- Who calls, the value objects, what the handlers of domain events and the database answer (`some e`
-- is an exception), the users and roles that there are, and JavaScript's trim.
pub record Host : Type 0 where
  pub passport : Passport
  pub values : ValueObjects
  pub dispatch : MemberEvent → Option Error
  pub write : MemberProps → Option Error
  pub end_user : String → Option EndUser
  pub role : String → Option EndUserRole
  pub trim : String → String

-- The collection of members, and the domain events that were dispatched so far.
pub record Source : Type 0 where
  pub members : List MemberProps
  pub dispatched : List MemberEvent

-- What a callback works on: the data source as every reader sees it, and the documents as they will
-- be if the session commits, the session's own writes included.
pub record Session : Type 0 where
  pub source : Source
  pub documents : List MemberProps

abbrev pub doc_has_id : String → MemberProps → Bool
doc_has_id id p = p.id == id

-- Replace the document with that id, or insert it.
abbrev pub put_document : MemberProps → List MemberProps → List MemberProps
put_document p [] = p ∷ []
put_document p (q ∷ docs) = if q.id == p.id then p ∷ docs else q ∷ put_document p docs

abbrev pub delete_document : String → List MemberProps → List MemberProps
delete_document id [] = []
delete_document id (q ∷ docs) = if q.id == id then docs else q ∷ delete_document id docs

-- toDomain: a new object of a document.
abbrev pub to_domain : MemberProps → Member
to_domain p = record { root = new_root; props = p; visa_community = p.community_id; is_new = false }

abbrev pub found : String → Option MemberProps → Exec Session Member
found id none = throw (plain_error (String.◌++◌ "Member with id " (String.◌++◌ id " not found")))
found id (some p) = pure (to_domain p)

unfoldable pub get_by_id : String → Exec Session Member
get_by_id id s = found id (find (doc_has_id id) s.source.members) s

-- A call on an object that the callback holds: the object it leaves, or its exception.
abbrev pub changed_by : Outcome Member (Unit {0}) → Exec Session Member
changed_by (done a u) = pure u
changed_by (thrown e u) = throw e

abbrev pub call : Exec Member (Unit {0}) → Member → Exec Session Member
call method m = changed_by (method m)

abbrev pub answered : Option Error → Exec Session (Unit {0})
answered none s = done tt s
answered (some e) s = thrown e s

unfoldable pub dispatch_all : Host → List MemberEvent → Exec Session (Unit {0})
dispatch_all host [] = pure tt
dispatch_all host (event ∷ events) = do
  modify (λ s. record s {
    source = record s.source { dispatched = s.source.dispatched ++ event ∷ [] };
  })
  answered (host.dispatch event)
  dispatch_all host events

abbrev pub write_document : Member → List MemberProps → List MemberProps
write_document m docs =
    if m.root.is_deleted then delete_document m.props.id docs else put_document m.props docs

-- `save`: the domain events go to their handlers first, and what is written is written in the
-- session.
unfoldable pub save : Host → Member → Exec Session MemberProps
save host m = do
  dispatch_all host m.root.domain_events
  answered (host.write m.props)
  modify (λ s. record s { documents = write_document m s.documents })
  pure m.props

-- How a transaction begins on a state, and the two ways in which it ends.
pub record Scope (S T : Type 0) : Type 0 where
  pub opened : S → T
  pub committed : T → S
  pub aborted : T → S

-- A session starts from the documents that are there; a commit makes its writes the documents, and
-- an abort throws them away.
abbrev pub session_scope : Scope Source Session
session_scope = record {
  opened = λ s. record { source = s; documents = s.members };
  committed = λ t. record t.source { members = t.documents };
  aborted = λ t. t.source;
}

abbrev pub ended : {S T A : Type 0} → Scope S T → Outcome T A → Outcome S A
ended scope (done a t) = done a (scope.committed t)
ended scope (thrown e t) = thrown e (scope.aborted t)

-- withScopedTransaction, with the driver's decisions: an attempt that the driver runs again or
-- gives up is aborted.
unfoldable pub transaction : {S T A : Type 0} → Scope S T → Attempts → Exec T A → Exec S A
transaction scope commit func s = ended scope (func (scope.opened s))
transaction scope (run_again later) func s =
    transaction scope later func (scope.aborted (state_after (func (scope.opened s))))
transaction scope (give_up e) func s =
    thrown e (scope.aborted (state_after (func (scope.opened s))))
