-- ===== src/Management/Saving.antt =====
-- What the steps of the callbacks do to the collection that everyone reads, which only a commit may
-- change.
use cellixjs.Base.{
  ◌≡◌, refl, ◌∙◌, ap, arith, Bool, true, false, List, [], ◌∷◌, String, Option, none, some, Exec,
  Outcome, done, thrown, ◌>>=◌, and_then, state_after, inl, inr, Option-cases, ◌++◌, Error, guard,
  find,
}
use cellixjs.UnitOfWork.Transaction.{Attempts, commit, run_again, give_up}
use cellixjs.Community.Members.State.{Member, MemberProps}
use cellixjs.Management.Source.{
  Host, Source, Session, MemberEvent, answered, dispatch_all, save, session_scope, transaction,
  ended, get_by_id, found, changed_by, call, doc_has_id,
}

-- A step that only reads.
abbrev pub Reads : {S A : Type 0} → Exec S A → Type 0
Reads {S} f = (s : S) → state_after (f s) ≡ s

module _ {A : Type 0} where
  -- What the session's callback writes is not in the collection yet, whether it returned or threw.
  abbrev pub Keeps : Exec Session A → Type 0
  Keeps f = (s : Session) → (state_after (f s)).source.members ≡ s.source.members

  abbrev pub Kept : Source → Outcome Source A → Type 0
  Kept s (done a t) = Unit {0}
  Kept s (thrown e t) = t.members ≡ s.members

  -- Where it throws, the collection is as it was.
  abbrev pub IsAtomic : Exec Source A → Type 0
  IsAtomic f = (s : Source) → Kept s (f s)

  pub Reads-Keeps : (f : Exec Session A) → Reads f → Keeps f
  Reads-Keeps f r s = ap (λ (t : Session). t.source.members) (r s)

module _ {A B : Type 0} where
  pub Keeps-then :
      (f : Exec Session A) (g : A → Exec Session B)
      → Keeps f
      → ((a : A) → Keeps (g a))
      → Keeps (f >>= g)
  Keeps-then f g h k s = go (f s) (h s)
    where
      go :
          (o : Outcome Session A)
          → (state_after o).source.members ≡ s.source.members
          → (state_after (and_then o g)).source.members ≡ s.source.members
      go (done a t) e = k a t ∙ e
      go (thrown x t) e = e

  -- A step that reads, and then steps that keep the collection.
  pub Reads-then :
      (f : Exec Session A) (g : A → Exec Session B)
      → Reads f
      → ((a : A) → Keeps (g a))
      → Keeps (f >>= g)
  Reads-then f g r k = Keeps-then f g (Reads-Keeps f r) k

  pub IsAtomic-then :
      (f : Exec Source A) (g : A → Exec Source B)
      → Reads f
      → ((a : A) → IsAtomic (g a))
      → IsAtomic (f >>= g)
  IsAtomic-then f g r k s = go (f s) (r s)
    where
      kept : (t : Source) (o : Outcome Source B) → t ≡ s → Kept t o → Kept s o
      kept t (done b u) h e = tt
      kept t (thrown x u) h e = e ∙ ap (λ (v : Source). v.members) h

      go : (o : Outcome Source A) → state_after o ≡ s → Kept s (and_then o g)
      go (done a t) h = kept t (g a t) h (k a t)
      go (thrown x t) h = ap (λ (v : Source). v.members) h

pub answered-Reads : (o : Option Error) → Reads (answered o)
answered-Reads none s = refl
answered-Reads (some e) s = refl

-- Neither the collection nor the session's writes change while the events are handled.
pub dispatch_all_writes_nothing :
    (host : Host) (events : List MemberEvent) (s : Session)
    → ((state_after (dispatch_all host events s)).source.members ≡ s.source.members)
      × ((state_after (dispatch_all host events s)).documents ≡ s.documents)
unfolding dispatch_all
dispatch_all_writes_nothing host [] s = (refl, refl)
dispatch_all_writes_nothing host (event ∷ events) s = elim (Option-cases (host.dispatch event)) [
  | inl e ↦ ground (
    arith,
    e,
    dispatch_all_writes_nothing host events
        (record s { source = record s.source { dispatched = s.source.dispatched ++ event ∷ [] } }),
  )
  | inr (x, e) ↦ ground (arith, e)
]

pub save-Keeps : (host : Host) (m : Member) → Keeps (save host m)
unfolding save
save-Keeps host m =
    Keeps-then (dispatch_all host m.root.domain_events) _
      (λ s. (dispatch_all_writes_nothing host m.root.domain_events s).0)
      (λ u.
        Reads-then (answered (host.write m.props)) _ (answered-Reads (host.write m.props))
          (λ v s. refl))

found-Reads : (id : String) (o : Option MemberProps) → Reads (found id o)
found-Reads id none s = refl
found-Reads id (some p) s = refl

pub get_by_id-Reads : (id : String) → Reads (get_by_id id)
unfolding get_by_id
get_by_id-Reads id s = found-Reads id (find (doc_has_id id) s.source.members) s

pub changed_by-Reads : (o : Outcome Member (Unit {0})) → Reads (changed_by o)
changed_by-Reads (done u m) s = refl
changed_by-Reads (thrown e m) s = refl

pub guard-Reads : {S : Type 0} (test : S → Bool) (e : Error) → Reads (guard test e)
guard-Reads {S} test e s = go (test s)
  where
    go :
        (b : Bool)
        → state_after {S = S} {A = Unit {0}} (elim b [ true ↦ done tt s | false ↦ thrown e s ]) ≡ s
    go true = refl
    go false = refl

-- The end that the callbacks share.
pub call_and_save-Keeps :
    (host : Host) (method : Exec Member (Unit {0})) (m : Member)
    → Keeps (call method m >>= (λ u. save host u))
call_and_save-Keeps host method m =
    Reads-then (call method m) _ (changed_by-Reads (method m)) (λ u. save-Keeps host u)

pub load_call-save-Keeps :
    (host : Host) (method : Exec Member (Unit {0})) (id : String)
    → Keeps (get_by_id id >>= (λ m. call method m >>= (λ u. save host u)))
load_call-save-Keeps host method id =
    Reads-then (get_by_id id) _ (get_by_id-Reads id) (call_and_save-Keeps host method)

module _ {A : Type 0} where
  -- With a callback that leaves the writing to the session, a transaction that throws leaves the
  -- collection as it was, whatever the driver decides.
  pub transaction-IsAtomic :
      (attempts : Attempts) (f : Exec Session A)
      → Keeps f
      → IsAtomic (transaction session_scope attempts f)
  unfolding transaction
  transaction-IsAtomic commit f k s = go (f (session_scope.opened s)) (k (session_scope.opened s))
    where
      go :
          (o : Outcome Session A)
          → (state_after o).source.members ≡ s.members
          → Kept s (ended session_scope o)
      go (done a t) h = tt
      go (thrown e t) h = h
  transaction-IsAtomic (run_again later) f k s =
      again (transaction session_scope later f _)
        (transaction-IsAtomic later f k (state_after (f (session_scope.opened s))).source)
    where
      again :
          (o : Outcome Source A)
          → Kept (state_after (f (session_scope.opened s))).source o
          → Kept s o
      again (done a t) h = tt
      again (thrown e t) h = h ∙ k (session_scope.opened s)
  transaction-IsAtomic (give_up e) f k s = k (session_scope.opened s)
