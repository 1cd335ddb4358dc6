-- ===== src/Management/Steady.antt =====
-- One callback that loads, calls a method and saves: in a session that has written other documents
-- before, it does what it does in a transaction of its own.
use cellixjs.Base.{
  ◌≡◌, refl, ◌∙◌, ap, arith, false, List, [], ◌∷◌, ◌++◌, String, Option, none, some, Exec, Outcome,
  done, thrown, ◌>>◌, and_then, state_after, inl, inr, Option-cases, find, ◌==◌, modify, pure,
}
use cellixjs.Community.Members.State.{Member, MemberProps}
use cellixjs.Management.Source.{
  Host, Source, Session, MemberEvent, answered, dispatch_all, save, session_scope, ended,
  doc_has_id, write_document,
}
use cellixjs.Management.Saving.{Keeps, dispatch_all_writes_nothing}
use cellixjs.Management.Documents.{others_stay_written}

-- A session that starts when this one has been committed.
abbrev pub restarted : Session → Session
restarted t = session_scope.opened (session_scope.committed t)

module _ {A : Type 0} where
  abbrev pub settled : Outcome Session A → Outcome Source A
  settled (done a t) = done a (session_scope.committed t)
  settled (thrown e t) = thrown e (session_scope.committed t)

  abbrev pub answer : {S : Type 0} → Outcome S A → Option A
  answer (done a t) = some a
  answer (thrown e t) = none

  abbrev restarted_outcome : Outcome Session A → Outcome Session A
  restarted_outcome (done a t) = done a (restarted t)
  restarted_outcome (thrown e t) = thrown e (restarted t)

-- A callback of an id that reads the collection only for the document with this id, and writes only
-- this document.
pub record Steady (one : String → Exec Session MemberProps) : Type 0 where
  pub keeps : (id : String) → Keeps (one id)
  pub same_alone :
      (id : String) (t : Session)
      → find (doc_has_id id) t.documents ≡ find (doc_has_id id) t.source.members
      → ended session_scope (one id (restarted t)) ≡ settled (one id t)
  pub others_stay :
      (id other : String) (t : Session)
      → (id == other) ≡ false
      → find (doc_has_id other) (state_after (one id t)).documents
        ≡ find (doc_has_id other) t.documents
  pub same_answer :
      (id : String) (t u : Session)
      → t.source.members ≡ u.source.members
      → answer (one id t) ≡ answer (one id u)

dispatch_restarted :
    (host : Host) (events : List MemberEvent) (t : Session)
    → dispatch_all host events (restarted t) ≡ restarted_outcome (dispatch_all host events t)
unfolding dispatch_all
dispatch_restarted host [] t = refl
dispatch_restarted host (event ∷ events) t = elim (Option-cases (host.dispatch event)) [
  | inl e ↦ ground (
    arith,
    e,
    dispatch_restarted host events
        (record t { source = record t.source { dispatched = t.source.dispatched ++ event ∷ [] } }),
  )
  | inr (x, e) ↦ ground (arith, e)
]

dispatch_answer :
    (host : Host) (events : List MemberEvent) (t u : Session)
    → answer (dispatch_all host events t) ≡ answer (dispatch_all host events u)
unfolding dispatch_all
dispatch_answer host [] t u = refl
dispatch_answer host (event ∷ events) t u = elim (Option-cases (host.dispatch event)) [
  | inl e ↦ ground (
    arith,
    e,
    dispatch_answer host events
        (record t { source = record t.source { dispatched = t.source.dispatched ++ event ∷ [] } })
        (record u { source = record u.source { dispatched = u.source.dispatched ++ event ∷ [] } }),
  )
  | inr (x, e) ↦ ground (arith, e)
]

module _ (host : Host) (m : Member) where
  -- `save`, when the events have been handled.
  abbrev writing : Unit {0} → Exec Session MemberProps
  writing x = do
    answered (host.write m.props)
    modify (λ s. record s { documents = write_document m s.documents })
    pure m.props

  pub save_alone :
      (t : Session) → ended session_scope (save host m (restarted t)) ≡ settled (save host m t)
  unfolding save
  save_alone t =
      ap (λ o. ended session_scope (and_then o writing))
        (dispatch_restarted host m.root.domain_events t)
      ∙ go (dispatch_all host m.root.domain_events t)
    where
      go :
          (o : Outcome Session (Unit {0}))
          → ended session_scope (and_then (restarted_outcome o) writing)
            ≡ settled (and_then o writing)
      go (done x u) = elim (Option-cases (host.write m.props)) [
        | inl e ↦ ground (arith, e)
        | inr (y, e) ↦ ground (arith, e)
      ]
      go (thrown e u) = refl

  pub save_others :
      (other : String) (t : Session)
      → (m.props.id == other) ≡ false
      → find (doc_has_id other) (state_after (save host m t)).documents
        ≡ find (doc_has_id other) t.documents
  unfolding save
  save_others other t h =
      go (dispatch_all host m.root.domain_events t)
        (dispatch_all_writes_nothing host m.root.domain_events t).1
    where
      go :
          (o : Outcome Session (Unit {0}))
          → (state_after o).documents ≡ t.documents
          → find (doc_has_id other) (state_after (and_then o writing)).documents
            ≡ find (doc_has_id other) t.documents
      go (done x u) k = elim (Option-cases (host.write m.props)) [
        | inl e ↦ ground (arith, e, k, others_stay_written m other u.documents h)
        | inr (y, e) ↦ ground (arith, e, k)
      ]
      go (thrown e u) k = ap (find (doc_has_id other)) k

  pub answer-save : (t u : Session) → answer (save host m t) ≡ answer (save host m u)
  unfolding save
  answer-save t u =
      go (dispatch_all host m.root.domain_events t) (dispatch_all host m.root.domain_events u)
        (dispatch_answer host m.root.domain_events t u)
    where
      go :
          (o p : Outcome Session (Unit {0}))
          → answer o ≡ answer p
          → answer (and_then o writing) ≡ answer (and_then p writing)
      go (done x v) (done y w) h = elim (Option-cases (host.write m.props)) [
        | inl e ↦ ground (arith, e)
        | inr (z, e) ↦ ground (arith, e)
      ]
      go (done x v) (thrown e w) h = ground arith
      go (thrown e v) (done y w) h = ground arith
      go (thrown e v) (thrown x w) h = refl
