-- ===== src/Management/Returns.antt =====
-- What a callback went through that returned: the steps, and what `save` wrote.
use cellixjs.Base.{
  ◌≡◌, refl, ◌∙◌, sym, ap, arith, Bool, true, String, some, Exec, Outcome, done, thrown, ◌>>=◌,
  and_then, state_after, inl, inr, Option-cases, Error, guard, find,
}
use cellixjs.UnitOfWork.Transaction.{Attempts, commit, run_again, give_up}
use cellixjs.Community.Members.State.{Member, MemberProps}
use cellixjs.Management.Source.{
  Host, Source, answered, dispatch_all, save, write_document, session_scope, transaction, ended,
  Session, get_by_id, to_domain, call, changed_by, doc_has_id,
}
use cellixjs.Management.Saving.{Reads, answered-Reads, dispatch_all_writes_nothing, Keeps}

-- What a chain that returned went through.
pub bind_done :
    {S A B : Type 0} (f : Exec S A) (g : A → Exec S B) (s t : S) (b : B)
    → (f >>= g) s ≡ done b t
    → (a : A) × ((u : S) × ((f s ≡ done a u) × (g a u ≡ done b t)))
bind_done {S = S} {A = A} {B = B} f g s t b h = go (f s) h
  where
    go :
        (o : Outcome S A)
        → and_then o g ≡ done b t
        → (a : A) × ((u : S) × ((o ≡ done a u) × (g a u ≡ done b t)))
    go (done a u) e = (a, (u, (refl, e)))
    go (thrown x u) e = ground arith

pub get_by_id-done :
    (id : String) (s t : Session) (m : Member)
    → get_by_id id s ≡ done m t
    → (p : MemberProps) × ((find (doc_has_id id) s.source.members ≡ some p)
        × ((m ≡ to_domain p) × (t ≡ s)))
unfolding get_by_id
get_by_id-done id s t m h = elim (Option-cases (find (doc_has_id id) s.source.members)) [
  | inl e ↦ ground (arith, e)
  | inr (p, e) ↦ (p, (e, ground (arith, e)))
]

pub call-done :
    (method : Exec Member (Unit {0})) (m u : Member) (s t : Session)
    → call method m s ≡ done u t
    → (method m ≡ done tt u) × (t ≡ s)
call-done method m u s t h = go (method m) h
  where
    go : (o : Outcome Member (Unit {0})) → changed_by o s ≡ done u t → (o ≡ done tt u) × (t ≡ s)
    go (done tt v) e = ground arith
    go (thrown x v) e = ground arith

pub guard-done :
    {S : Type 0} (test : S → Bool) (e : Error) (s t : S)
    → guard test e s ≡ done tt t
    → (test s ≡ true) × (t ≡ s)
guard-done test e s t h = ground arith

pub Reads-done : {S A : Type 0} (f : Exec S A) (s t : S) (a : A) → Reads f → f s ≡ done a t → t ≡ s
Reads-done {S = S} {A = A} f s t a r h = ap (λ (o : Outcome S A). state_after o) (sym h) ∙ r s

pub save-done :
    (host : Host) (m : Member) (s t : Session) (q : MemberProps)
    → save host m s ≡ done q t
    → (q ≡ m.props) × (t.documents ≡ write_document m s.documents)
unfolding save
save-done host m s t q h =
    let (u, (s1, (e1, h1))) = bind_done (dispatch_all host m.root.domain_events) _ s t q h in
    let (v, (s2, (e2, h2))) = bind_done (answered (host.write m.props)) _ s1 t q h1 in
    let same =
      Reads-done (answered (host.write m.props)) s1 s2 v (answered-Reads (host.write m.props)) e2 in
    let kept : s1.documents ≡ s.documents =
      ap (λ (o : Outcome Session (Unit {0})). (state_after o).documents) (sym e1)
      ∙ (dispatch_all_writes_nothing host m.root.domain_events s).1 in
    ground arith

module _ {A : Type 0} where
  last_attempt :
      (a : A) (t : Source) (o : Outcome Session A)
      → ended session_scope o ≡ done a t
      → (u : Session) × ((o ≡ done a u) × (t.members ≡ u.documents))
  last_attempt a t (done b u) h = (u, (ground arith, ground arith))
  last_attempt a t (thrown e u) h = ground arith

  -- What a transaction returned, an attempt returned that began with the same collection, and its
  -- documents are the collection now.
  pub transaction-done :
      (attempts : Attempts) (f : Exec Session A) (s t : Source) (a : A)
      → Keeps f
      → transaction session_scope attempts f s ≡ done a t
      → (before : Session) × ((before.source.members ≡ s.members)
          × ((before.documents ≡ s.members)
              × ((after : Session) × ((f before ≡ done a after) × (t.members ≡ after.documents)))))
  unfolding transaction
  transaction-done commit f s t a k h =
      (session_scope.opened s, (refl, (refl, last_attempt a t (f (session_scope.opened s)) h)))
  transaction-done (run_again later) f s t a k h =
      let (before, (e, (d, rest))) =
        transaction-done later f (state_after (f (session_scope.opened s))).source t a k h in
      (before, (e ∙ k (session_scope.opened s), (d ∙ k (session_scope.opened s), rest)))
  transaction-done (give_up e) f s t a k h = ground arith
