-- ===== src/Management/Sessions.antt =====
-- The loop of a bulk operation in one session, against a session for each call.
use cellixjs.Base.{
  ◌≡◌, refl, ◌∙◌, sym, ap, arith, false, List, [], ◌∷◌, ◌++◌, String, Exec, Outcome, done, thrown,
  any, find, ◌==◌, state_after, append_one, append_nil,
}
use cellixjs.UnitOfWork.Transaction.{commit}
use cellixjs.Community.Members.State.{MemberProps}
use cellixjs.Management.Source.{Source, Session, transaction, session_scope, ended, doc_has_id}
use cellixjs.Management.Bulk.{Batch, with_state, noted, attempt_each}
use cellixjs.Management.Batches.{each_returned, with_result}
use cellixjs.Management.Steady.{Steady, settled, answer}

-- No id is given twice.
abbrev pub Distinct : List String → Type 0
Distinct [] = Unit {0}
Distinct (id ∷ ids) = (any (λ other. id == other) ids ≡ false) × Distinct ids

-- The session has not written the documents with these ids.
abbrev pub Unwritten : List String → Session → Type 0
Unwritten [] t = Unit {0}
Unwritten (id ∷ ids) t =
    (find (doc_has_id id) t.documents ≡ find (doc_has_id id) t.source.members) × Unwritten ids t

pub opened-Unwritten : (ids : List String) (s : Source) → Unwritten ids (session_scope.opened s)
opened-Unwritten [] s = tt
opened-Unwritten (id ∷ ids) s = (refl, opened-Unwritten ids s)

-- The callback in a transaction of its own.
abbrev pub alone : (String → Exec Session MemberProps) → String → Exec Source MemberProps
alone one id = transaction session_scope commit (one id)

module _ (one : String → Exec Session MemberProps) (steady : Steady one) where
  stays-Unwritten :
      (id : String) (ids : List String) (t : Session)
      → any (λ other. id == other) ids ≡ false
      → Unwritten ids t
      → Unwritten ids (state_after (one id t))
  stays-Unwritten id [] t h k = tt
  stays-Unwritten id (other ∷ ids) t h k = (
    steady.others_stay id other t (ground arith)
        ∙ k.0
        ∙ ap (find (doc_has_id other)) (sym (steady.keeps id t)),
    stays-Unwritten id ids t (ground arith) k.1,
  )

  -- One session around all calls commits what a session for each call does.
  pub one_by_one :
      (ids : List String) (b : Batch Session)
      → Distinct ids
      → Unwritten ids b.state
      → with_state session_scope.committed (attempt_each one ids b)
        ≡ attempt_each (alone one) ids (with_state session_scope.committed b)
  unfolding attempt_each transaction
  one_by_one [] b d k = refl
  one_by_one (id ∷ ids) b d k =
      next (one id b.state) (stays-Unwritten id ids b.state d.0 k.1) (one_by_one ids)
      ∙ ap (λ o. attempt_each (alone one) ids (noted id (with_state session_scope.committed b) o))
          (sym (steady.same_alone id b.state k.0))
    where
      next :
          (o : Outcome Session MemberProps)
          → Unwritten ids (state_after o)
          → ((c : Batch Session)
              → Distinct ids
              → Unwritten ids c.state
              → with_state session_scope.committed (attempt_each one ids c)
                ≡ attempt_each (alone one) ids (with_state session_scope.committed c))
          → with_state session_scope.committed (attempt_each one ids (noted id b o))
            ≡ attempt_each
                (alone one)
                ids
                (noted id (with_state session_scope.committed b) (settled o))
      next (done p t) u rest = rest (noted id b (done p t)) d.1 u
      next (thrown e t) u rest = rest (noted id b (thrown e t)) d.1 u

  -- What the loop puts into the array of results depends on the collection only.
  pub loop_results :
      (ids : List String) (b : Batch Session) (s : Source)
      → b.state.source.members ≡ s.members
      → ((attempt_each one ids b).results ≡ b.results ++ each_returned (alone one) ids s)
        × ((attempt_each one ids b).state.source.members ≡ s.members)
  unfolding attempt_each transaction
  loop_results [] b s h = (sym (append_nil b.results), h)
  loop_results (id ∷ ids) b s h =
      next (one id b.state) (one id (session_scope.opened s))
        (steady.same_answer id b.state (session_scope.opened s) h) (steady.keeps id b.state ∙ h)
        (λ c k. loop_results ids c s k)
    where
      next :
          (o p : Outcome Session MemberProps)
          → answer o ≡ answer p
          → (state_after o).source.members ≡ s.members
          → ((c : Batch Session)
              → c.state.source.members ≡ s.members
              → ((attempt_each one ids c).results ≡ c.results ++ each_returned (alone one) ids s)
                × ((attempt_each one ids c).state.source.members ≡ s.members))
          → ((attempt_each one ids (noted id b o)).results
              ≡ b.results
                ++ with_result
                    (alone one)
                    (ended session_scope p)
                    (each_returned (alone one) ids s))
            × ((attempt_each one ids (noted id b o)).state.source.members ≡ s.members)
      next (done x t) (done y u) e k rest =
          let (results, kept) = rest (noted id b (done x t)) k in
          (
            results
                ∙ append_one b.results x (each_returned (alone one) ids s)
                ∙ ap (λ z. b.results ++ z ∷ each_returned (alone one) ids s) (ground arith),
            kept,
          )
      next (done x t) (thrown e2 u) e k rest = ground arith
      next (thrown e1 t) (done y u) e k rest = ground arith
      next (thrown e1 t) (thrown e2 u) e k rest = rest (noted id b (thrown e1 t)) k
