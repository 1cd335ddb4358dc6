-- ===== src/UnitOfWork/Commit.antt =====
-- What a unit of work commits and sends, and when.
use cellixjs.Base.{
  true, false, List, [], ◌∷◌, ◌++◌, Option, ◌≡◌, ◌⊎◌, refl, ap, sym, ◌∙◌, arith, Outcome, Error,
  Exec, done, thrown, state_after, Option-cases, inl, inr, succeeds, and_then, pure,
}
use mathlib.Core.List.{append_assoc}
use cellixjs.UnitOfWork.Repository.{Event, Work, collect, get_integration_events}
use cellixjs.UnitOfWork.Transaction.{
  Attempts, commit, run_again, give_up, World, new_repository, attempt, transaction, send_all,
  finish, with_transaction,
}
use cellixjs.UnitOfWork.Events.{first_of_each, events_of, collect-events_of, collect_keeps}

-- What `send_all` leaves: some of the events are sent, in their order, and `rest` are not, which is
-- empty where it returns.
pub record SendsSome (events : List Event) (world : World) (o : Outcome World (Unit {0}))
    : Type 0 where
  pub rest : List Event
  pub sent_some : (state_after o).sent ++ rest ≡ world.sent ++ events
  pub all_sent : succeeds o ≡ true → rest ≡ []
  pub same_committed : (state_after o).committed ≡ world.committed

send_all-SendsSome :
    (send : Event → Option Error) (events : List Event) (world : World)
    → SendsSome events world (send_all send events world)
unfolding send_all
send_all-SendsSome send [] world = record {
  rest = [];
  sent_some = refl;
  all_sent = λ h. refl;
  same_committed = refl;
}
send_all-SendsSome send (event ∷ events) world =
    let s = send_all-SendsSome send events (record world { sent = world.sent ++ event ∷ [] }) in
    elim (Option-cases (send event)) [
      | inl e ↦ rw e (record {
        rest = s.rest;
        sent_some = s.sent_some ∙ append_assoc world.sent (event ∷ []) events;
        all_sent = s.all_sent;
        same_committed = s.same_committed;
      })
      | inr (x, e) ↦ rw e (record {
        rest = events;
        sent_some = append_assoc world.sent (event ∷ []) events;
        all_sent = λ h. ground arith;
        same_committed = refl;
      })
    ]

module _ {A : Type 0} (func : Exec Work A) where
  -- The objects as the last attempt of the driver finds them.
  abbrev pub last_start : Attempts → Work → Work
  last_start commit w = w
  last_start (run_again later) w = last_start later (state_after (attempt func w))
  last_start (give_up e) w = w

  -- The last attempt's callback returned `a` and left `v`.
  pub record Returned (start : Work) (a : A) (events : List Event) (after : Work) : Type 0 where
    pub v : Work
    pub returned : func (new_repository start) ≡ done a v
    pub same_events : events ≡ events_of (first_of_each v.items_in_transaction) v
    pub same_writes : after.writes ≡ v.writes

  attempt-Returned :
      (w after : Work) (a : A) (events : List Event)
      → attempt func w ≡ done (a, events) after
      → Returned w a events after
  unfolding attempt get_integration_events
  attempt-Returned w after a events h = go (func (new_repository w)) refl h
    where
      collected : A → Exec Work (A × List Event)
      collected b v =
          done (b, (collect v.items_in_transaction v).0) (collect v.items_in_transaction v).1

      go :
          (o : Outcome Work A)
          → func (new_repository w) ≡ o
          → and_then o collected ≡ done (a, events) after
          → Returned w a events after
      go (thrown e v) q k = absurd (ground arith)
      go (done b v) q k = record {
        v = v;
        returned = q ∙ ground arith;
        same_events = ground (arith, collect-events_of v.items_in_transaction v);
        same_writes = ground (arith, collect_keeps v.items_in_transaction v);
      }

  transaction-Returned :
      (attempts : Attempts) (w after : Work) (a : A) (events : List Event)
      → transaction func attempts w ≡ done (a, events) after
      → Returned (last_start attempts w) a events after
  unfolding transaction
  transaction-Returned commit w after a events h = attempt-Returned w after a events h
  transaction-Returned (run_again later) w after a events h =
      transaction-Returned later (state_after (attempt func w)) after a events h
  transaction-Returned (give_up e) w after a events h = absurd (ground arith)

module _ {A : Type 0} where
  -- The last attempt's callback returned, the driver committed what its repository wrote, and then
  -- its objects' events were sent in order: all of them where the call returns, and all but `rest`
  -- where the bus threw.
  pub record Commits (start : Work) (world : World) (func : Exec Work A) (o : Outcome World A)
      : Type 0 where
    pub a : A
    pub events : List Event
    pub after : Work
    pub ran : Returned func start a events after
    pub writes_committed : (state_after o).committed ≡ world.committed ++ ran.v.writes
    pub rest : List Event
    pub sent_some :
        (state_after o).sent ++ rest
        ≡ world.sent ++ events_of (first_of_each ran.v.items_in_transaction) ran.v
    pub all_sent : succeeds o ≡ true → rest ≡ []

  -- Nothing was committed and no event was sent, and the call threw.
  pub record Aborts (world : World) (o : Outcome World A) : Type 0 where
    pub throws : succeeds o ≡ false
    pub same_committed : (state_after o).committed ≡ world.committed
    pub same_sent : (state_after o).sent ≡ world.sent

  then_pure :
      (o : Outcome World (Unit {0})) (a : A)
      → (state_after (and_then o (λ _. pure a)) ≡ state_after o)
        × (succeeds (and_then o (λ _. pure a)) ≡ succeeds o)
  then_pure (done tt w) a = (refl, refl)
  then_pure (thrown e w) a = (refl, refl)

  finish-Commits :
      (send : Event → Option Error) (func : Exec Work A) (start : Work) (world : World) (a : A)
      (events : List Event) (after : Work)
      → Returned func start a events after
      → Commits start world func (finish send world (done (a, events) after))
  finish-Commits send func start world a events after r =
      let w = record world { work = after; committed = world.committed ++ after.writes } in
      let s = send_all-SendsSome send events w in
      let same = then_pure (send_all send events w) a in
      record {
        a = a;
        events = events;
        after = after;
        ran = r;
        writes_committed =
            ap (λ v. v.committed) same.0
            ∙ s.same_committed
            ∙ ap (λ ws. world.committed ++ ws) r.same_writes;
        rest = s.rest;
        sent_some =
            ap (λ v. v.sent ++ s.rest) same.0
            ∙ s.sent_some
            ∙ ap (λ es. world.sent ++ es) r.same_events;
        all_sent = λ h. s.all_sent (sym same.1 ∙ h);
      }

  -- `withTransaction` either throws with nothing committed and nothing sent, or the last attempt's
  -- callback returned, what its repository wrote is committed, and of the integration events that
  -- its saved objects then had the first ones are sent in order: all of them where the call
  -- returns.
  pub sent_after_commit :
      (send : Event → Option Error) (attempts : Attempts) (func : Exec Work A) (world : World)
      → Aborts world (with_transaction send attempts func world)
        ⊎ Commits
            (last_start func attempts world.work)
            world
            func
            (with_transaction send attempts func world)
  unfolding with_transaction
  sent_after_commit send attempts func world = go (transaction func attempts world.work) refl
    where
      go :
          (o : Outcome Work (A × List Event))
          → transaction func attempts world.work ≡ o
          → Aborts world (finish send world o)
            ⊎ Commits (last_start func attempts world.work) world func (finish send world o)
      go (thrown e w) q = inl (record { throws = refl; same_committed = refl; same_sent = refl })
      go (done (a, events) after) q = inr (
          finish-Commits send func (last_start func attempts world.work) world a events after
            (transaction-Returned func attempts world.work after a events q))
