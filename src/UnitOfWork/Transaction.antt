-- ===== src/UnitOfWork/Transaction.antt =====
-- mongo-unit-of-work.ts: `withTransaction` and `withScopedTransactionById`.
use cellixjs.Base.{
  String, List, [], ◌∷◌, ◌++◌, Option, Exec, Outcome, Error, done, thrown, ◌>>=◌, ◌>>◌, pure,
  modify, state_after,
}
use cellixjs.UnitOfWork.Repository.{
  Event, Write, Work, Saved, Services, get, save, get_integration_events, raised,
}

-- What the database driver decides in `connection.transaction`: it runs the callback, and commits,
-- or runs it again, or gives up. A callback that throws in the attempt that is to be committed
-- makes the driver abort with that exception.
pub data Attempts : Type 0 where
  commit : Attempts
  run_again : Attempts → Attempts
  give_up : Error → Attempts

-- The unit of work: the shared objects, the writes that were committed, and the calls of the
-- integration event bus.
pub record World : Type 0 where
  pub work : Work
  pub committed : List Write
  pub sent : List Event

-- MongoRepositoryBase.create in a new session.
abbrev pub new_repository : Work → Work
new_repository w = record w { writes = []; items_in_transaction = [] }

module _ {A : Type 0} (func : Exec Work A) where
  -- The callback handed to the driver: `func`, and the events that its repository then has.
  unfoldable pub attempt : Exec Work (A × List Event)
  attempt w =
      (do
        a ← func
        λ after. done (a, (get_integration_events after).0) (get_integration_events after).1)
        (new_repository w)

  unfoldable pub transaction : Attempts → Exec Work (A × List Event)
  transaction commit w = attempt w
  transaction (run_again later) w = transaction later (state_after (attempt w))
  transaction (give_up e) w = thrown e (state_after (attempt w))

-- The loop after the transaction.
unfoldable pub send_all : (Event → Option Error) → List Event → Exec World (Unit {0})
send_all send [] = pure tt
send_all send (event ∷ events) = do
  modify (λ w. record w { sent = w.sent ++ event ∷ [] })
  raised (send event)
  send_all send events

abbrev pub finish :
    {A : Type 0} → (Event → Option Error) → World → Outcome Work (A × List Event) → Outcome World A
finish send world (thrown e w) = thrown e (record world { work = w })
finish send world (done (a, events) w) =
    (do send_all send events; pure a)
      (record world { work = w; committed = world.committed ++ w.writes })

unfoldable pub with_transaction :
    {A : Type 0} → (Event → Option Error) → Attempts → Exec Work A → Exec World A
with_transaction send attempts func world = finish send world (transaction func attempts world.work)

-- The callback that `withScopedTransactionById` makes.
abbrev pub load_and_save : Services → String → Exec Work (Unit {0}) → Exec Work Saved
load_and_save services id callback = do ref ← get services id; callback; save services ref

unfoldable pub with_scoped_transaction_by_id :
    Services → (Event → Option Error) → Attempts → String → Exec Work (Unit {0}) → Exec World Saved
with_scoped_transaction_by_id services send attempts id callback =
    with_transaction send attempts (load_and_save services id callback)
