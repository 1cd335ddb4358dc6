-- ===== src/UnitOfWork/Repository.antt =====
-- mongo-repository.ts: `get`, `save` and `getIntegrationEvents`. The domain objects are named by
-- reference and stand in a store, since a repository and its callers share them.
use cellixjs.Base.{
  ℕ, suc, Bool, String, List, [], ◌∷◌, ◌++◌, Option, none, some, Exec, Error, done, thrown, ◌>>◌,
  pure, throw, modify, not_found_error, if◌then◌else◌, leb, ◌&&◌,
}
use cellixjs.Seedwork.Aggregate.{
  AggregateRoot, CustomDomainEvent, clear_domain_events, clear_integration_events,
}

abbrev pub Event : Type 0
Event = CustomDomainEvent String

-- A domain object: its id, what stands for its props, and the fields of AggregateRoot.
pub record Item : Type 0 where
  pub id : String
  pub props : String
  pub root : AggregateRoot String

-- A call on the model inside the session.
pub data Write : Type 0 where
  delete_one : String → Write
  save_document : String → String → Write

-- What a repository and its callers share: the objects, the next free reference, the calls of the
-- event bus so far, the calls of the model in this session, and the repository's
-- `itemsInTransaction`.
pub record Work : Type 0 where
  pub item : ℕ → Item
  pub next : ℕ
  pub dispatched : List Event
  pub writes : List Write
  pub items_in_transaction : List ℕ

-- The database, the handlers on the bus and the hook that each aggregate overrides. `some e` is an
-- exception that the call throws.
pub record Services : Type 0 where
  pub find_by_id : String → Option Item
  pub on_save : Bool → Item → Item
  pub is_modified : Item → Bool
  pub dispatch : Event → Option Error
  pub write : Write → Option Error

-- What `save` returns: the object itself where it was deleted, a new object of the saved document
-- otherwise.
pub data Saved : Type 0 where
  same_object : ℕ → Saved
  of_document : String → String → Saved

abbrev pub equal : ℕ → ℕ → Bool
equal a b = leb a b && leb b a

-- Assign to an object.
abbrev pub assign : ℕ → (Item → Item) → Work → Work
assign ref f w = record w { item = λ r. if equal r ref then f (w.item r) else w.item r }

-- A new object: toDomain of a document.
abbrev pub allocate : Item → Exec Work ℕ
allocate item w = done w.next (record (assign w.next (λ _. item) w) { next = suc w.next })

abbrev pub found : String → Option Item → Exec Work ℕ
found id none = throw (not_found_error id)
found id (some item) = allocate item

-- `await` of a call that may throw.
abbrev pub raised : {S : Type 0} → Option Error → Exec S (Unit {0})
raised none w = done tt w
raised (some e) w = thrown e w

module _ (services : Services) where
  unfoldable pub get : String → Exec Work ℕ
  get id = found id (services.find_by_id id)

  -- The loop over getDomainEvents().
  unfoldable pub dispatch_all : List Event → Exec Work (Unit {0})
  dispatch_all [] = pure tt
  dispatch_all (event ∷ events) = do
    modify (λ w. record w { dispatched = w.dispatched ++ event ∷ [] })
    raised (services.dispatch event)
    dispatch_all events

  abbrev pub write_of : Item → Write
  write_of item =
      if item.root.is_deleted then delete_one item.id else save_document item.id item.props

  abbrev pub write_now : Write → Exec Work (Unit {0})
  write_now call = do
    modify (λ w. record w { writes = w.writes ++ call ∷ [] })
    raised (services.write call)

  -- The `try` block.
  abbrev pub delete_or_save : ℕ → Exec Work Saved
  delete_or_save ref w =
      (do
        write_now (write_of (w.item ref))
        pure (
            if (w.item ref).root.is_deleted
            then same_object ref
            else of_document (w.item ref).id (w.item ref).props))
        w

  abbrev pub run_hook : ℕ → Exec Work (Unit {0})
  run_hook ref = modify (λ w. assign ref (services.on_save (services.is_modified (w.item ref))) w)

  abbrev pub dispatch_events_of : ℕ → Exec Work (Unit {0})
  dispatch_events_of ref w = dispatch_all (w.item ref).root.domain_events w

  unfoldable pub save : ℕ → Exec Work Saved
  save ref = do
    run_hook ref
    dispatch_events_of ref
    modify (assign ref (λ i. record i { root = clear_domain_events i.root }))
    modify (λ w. record w { items_in_transaction = w.items_in_transaction ++ ref ∷ [] })
    delete_or_save ref

-- `itemsInTransaction.map(...)`, and the groups put together.
unfoldable pub collect : List ℕ → Work → List Event × Work
collect [] w = ([], w)
collect (ref ∷ refs) w =
    let cleared = assign ref (λ i. record i { root = clear_integration_events i.root }) w in
    let later = collect refs cleared in ((w.item ref).root.integration_events ++ later.0, later.1)

unfoldable pub get_integration_events : Work → List Event × Work
get_integration_events w = collect w.items_in_transaction w
