-- ===== src/UnitOfWork/Save.antt =====
-- What `save` does where the handlers accept the domain events, and where one throws.
use cellixjs.Base.{
  ℕ, true, List, [], ◌∷◌, ◌++◌, Option, none, some, ◌≡◌, refl, ap, sym, ◌∙◌, arith, Error, done,
  thrown, state_after, if◌then◌else◌, Option-cases, inl, inr,
}
use mathlib.Core.List.{append_assoc, append-nil}
use cellixjs.Seedwork.Aggregate.{clear_domain_events}
use cellixjs.UnitOfWork.Repository.{
  Event, Item, Work, Services, Saved, same_object, of_document, equal, assign, dispatch_all, save,
  write_of, delete_or_save,
}

abbrev pub Accepts : Services → List Event → Type 0
Accepts services [] = Unit {0}
Accepts services (event ∷ events) = (services.dispatch event ≡ none) × Accepts services events

dispatch_all-Accepts :
    (services : Services) (events : List Event) (w : Work)
    → Accepts services events
    → dispatch_all services events w ≡ done tt (record w { dispatched = w.dispatched ++ events })
unfolding dispatch_all
dispatch_all-Accepts services [] w h =
    ap (λ d. done tt (record w { dispatched = d })) (sym (append-nil w.dispatched))
dispatch_all-Accepts services (event ∷ events) w (here, later) = rw here (
    dispatch_all-Accepts services events (record w { dispatched = w.dispatched ++ event ∷ [] })
      later
    ∙ ap (λ d. done tt (record w { dispatched = d }))
        (append_assoc w.dispatched (event ∷ []) events))

-- The object as the hook leaves it.
abbrev pub hooked : Services → ℕ → Work → Item
hooked services ref w = services.on_save (services.is_modified (w.item ref)) (w.item ref)

-- The objects and lists that `save` leaves where every handler accepts.
abbrev pub after_save : Services → ℕ → Work → Work
after_save services ref w = record w {
  item =
      (assign ref (λ i. record i { root = clear_domain_events i.root })
        (assign ref (services.on_save (services.is_modified (w.item ref))) w)).item;
  dispatched = w.dispatched ++ (hooked services ref w).root.domain_events;
  writes = w.writes ++ write_of services (hooked services ref w) ∷ [];
  items_in_transaction = w.items_in_transaction ++ ref ∷ [];
}

abbrev pub returned : ℕ → Item → Saved
returned ref item = if item.root.is_deleted then same_object ref else of_document item.id item.props

equal_refl : (ref : ℕ) → equal ref ref ≡ true
equal_refl ref = ground arith

-- Where every handler accepts the domain events that the object has after its hook, `save` hands
-- all of them to the bus in order, clears them, and makes one call of the model: it deletes a
-- deleted object and returns it, and saves another and returns what was saved. An exception of the
-- model is thrown on, with the object in the transaction and its domain events gone.
pub save_of_accepted :
    (services : Services) (ref : ℕ) (w : Work)
    → Accepts services (hooked services ref w).root.domain_events
    → save services ref w ≡ (elim (services.write (write_of services (hooked services ref w))) [
      | none ↦ done (returned ref (hooked services ref w)) (after_save services ref w)
      | some e ↦ thrown e (after_save services ref w)
    ])
unfolding save
save_of_accepted services ref w h = rw (equal_refl ref) (
    rw
      (dispatch_all-Accepts services (hooked services ref w).root.domain_events
        (assign ref (services.on_save (services.is_modified (w.item ref))) w) h)
      (elim (Option-cases (services.write (write_of services (hooked services ref w)))) [
        | inl e ↦ rw (delete_or_save, equal_refl ref) (rw e refl)
        | inr (x, e) ↦ rw (delete_or_save, equal_refl ref) (rw e refl)
      ]))

-- The exception of the first handler that throws.
abbrev pub rejection : Services → List Event → Option Error
rejection services [] = none
rejection services (event ∷ events) = elim (services.dispatch event) [
  | none ↦ rejection services events
  | some e ↦ some e
]

-- What a run of the bus leaves alone.
record OnlyDispatched (w v : Work) : Type 0 where
  items : v.item ≡ w.item
  writes : v.writes ≡ w.writes
  in_transaction : v.items_in_transaction ≡ w.items_in_transaction

dispatch_all-OnlyDispatched :
    (services : Services) (events : List Event) (w : Work)
    → OnlyDispatched w (state_after (dispatch_all services events w))
unfolding dispatch_all
dispatch_all-OnlyDispatched services [] w = record {
  items = refl;
  writes = refl;
  in_transaction = refl;
}
dispatch_all-OnlyDispatched services (event ∷ events) w =
    let w' = record w { dispatched = w.dispatched ++ event ∷ [] } in
    elim (Option-cases (services.dispatch event)) [
      | inl e ↦
          let o = dispatch_all-OnlyDispatched services events w' in
          rw e (record { items = o.items; writes = o.writes; in_transaction = o.in_transaction })
      | inr (x, e) ↦ rw e (record { items = refl; writes = refl; in_transaction = refl })
    ]

dispatch_all-rejection :
    (services : Services) (events : List Event) (w : Work) (e : Error)
    → rejection services events ≡ some e
    → dispatch_all services events w ≡ thrown e (state_after (dispatch_all services events w))
unfolding dispatch_all
dispatch_all-rejection services [] w e h = ground arith
dispatch_all-rejection services (event ∷ events) w e h = ground (
  arith,
  dispatch_all-rejection services events (record w { dispatched = w.dispatched ++ event ∷ [] }) e,
)

-- Where a handler of one of the domain events throws, `save` throws that exception: the model is
-- not called, the object is not in the transaction, and it keeps all its events.
pub save_of_rejected :
    (services : Services) (ref : ℕ) (w : Work) (e : Error)
    → rejection services (hooked services ref w).root.domain_events ≡ some e
    → (v : Work) × (save services ref w ≡ thrown e v)
      × (v.writes ≡ w.writes)
      × (v.items_in_transaction ≡ w.items_in_transaction)
      × (v.item ref ≡ hooked services ref w)
unfolding save
save_of_rejected services ref w e h =
    let events = (hooked services ref w).root.domain_events in
    let w' = assign ref (services.on_save (services.is_modified (w.item ref))) w in
    let v = state_after (dispatch_all services events w') in
    let o = dispatch_all-OnlyDispatched services events w' in
    (
      v,
      rw (equal_refl ref) (rw (dispatch_all-rejection services events w' e h) refl),
      o.writes,
      o.in_transaction,
      ap (λ f. f ref) o.items ∙ rw (equal_refl ref) refl,
    )
