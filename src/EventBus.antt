-- ===== src/EventBus.antt =====
-- packages/cellix/event-bus-seedwork-node/src/in-proc-event-bus.ts. A handler is named by a number,
-- and what it does is a parameter; the payload is the text that JSON.stringify makes of the data.
pub mod Order
pub mod Node
pub mod NodeTests
pub mod Tests
use cellixjs.Base.{
  ℕ, Bool, String, List, [], ◌∷◌, ◌++◌, Option, none, some, ◌==◌, lookup, if◌then◌else◌, Exec,
  Outcome, Error, done, thrown, ◌>>=◌, ◌>>◌, pure, modify,
}

-- eventSubscribers, in the order of the keys.
abbrev pub Subscribers : Type 0
Subscribers = List (String × List ℕ)

-- `??= []`, and then `push`.
unfoldable pub register : String → ℕ → Subscribers → Subscribers
register event handler [] = (event, handler ∷ []) ∷ []
register event handler ((e, handlers) ∷ subscribers) =
    if e == event
    then (e, handlers ++ handler ∷ []) ∷ subscribers
    else (e, handlers) ∷ register event handler subscribers

-- A call of a handler with its payload.
abbrev pub Call : Type 0
Call = ℕ × String

abbrev pub outcome_of : Option Error → Exec (List Call) (Unit {0})
outcome_of none calls = done tt calls
outcome_of (some e) calls = thrown e calls

module _ (handle : Call → Option Error) where
  -- The loop over the subscribers, each of which is awaited.
  unfoldable pub call_all : List ℕ → String → Exec (List Call) (Unit {0})
  call_all [] payload = pure tt
  call_all (h ∷ hs) payload = do
    modify (λ calls. calls ++ (h, payload) ∷ [])
    outcome_of (handle (h, payload))
    call_all hs payload

  abbrev pub dispatch_to : Option (List ℕ) → String → Exec (List Call) (Unit {0})
  dispatch_to none payload = pure tt
  dispatch_to (some handlers) payload = call_all handlers payload

  unfoldable pub dispatch : Subscribers → String → String → Exec (List Call) (Unit {0})
  dispatch subscribers event payload = dispatch_to (lookup event subscribers) payload
