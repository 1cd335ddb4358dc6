-- ===== src/EventBus/Node.antt =====
-- packages/cellix/event-bus-seedwork-node/src/node-event-bus.ts: `broadcast` calls the listeners of
-- its event one after the other. What `on` registers starts the handler and ignores its promise, so
-- that `broadcast` awaits nothing of it: a handler runs on by itself, may dispatch events, and need
-- not come to an end.
use cellixjs.Base.{
  ℕ, zero, suc, ◌≡◌, String, List, [], ◌∷◌, ◌++◌, Option, none, some, map, ◌==◌, if◌then◌else◌,
}

-- A handler that `register` was called with: its event, and which one it is.
pub record Handler : Type 0 where
  pub event : String
  pub id : String

-- A running call of `broadcast`: the listeners that are still to be called, and the handlers that
-- it has begun, in order. It has returned when no listener is left.
pub record Broadcast : Type 0 where
  pub waiting : List Handler
  pub began : List String

-- The handlers that are registered, the broadcasts of all dispatches so far, and the handlers that
-- have begun and not ended.
pub record Bus : Type 0 where
  pub registered : List Handler
  pub broadcasts : List Broadcast
  pub running : List String

-- eventEmitter.listeners(event), in the order of registration.
abbrev pub listeners : String → List Handler → List Handler
listeners event [] = []
listeners event (h ∷ hs) =
    let rest = listeners event hs in if h.event == event then h ∷ rest else rest

-- `dispatch` of the event starts a broadcast.
abbrev pub dispatched : String → Bus → Bus
dispatched event b = record b {
  broadcasts = b.broadcasts ++ record { waiting = listeners event b.registered; began = [] } ∷ [];
}

abbrev pub broadcast_at : ℕ → List Broadcast → Option Broadcast
broadcast_at i [] = none
broadcast_at zero (x ∷ xs) = some x
broadcast_at (suc i) (x ∷ xs) = broadcast_at i xs

abbrev pub put_at : ℕ → Broadcast → List Broadcast → List Broadcast
put_at i y [] = []
put_at zero y (x ∷ xs) = y ∷ xs
put_at (suc i) y (x ∷ xs) = x ∷ put_at i y xs

-- The i-th broadcast `x` calls its next listener, which begins its handler.
abbrev pub called : ℕ → Broadcast → Handler → List Handler → Bus → Bus
called i x h hs b = record b {
  broadcasts = put_at i (record { waiting = hs; began = x.began ++ h.id ∷ [] }) b.broadcasts;
  running = b.running ++ h.id ∷ [];
}

-- In any order: handlers are registered, events are dispatched, by running handlers too, broadcasts
-- call their listeners, and handlers end, with an exception or without. Nothing makes a handler end.
pub data Step : Bus → Bus → Type 0 where
  register : (b : Bus) (h : Handler) → Step b (record b { registered = b.registered ++ h ∷ [] })
  dispatch : (b : Bus) (event : String) → Step b (dispatched event b)
  call :
      (b : Bus) (i : ℕ) (x : Broadcast) (h : Handler) (hs : List Handler)
      → broadcast_at i b.broadcasts ≡ some x
      → x.waiting ≡ h ∷ hs
      → Step b (called i x h hs b)
  finish :
      (b : Bus) (before after : List String) (id : String)
      → b.running ≡ before ++ id ∷ after
      → Step b (record b { running = before ++ after })

pub data Steps : Bus → Bus → Type 0 where
  stay : (b : Bus) → Steps b b
  step : (b c d : Bus) → Step b c → Steps c d → Steps b d

-- Steps of the i-th broadcast alone.
pub data Calls (i : ℕ) : Bus → Bus → Type 0 where
  returned : (b : Bus) → Calls i b b
  next :
      (b d : Bus) (x : Broadcast) (h : Handler) (hs : List Handler)
      → broadcast_at i b.broadcasts ≡ some x
      → x.waiting ≡ h ∷ hs
      → Calls i (called i x h hs b) d
      → Calls i b d

abbrev pub ids : List Handler → List String
ids = map (λ (h : Handler). h.id)

-- The handlers that a broadcast has begun or will begin.
abbrev plan : Broadcast → List String
plan x = x.began ++ ids x.waiting

abbrev pub Plans : ℕ → List String → List Broadcast → Type 0
Plans i names xs = (x : Broadcast) × ((broadcast_at i xs ≡ some x) × (plan x ≡ names))

-- The i-th broadcast can return by calls of its own, with those handlers begun.
abbrev pub CanReturn : ℕ → List String → Bus → Type 0
CanReturn i names c =
    (d : Bus) × (Calls i c d
      × ((y : Broadcast) × ((broadcast_at i d.broadcasts ≡ some y)
            × ((y.waiting ≡ []) × (y.began ≡ names)))))
