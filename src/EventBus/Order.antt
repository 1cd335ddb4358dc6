-- ===== src/EventBus/Order.antt =====
-- Which handlers a dispatch calls, and in which order.
use cellixjs.Base.{
  ℕ, true, String, List, [], ◌∷◌, ◌++◌, Option, none, some, ◌==◌, ◌≡◌, refl, ap, sym, ◌∙◌, arith,
  lookup, or_else, if◌then◌else◌, Outcome, Error, state_after, succeeds, Bool-cases, Option-cases,
  inl, inr, eq_left, eq_refl,
}
use mathlib.Core.List.{append_assoc, append-nil}
use cellixjs.EventBus.{Subscribers, Call, register, call_all, dispatch_to, dispatch}

-- The registrations, the first one first.
abbrev pub register_all : List (String × ℕ) → Subscribers → Subscribers
register_all [] subscribers = subscribers
register_all ((event, handler) ∷ later) subscribers =
    register_all later (register event handler subscribers)

-- The handlers registered for an event, in that order.
abbrev pub registered : String → List (String × ℕ) → List ℕ
registered event [] = []
registered event ((e, handler) ∷ later) =
    if e == event then handler ∷ registered event later else registered event later

abbrev handlers_of : String → Subscribers → List ℕ
handlers_of event subscribers = or_else (lookup event subscribers) []

handlers_of-register :
    (event e : String) (handler : ℕ) (subscribers : Subscribers)
    → handlers_of event (register e handler subscribers) ≡ (
        if e == event
        then handlers_of event subscribers ++ handler ∷ []
        else handlers_of event subscribers)
unfolding register
handlers_of-register event e handler [] = ground arith
handlers_of-register event e handler ((k, hs) ∷ subscribers) = ground (
  arith,
  handlers_of-register event e handler subscribers,
  eq_left k e event,
  eq_left k event e,
  eq_left e event e,
  eq_refl e,
)

handlers_of-register_all :
    (event : String) (regs : List (String × ℕ)) (subscribers : Subscribers)
    → handlers_of event (register_all regs subscribers)
      ≡ handlers_of event subscribers ++ registered event regs
handlers_of-register_all event [] subscribers = sym (append-nil (handlers_of event subscribers))
handlers_of-register_all event ((e, handler) ∷ later) subscribers =
    handlers_of-register_all event later (register e handler subscribers)
    ∙ ap (λ hs. hs ++ registered event later) (handlers_of-register event e handler subscribers)
    ∙ elim (Bool-cases (e == event)) [
      | inl same ↦
          rw same
            (append_assoc (handlers_of event subscribers) (handler ∷ []) (registered event later))
      | inr other ↦ rw other refl
    ]

abbrev pub calls_of : List ℕ → String → List Call
calls_of [] payload = []
calls_of (h ∷ hs) payload = (h, payload) ∷ calls_of hs payload

-- The calls of some handlers in order up to the first that throws, `skipped` being those after it;
-- none is skipped where the dispatch returns.
pub record CallsInOrder (handlers : List ℕ) (payload : String) (before : List Call)
    (o : Outcome (List Call) (Unit {0})) : Type 0 where
  pub called : List ℕ
  pub skipped : List ℕ
  pub split : called ++ skipped ≡ handlers
  pub calls_made : state_after o ≡ before ++ calls_of called payload
  pub none_skipped : succeeds o ≡ true → skipped ≡ []

call_all-CallsInOrder :
    (handle : Call → Option Error) (handlers : List ℕ) (payload : String) (before : List Call)
    → CallsInOrder handlers payload before (call_all handle handlers payload before)
unfolding call_all
call_all-CallsInOrder handle [] payload before = record {
  called = [];
  skipped = [];
  split = refl;
  calls_made = sym (append-nil before);
  none_skipped = λ h. refl;
}
call_all-CallsInOrder handle (h ∷ hs) payload before = elim (Option-cases (handle (h, payload))) [
  | inl e ↦
      let c = call_all-CallsInOrder handle hs payload (before ++ (h, payload) ∷ []) in
      rw e (record {
        called = h ∷ c.called;
        skipped = c.skipped;
        split = ap (λ x. h ∷ x) c.split;
        calls_made =
            c.calls_made ∙ append_assoc before ((h, payload) ∷ []) (calls_of c.called payload);
        none_skipped = c.none_skipped;
      })
  | inr (x, e) ↦ rw e (record {
    called = h ∷ [];
    skipped = hs;
    split = refl;
    calls_made = refl;
    none_skipped = λ r. ground arith;
  })
]

dispatch_to-call_all :
    (handle : Call → Option Error) (o : Option (List ℕ)) (payload : String) (before : List Call)
    → dispatch_to handle o payload before ≡ call_all handle (or_else o []) payload before
unfolding call_all
dispatch_to-call_all handle none payload before = refl
dispatch_to-call_all handle (some hs) payload before = refl

-- A dispatch calls the handlers that were registered for that event, and no others, in the order of
-- their registration, up to the first that throws.
pub dispatch-CallsInOrder :
    (handle : Call → Option Error) (regs : List (String × ℕ)) (event payload : String)
    (before : List Call)
    → CallsInOrder
        (registered event regs)
        payload
        before
        (dispatch handle (register_all regs []) event payload before)
unfolding dispatch
dispatch-CallsInOrder handle regs event payload before =
    rw (dispatch_to-call_all handle (lookup event (register_all regs [])) payload before) (
      rw (handlers_of-register_all event regs [])
        (call_all-CallsInOrder handle (registered event regs) payload before))
