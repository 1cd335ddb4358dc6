-- ===== src/EventBus/NodeTests.antt =====
-- Two handlers of one event, of which the first dispatches an event itself and does not end.
use cellixjs.Base.{[], ◌∷◌}
use cellixjs.EventBus.Node.{Handler, Broadcast, Bus, dispatched, called}

abbrev email_handler : Handler
email_handler = record { event = "MemberActivatedEvent"; id = "email" }

abbrev audit_handler : Handler
audit_handler = record { event = "MemberActivatedEvent"; id = "audit" }

abbrev two_handlers : Bus
two_handlers = record {
  registered = email_handler ∷ audit_handler ∷ [];
  broadcasts = [];
  running = [];
}

abbrev new_broadcast : Broadcast
new_broadcast = record { waiting = email_handler ∷ audit_handler ∷ []; began = [] }

abbrev first_called : Bus
first_called =
    called 0 new_broadcast email_handler (audit_handler ∷ [])
      (dispatched "MemberActivatedEvent" two_handlers)
