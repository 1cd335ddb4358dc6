-- ===== src/Seedwork/Aggregate.antt =====
-- packages/cellix/domain-seedwork/src/domain-seedwork: aggregate-root.ts and domain-event.ts. An
-- event is named by its class, and holds the id of its aggregate and its payload.
use cellixjs.Base.{Bool, false, String, List, [], ◌∷◌, ◌++◌}

pub record CustomDomainEvent (Payload : Type 0) : Type 0 where
  pub name : String
  pub aggregate_id : String
  pub payload : Payload

-- The fields that AggregateRoot keeps beside the props: the deletion mark and the two event lists.
pub record AggregateRoot (Payload : Type 0) : Type 0 where
  pub is_deleted : Bool
  pub domain_events : List (CustomDomainEvent Payload)
  pub integration_events : List (CustomDomainEvent Payload)

abbrev pub new_root : {Payload : Type 0} → AggregateRoot Payload
new_root = record { is_deleted = false; domain_events = []; integration_events = [] }

-- `new event(id)` with its payload set.
abbrev pub new_event : {Payload : Type 0} → String → String → Payload → CustomDomainEvent Payload
new_event name id payload = record { name = name; aggregate_id = id; payload = payload }

abbrev pub add_domain_event :
    {Payload : Type 0} → String → String → Payload → AggregateRoot Payload → AggregateRoot Payload
add_domain_event name id payload r = record r {
  domain_events = r.domain_events ++ new_event name id payload ∷ [];
}

abbrev pub clear_domain_events : {Payload : Type 0} → AggregateRoot Payload → AggregateRoot Payload
clear_domain_events r = record r { domain_events = [] }

abbrev pub add_integration_event :
    {Payload : Type 0} → String → String → Payload → AggregateRoot Payload → AggregateRoot Payload
add_integration_event name id payload r = record r {
  integration_events = r.integration_events ++ new_event name id payload ∷ [];
}

abbrev pub clear_integration_events :
    {Payload : Type 0} → AggregateRoot Payload → AggregateRoot Payload
clear_integration_events r = record r { integration_events = [] }

abbrev pub set_is_deleted :
    {Payload : Type 0} → Bool → AggregateRoot Payload → AggregateRoot Payload
set_is_deleted value r = record r { is_deleted = value }
