-- ===== src/Bootstrap/State.antt =====
-- The class Cellix: its phases, the registry of services and the fields.
use cellixjs.Base.{Bool, false, String, List, [], Option, none, Error}

pub data Phase : Type 0 where
  infrastructure context app_services handlers started : Phase

-- A service: which object it is, and its class.
pub record Service : Type 0 where
  pub id : String
  pub class : String

-- servicesInternal and nameMap, in the order of insertion.
pub record Registry : Type 0 where
  pub services : List (String × Service)
  pub names : List (String × Service)

-- What a function of the application returns, or its exception.
pub data Made (T : Type 0) : Type 0 where
  made : T → Made T
  failed : Error → Made T

-- PendingHandler, without the options that are passed on. `A` is what a request is answered with.
pub record PendingHandler (H A : Type 0) : Type 0 where
  pub name : String
  pub handler_creator : H → Registry → A

-- The calls that services get, each with the id of the service.
pub data ServiceCall : Type 0 where
  start_up_of shut_down_of : String → ServiceCall

-- `C` is the context and `H` the host of the application services. `handlers_registered` are those
-- that `app.http` was called with; `hooked` is whether the hooks were; `calls` is a record of the
-- calls that services got.
pub record Cellix (C H A : Type 0) : Type 0 where
  pub registry : Registry
  pub context_creator : Option (Registry → Made C)
  pub app_services_host_builder : Option (C → Made H)
  pub pending_handlers : List (PendingHandler H A)
  pub service_initialized : Bool
  pub phase : Phase
  pub context_internal : Option C
  pub app_services_host_internal : Option H
  pub handlers_registered : List (PendingHandler H A)
  pub hooked : Bool
  pub calls : List ServiceCall

abbrev pub new_cellix : {C H A : Type 0} → Cellix C H A
new_cellix = record {
  registry = record { services = []; names = [] };
  context_creator = none;
  app_services_host_builder = none;
  pending_handlers = [];
  service_initialized = false;
  phase = infrastructure;
  context_internal = none;
  app_services_host_internal = none;
  handlers_registered = [];
  hooked = false;
  calls = [];
}

-- What the services do when they are started and stopped (`some e` is an exception), and which of
-- several rejections is the first in time.
pub record Behaviour : Type 0 where
  pub start_up : Service → Option Error
  pub shut_down : Service → Option Error
  pub first_settled : Error → List Error → Error
