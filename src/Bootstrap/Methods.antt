-- ===== src/Bootstrap/Methods.antt =====
-- The methods of the class Cellix that put an application together.
use Prim.Native.String
use cellixjs.Base.{
  Bool, true, false, String, List, [], ◌∷◌, ◌++◌, Option, none, some, ◌==◌, Exec, ◌>>◌, modify,
  guard, plain_error, Error, any, lookup, if◌then◌else◌, done, thrown,
}
use cellixjs.Bootstrap.State.{
  Phase, infrastructure, context, app_services, handlers, started, Service, Registry, Made, made,
  failed, PendingHandler, Cellix,
}

abbrev pub phase_name : Phase → String
phase_name infrastructure = "infrastructure"
phase_name context = "context"
phase_name app_services = "app-services"
phase_name handlers = "handlers"
phase_name started = "started"

abbrev pub includes_phase : List Phase → Phase → Bool
includes_phase allowed phase = any (λ p. phase_name p == phase_name phase) allowed

abbrev pub join_phases : List Phase → String
join_phases [] = ""
join_phases (p ∷ []) = phase_name p
join_phases (p ∷ q ∷ ps) = String.◌++◌ (phase_name p) (String.◌++◌ ", " (join_phases (q ∷ ps)))

abbrev pub invalid_phase : List Phase → Phase → Error
invalid_phase allowed phase = plain_error (
    String.◌++◌ "Invalid operation in phase '"
      (String.◌++◌ (phase_name phase) (String.◌++◌ "'. Allowed phases: " (join_phases allowed))))

abbrev pub has_key : String → List (String × Service) → Bool
has_key key entries = any (λ e. e.0 == key) entries

pub data Key : Type 0 where
  by_constructor by_name : String → Key

abbrev pub found : String → Option Service → Made Service
found name none = failed (plain_error (String.◌++◌ "Service not found: " name))
found name (some service) = made service

abbrev pub get_infrastructure_service : Key → Registry → Made Service
get_infrastructure_service (by_name name) r = found name (lookup name r.names)
get_infrastructure_service (by_constructor class) r = found class (lookup class r.services)

-- Set.add.
abbrev pub add_service : List Service → Service → List Service
add_service set svc = if any (λ s. s.id == svc.id) set then set else set ++ svc ∷ []

abbrev pub add_all : List Service → List (String × Service) → List Service
add_all set [] = set
add_all set ((key, svc) ∷ entries) = add_all (add_service set svc) entries

unfoldable pub get_unique_services_for_lifecycle : Registry → List Service
get_unique_services_for_lifecycle r = add_all (add_all [] r.services) r.names

-- Whether a field is not undefined.
abbrev pub is_set : {T : Type 0} → Option T → Bool
is_set none = false
is_set (some t) = true

module _ {C H A : Type 0} where
  abbrev pub ensure_phase : List Phase → Exec (Cellix C H A) (Unit {0})
  ensure_phase allowed c =
      if includes_phase allowed c.phase then done tt c else thrown (invalid_phase allowed c.phase) c

  -- `name == null` is `none`.
  abbrev pub add_to_registry : Service → Option String → Exec (Cellix C H A) (Unit {0})
  add_to_registry service none = do
    guard (λ c. if has_key service.class c.registry.services then false else true)
        (plain_error (String.◌++◌ "Service already registered for constructor: " service.class))
    modify (λ c. record c {
      registry = record c.registry {
        services = c.registry.services ++ (service.class, service) ∷ [];
      };
    })
  add_to_registry service (some name) = do
    guard (λ c. if has_key name c.registry.names then false else true)
        (plain_error (String.◌++◌ "Service name already registered: " name))
    modify (λ c. record c {
      registry = record c.registry { names = c.registry.names ++ (name, service) ∷ [] };
    })

  unfoldable pub register_infrastructure_service :
      Service → Option String → Exec (Cellix C H A) (Unit {0})
  register_infrastructure_service service name = do
    ensure_phase (infrastructure ∷ [])
    add_to_registry service name

  unfoldable pub set_context : (Registry → Made C) → Exec (Cellix C H A) (Unit {0})
  set_context creator = do
    ensure_phase (infrastructure ∷ [])
    modify (λ c. record c { context_creator = some creator; phase = context })

  unfoldable pub initialize_application_services : (C → Made H) → Exec (Cellix C H A) (Unit {0})
  initialize_application_services factory = do
    ensure_phase (context ∷ [])
    guard (λ c. is_set c.context_creator)
        (plain_error "Context creator must be set before initializing application services")
    modify (λ c. record c { app_services_host_builder = some factory; phase = app_services })

  unfoldable pub register_azure_function_http_handler :
      PendingHandler H A → Exec (Cellix C H A) (Unit {0})
  register_azure_function_http_handler handler = do
    ensure_phase (app_services ∷ handlers ∷ [])
    modify
        (λ c. record c { pending_handlers = c.pending_handlers ++ handler ∷ []; phase = handlers })

  abbrev pub setup_lifecycle : Cellix C H A → Cellix C H A
  setup_lifecycle c = record c {
    handlers_registered = c.handlers_registered ++ c.pending_handlers;
    hooked = true;
  }

  unfoldable pub start_up : Exec (Cellix C H A) (Unit {0})
  start_up = do
    ensure_phase (handlers ∷ app_services ∷ [])
    guard (λ c. is_set c.context_creator)
        (plain_error "Context not configured. Call setContext() first.")
    modify (λ c. record (setup_lifecycle c) { phase = started })
