-- ===== src/Bootstrap/Hooks.antt =====
-- The handlers and the two hooks that `setupLifecycle` registers, and the getters.
use cellixjs.Base.{
  true, false, String, List, [], ◌∷◌, ◌++◌, map, Option, none, some, Exec, ◌>>=◌, ◌>>◌, pure, throw,
  modify, plain_error, Error, done, thrown, state_after,
}
use cellixjs.Bootstrap.State.{
  Service, Registry, Made, made, failed, PendingHandler, ServiceCall, start_up_of, shut_down_of,
  Cellix, Behaviour,
}
use cellixjs.Bootstrap.Methods.{
  get_unique_services_for_lifecycle, register_infrastructure_service, set_context,
  initialize_application_services, register_azure_function_http_handler, start_up,
}

abbrev pub rejections : (Service → Option Error) → List Service → List Error
rejections method [] = []
rejections method (svc ∷ services) =
    let rest = rejections method services in elim (method svc) [ none ↦ rest | some e ↦ e ∷ rest ]

module _ {C H A : Type 0} where
  abbrev pub context_of : Exec (Cellix C H A) C
  context_of c = elim c.context_internal [
    | none ↦ thrown (plain_error "Context not initialized") c
    | some x ↦ done x c
  ]

  abbrev pub application_services_of : Exec (Cellix C H A) H
  application_services_of c = elim c.app_services_host_internal [
    | none ↦ thrown (plain_error "Application services not initialized") c
    | some h ↦ done h c
  ]

  -- The handler that `app.http` gets.
  abbrev pub handle : PendingHandler H A → Exec (Cellix C H A) A
  handle handler c = elim c.app_services_host_internal [
    | none ↦ thrown (plain_error "Application not started yet") c
    | some host ↦ done (handler.handler_creator host c.registry) c
  ]

  abbrev pub settle : (Error → List Error → Error) → List Error → Exec (Cellix C H A) (Unit {0})
  settle first [] = pure tt
  settle first (e ∷ es) = throw (first e es)

  -- Promise.all over the services: each is called before any of them is awaited.
  unfoldable pub iterate_services :
      (String → ServiceCall)
      → (Service → Option Error)
      → (Error → List Error → Error)
      → Exec (Cellix C H A) (Unit {0})
  iterate_services call method first c =
      (do
        modify (λ d. record d {
          calls =
              d.calls
              ++ map (λ (s : Service). call s.id) (get_unique_services_for_lifecycle c.registry);
        })
        settle first (rejections method (get_unique_services_for_lifecycle c.registry)))
        c

  abbrev pub made_or_throw : {T : Type 0} → Made T → Exec (Cellix C H A) T
  made_or_throw (made t) = pure t
  made_or_throw (failed e) = throw e

  abbrev pub create_context : Option (Registry → Made C) → Registry → Exec (Cellix C H A) C
  create_context none r = throw (plain_error "Context creator missing at appStart")
  create_context (some creator) r = made_or_throw (creator r)

  abbrev pub build_host : Option (C → Made H) → C → Exec (Cellix C H A) H
  build_host none x = throw (
      plain_error
        "Application services factory not provided. Call initializeApplicationServices().")
  build_host (some builder) x = made_or_throw (builder x)

  abbrev pub finish_with : C → Exec (Cellix C H A) (Unit {0})
  finish_with x = do
    modify (λ c. record c { context_internal = some x })
    h ← (λ c. build_host c.app_services_host_builder x c)
    modify (λ c. record c { app_services_host_internal = some h })

  -- The appStart hook, after the services.
  abbrev pub finish_start : Exec (Cellix C H A) (Unit {0})
  finish_start = do
    modify (λ c. record c { service_initialized = true })
    x ← (λ c. create_context c.context_creator c.registry c)
    finish_with x

  -- The appStart hook.
  unfoldable pub app_start : Behaviour → Exec (Cellix C H A) (Unit {0})
  app_start b = do iterate_services start_up_of b.start_up b.first_settled; finish_start

  -- The appTerminate hook.
  unfoldable pub app_terminate : Behaviour → Exec (Cellix C H A) (Unit {0})
  app_terminate b = iterate_services shut_down_of b.shut_down b.first_settled

-- The calls of the application's code, and what the Azure Functions host does.
pub data Call (C H A : Type 0) : Type 0 where
  register : Service → Option String → Call C H A
  define_context : (Registry → Made C) → Call C H A
  define_services : (C → Made H) → Call C H A
  register_handler : PendingHandler H A → Call C H A
  start : Call C H A
  host_starts host_terminates : Behaviour → Call C H A

module _ {C H A : Type 0} where
  -- A hook that is not registered is not called.
  abbrev pub hook : Exec (Cellix C H A) (Unit {0}) → Exec (Cellix C H A) (Unit {0})
  hook body c = elim c.hooked [ true ↦ body c | false ↦ done tt c ]

  unfoldable pub perform : Call C H A → Exec (Cellix C H A) (Unit {0})
  perform (register service name) = register_infrastructure_service service name
  perform (define_context creator) = set_context creator
  perform (define_services factory) = initialize_application_services factory
  perform (register_handler handler) = register_azure_function_http_handler handler
  perform start = start_up
  perform (host_starts b) = hook (app_start b)
  perform (host_terminates b) = hook (app_terminate b)

  -- A call that throws leaves the object as it is then, and other calls may follow.
  unfoldable pub run : List (Call C H A) → Cellix C H A → Cellix C H A
  run [] c = c
  run (call ∷ calls) c = run calls (state_after (perform call c))
