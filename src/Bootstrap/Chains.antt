-- ===== src/Bootstrap/Chains.antt =====
-- The interfaces InfrastructureServiceRegistry, ContextBuilder, ApplicationServicesInitializer,
-- AzureFunctionHandlerRegistry and StartedApplication: each method returns the interface whose
-- methods may be called next.
use cellixjs.Base.{
  ◌≡◌, ap, arith, true, String, Option, some, [], ◌∷◌, ◌++◌, Exec, done, inl, inr, ◌⊎◌, ◌>>=◌, ◌>>◌,
  pure, throw,
}
use cellixjs.Bootstrap.State.{
  infrastructure, context, app_services, handlers, started, Service, Registry, Made, made, failed,
  PendingHandler, Cellix,
}
use cellixjs.Bootstrap.Methods.{
  register_infrastructure_service, set_context, initialize_application_services,
  register_azure_function_http_handler, start_up, is_set, setup_lifecycle, includes_phase, Key,
  get_infrastructure_service,
}
use cellixjs.Bootstrap.Hooks.{context_of}

pub data Interface : Type 0 where
  infrastructure_service_registry context_builder application_services_initializer
        azure_function_handler_registry started_application :
      Interface

-- A chain of calls that the types let through, from one interface to another.
pub data Chain (C H A : Type 0) : Interface → Interface → Type 0 where
  end : {i : Interface} → Chain C H A i i
  to_registered :
      {j : Interface}
      → Service
      → Option String
      → Chain C H A infrastructure_service_registry j
      → Chain C H A infrastructure_service_registry j
  -- initializeInfrastructureServices, when its callback has returned.
  to_builder :
      {j : Interface}
      → Chain C H A context_builder j
      → Chain C H A infrastructure_service_registry j
  to_context :
      {j : Interface}
      → (Registry → Made C)
      → Chain C H A application_services_initializer j
      → Chain C H A context_builder j
  to_services :
      {j : Interface}
      → (C → Made H)
      → Chain C H A azure_function_handler_registry j
      → Chain C H A application_services_initializer j
  to_handler :
      {j : Interface}
      → PendingHandler H A
      → Chain C H A azure_function_handler_registry j
      → Chain C H A azure_function_handler_registry j
  to_start :
      {j : Interface}
      → Chain C H A started_application j
      → Chain C H A azure_function_handler_registry j
  to_service :
      {j : Interface} → Key → Chain C H A started_application j → Chain C H A started_application j
  to_context_value to_services_initialized :
      {j : Interface} → Chain C H A started_application j → Chain C H A started_application j

-- What a service that is asked for answers.
abbrev pub looked_up : {S : Type 0} → Made Service → Exec S (Unit {0})
looked_up (made service) = pure tt
looked_up (failed e) = throw e

module _ {C H A : Type 0} where
  abbrev pub ask_service : Key → Exec (Cellix C H A) (Unit {0})
  ask_service key c = looked_up (get_infrastructure_service key c.registry) c

  unfoldable pub run_chain : {i j : Interface} → Chain C H A i j → Exec (Cellix C H A) (Unit {0})
  run_chain end = pure tt
  run_chain (to_registered service name rest) = do
    register_infrastructure_service service name
    run_chain rest
  run_chain (to_builder rest) = run_chain rest
  run_chain (to_context creator rest) = do set_context creator; run_chain rest
  run_chain (to_services factory rest) = do initialize_application_services factory; run_chain rest
  run_chain (to_handler handler rest) = do
    register_azure_function_http_handler handler
    run_chain rest
  run_chain (to_start rest) = do start_up; run_chain rest
  run_chain (to_service key rest) = do ask_service key; run_chain rest
  run_chain (to_context_value rest) = do x ← context_of; run_chain rest
  run_chain (to_services_initialized rest) = run_chain rest

  -- What an object is like that is given out under an interface.
  abbrev pub Offers : Interface → Cellix C H A → Type 0
  Offers infrastructure_service_registry c = c.phase ≡ infrastructure
  Offers context_builder c = c.phase ≡ infrastructure
  Offers application_services_initializer c =
      (c.phase ≡ context) × (is_set c.context_creator ≡ true)
  Offers azure_function_handler_registry c =
      ((c.phase ≡ app_services) ⊎ (c.phase ≡ handlers)) × (is_set c.context_creator ≡ true)
  Offers started_application c = c.phase ≡ started

  pub set_context-done :
      (creator : Registry → Made C) (c : Cellix C H A)
      → c.phase ≡ infrastructure
      → set_context creator c
        ≡ done tt (record c { context_creator = some creator; phase = context })
  unfolding set_context
  set_context-done creator c h = ground (arith, ap (includes_phase (infrastructure ∷ [])) h)

  pub initialize-done :
      (factory : C → Made H) (c : Cellix C H A)
      → c.phase ≡ context
      → is_set c.context_creator ≡ true
      → initialize_application_services factory c
        ≡ done tt (record c { app_services_host_builder = some factory; phase = app_services })
  unfolding initialize_application_services
  initialize-done factory c h k = ground (arith, ap (includes_phase (context ∷ [])) h, k)

  pub handler-done :
      (handler : PendingHandler H A) (c : Cellix C H A)
      → (c.phase ≡ app_services) ⊎ (c.phase ≡ handlers)
      → register_azure_function_http_handler handler c
        ≡ done tt
            (record c { pending_handlers = c.pending_handlers ++ handler ∷ []; phase = handlers })
  unfolding register_azure_function_http_handler
  handler-done handler c (inl h) =
      ground (arith, ap (includes_phase (app_services ∷ handlers ∷ [])) h)
  handler-done handler c (inr h) =
      ground (arith, ap (includes_phase (app_services ∷ handlers ∷ [])) h)

  pub start-done :
      (c : Cellix C H A)
      → (c.phase ≡ app_services) ⊎ (c.phase ≡ handlers)
      → is_set c.context_creator ≡ true
      → start_up c ≡ done tt (record (setup_lifecycle c) { phase = started })
  unfolding start_up
  start-done c (inl h) k = ground (arith, ap (includes_phase (handlers ∷ app_services ∷ [])) h, k)
  start-done c (inr h) k = ground (arith, ap (includes_phase (handlers ∷ app_services ∷ [])) h, k)
