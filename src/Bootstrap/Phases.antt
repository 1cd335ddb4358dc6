-- ===== src/Bootstrap/Phases.antt =====
-- In which phases the calls of configuration do something, and what.
use cellixjs.Base.{
  ◌≡◌, refl, arith, Bool, true, false, String, [], ◌∷◌, Option, none, some, Bool-cases, inl, inr,
  ◌⊎◌, state_after, ◌++◌,
}
use cellixjs.Bootstrap.State.{
  Phase, infrastructure, context, app_services, handlers, started, Service, Registry, Made,
  PendingHandler, Cellix,
}
use cellixjs.Bootstrap.Methods.{
  register_infrastructure_service, has_key, set_context, initialize_application_services,
  register_azure_function_http_handler, start_up, setup_lifecycle, is_set, includes_phase,
}

pub is_infrastructure :
    (p : Phase) → includes_phase (infrastructure ∷ []) p ≡ true → p ≡ infrastructure
is_infrastructure infrastructure h = refl
is_infrastructure context h = ground arith
is_infrastructure app_services h = ground arith
is_infrastructure handlers h = ground arith
is_infrastructure started h = ground arith

pub is_context : (p : Phase) → includes_phase (context ∷ []) p ≡ true → p ≡ context
is_context infrastructure h = ground arith
is_context context h = refl
is_context app_services h = ground arith
is_context handlers h = ground arith
is_context started h = ground arith

pub is_ready :
    (p : Phase)
    → includes_phase (app_services ∷ handlers ∷ []) p ≡ true
    → (p ≡ app_services) ⊎ (p ≡ handlers)
is_ready infrastructure h = ground arith
is_ready context h = ground arith
is_ready app_services h = inl refl
is_ready handlers h = inr refl
is_ready started h = ground arith

pub is_startable :
    (p : Phase)
    → includes_phase (handlers ∷ app_services ∷ []) p ≡ true
    → (p ≡ app_services) ⊎ (p ≡ handlers)
is_startable infrastructure h = ground arith
is_startable context h = ground arith
is_startable app_services h = inl refl
is_startable handlers h = inr refl
is_startable started h = ground arith

abbrev pub entered : Service → Option String → Registry → Registry
entered service none r = record r { services = r.services ++ (service.class, service) ∷ [] }
entered service (some name) r = record r { names = r.names ++ (name, service) ∷ [] }

abbrev pub is_taken : Service → Option String → Registry → Bool
is_taken service none r = has_key service.class r.services
is_taken service (some name) r = has_key name r.names

module _ {C H A : Type 0} where
  -- Either a call has left the object alone, or it found it in the right phase.
  abbrev pub Moves : Cellix C H A → Cellix C H A → Type 0 → Cellix C H A → Type 0
  Moves c next P after = (after ≡ c) ⊎ (P × (after ≡ next))

  pub set_context-Moves :
      (creator : Registry → Made C) (c : Cellix C H A)
      → Moves c
          (record c { context_creator = some creator; phase = context })
          (c.phase ≡ infrastructure)
          (state_after (set_context creator c))
  unfolding set_context
  set_context-Moves creator c = elim (Bool-cases (includes_phase (infrastructure ∷ []) c.phase)) [
    | inl e ↦ inr (is_infrastructure c.phase e, ground (arith, e))
    | inr e ↦ inl (ground (arith, e))
  ]

  pub initialize-Moves :
      (factory : C → Made H) (c : Cellix C H A)
      → Moves c
          (record c { app_services_host_builder = some factory; phase = app_services })
          ((c.phase ≡ context) × (is_set c.context_creator ≡ true))
          (state_after (initialize_application_services factory c))
  unfolding initialize_application_services
  initialize-Moves factory c = elim (Bool-cases (includes_phase (context ∷ []) c.phase)) [
    | inl e ↦ elim (Bool-cases (is_set c.context_creator)) [
      | inl h ↦ inr ((is_context c.phase e, h), ground (arith, e, h))
      | inr h ↦ inl (ground (arith, e, h))
    ]
    | inr e ↦ inl (ground (arith, e))
  ]

  pub handler-Moves :
      (handler : PendingHandler H A) (c : Cellix C H A)
      → Moves c
          (record c { pending_handlers = c.pending_handlers ++ handler ∷ []; phase = handlers })
          ((c.phase ≡ app_services) ⊎ (c.phase ≡ handlers))
          (state_after (register_azure_function_http_handler handler c))
  unfolding register_azure_function_http_handler
  handler-Moves handler c =
      elim (Bool-cases (includes_phase (app_services ∷ handlers ∷ []) c.phase)) [
        | inl e ↦ inr (is_ready c.phase e, ground (arith, e))
        | inr e ↦ inl (ground (arith, e))
      ]

  pub start-Moves :
      (c : Cellix C H A)
      → Moves c
          (record (setup_lifecycle c) { phase = started })
          ((c.phase ≡ app_services) ⊎ (c.phase ≡ handlers))
          (state_after (start_up c))
  unfolding start_up
  start-Moves c = elim (Bool-cases (includes_phase (handlers ∷ app_services ∷ []) c.phase)) [
    | inl e ↦ elim (Bool-cases (is_set c.context_creator)) [
      | inl h ↦ inr (is_startable c.phase e, ground (arith, e, h))
      | inr h ↦ inl (ground (arith, e, h))
    ]
    | inr e ↦ inl (ground (arith, e))
  ]

  pub register-Moves :
      (service : Service) (name : Option String) (c : Cellix C H A)
      → Moves c
          (record c { registry = entered service name c.registry })
          ((c.phase ≡ infrastructure) × (is_taken service name c.registry ≡ false))
          (state_after (register_infrastructure_service service name c))
  unfolding register_infrastructure_service
  register-Moves service none c = elim (Bool-cases (includes_phase (infrastructure ∷ []) c.phase)) [
    | inl e ↦ elim (Bool-cases (has_key service.class c.registry.services)) [
      | inl h ↦ inl (ground (arith, e, h))
      | inr h ↦ inr ((is_infrastructure c.phase e, h), ground (arith, e, h))
    ]
    | inr e ↦ inl (ground (arith, e))
  ]
  register-Moves service (some name) c =
      elim (Bool-cases (includes_phase (infrastructure ∷ []) c.phase)) [
        | inl e ↦ elim (Bool-cases (has_key name c.registry.names)) [
          | inl h ↦ inl (ground (arith, e, h))
          | inr h ↦ inr ((is_infrastructure c.phase e, h), ground (arith, e, h))
        ]
        | inr e ↦ inl (ground (arith, e))
      ]
