-- ===== src/Bootstrap/Boot.antt =====
-- The documented sequence of calls, up to the first answers.
use cellixjs.Base.{
  append_one, append_nil, ◌≡◌, refl, ◌∙◌, sym, ap, arith, true, List, [], ◌∷◌, ◌++◌, Option, none,
  some, Exec, Outcome, done, thrown, inl, inr, ◌⊎◌, subst, state_after, ◌>>◌, pure, and_then,
  succeeds,
}
use cellixjs.Bootstrap.State.{
  infrastructure, context, app_services, handlers, started, Registry, Made, made, PendingHandler,
  Cellix, Behaviour, ServiceCall,
}
use cellixjs.Bootstrap.Methods.{is_set, get_unique_services_for_lifecycle}
use cellixjs.Bootstrap.Hooks.{host_starts, perform, app_start, handle, rejections, iterate_services}
use cellixjs.Bootstrap.Fields.{hook_keeps, app_start_keeps}
use cellixjs.Bootstrap.Chains.{
  Chain, run_chain, context_builder, azure_function_handler_registry, started_application, end,
  to_context, to_services, to_handler, to_start,
}
use cellixjs.Bootstrap.Chains.{set_context-done, initialize-done, handler-done, start-done}

abbrev pub answer_of : {S A : Type 0} → Outcome S A → Option A
answer_of (done a s) = some a
answer_of (thrown e s) = none

module _ {C H A : Type 0} where
  -- The handlers of a chain, and the calls up to `startUp`.
  abbrev pub with_handlers :
      List (PendingHandler H A) → Chain C H A azure_function_handler_registry started_application
  with_handlers [] = to_start end
  with_handlers (handler ∷ hs) = to_handler handler (with_handlers hs)

  abbrev booted : List (PendingHandler H A) → Cellix C H A → Cellix C H A
  booted hs c = record c {
    pending_handlers = hs;
    handlers_registered = c.handlers_registered ++ hs;
    hooked = true;
    phase = started;
  }

  handlers_boot :
      (hs : List (PendingHandler H A)) (c : Cellix C H A)
      → (c.phase ≡ app_services) ⊎ (c.phase ≡ handlers)
      → is_set c.context_creator ≡ true
      → run_chain (with_handlers hs) c ≡ done tt (booted (c.pending_handlers ++ hs) c)
  unfolding run_chain
  handlers_boot [] c at is =
      ap (λ o. and_then o (λ u. pure tt)) (start-done c at is)
      ∙ ap (λ ks. done tt (booted ks c)) (sym (append_nil c.pending_handlers))
  handlers_boot (h ∷ hs) c at is =
      ap (λ o. and_then o (λ u. run_chain (with_handlers hs))) (handler-done h c at)
      ∙ handlers_boot hs
          (record c { pending_handlers = c.pending_handlers ++ h ∷ []; phase = handlers })
          (inr refl) is
      ∙ ap (λ ks. done tt (booted ks c)) (append_one c.pending_handlers h hs)

  abbrev pub documented :
      (Registry → Made C)
      → (C → Made H)
      → List (PendingHandler H A)
      → Chain C H A context_builder started_application
  documented creator factory hs = to_context creator (to_services factory (with_handlers hs))

  chain_boots :
      (creator : Registry → Made C) (factory : C → Made H) (hs : List (PendingHandler H A))
      (c : Cellix C H A)
      → c.phase ≡ infrastructure
      → run_chain (documented creator factory hs) c
        ≡ done tt (
            booted (c.pending_handlers ++ hs) (record c {
              context_creator = some creator;
              app_services_host_builder = some factory;
            }))
  unfolding run_chain
  chain_boots creator factory hs c at =
      ap (λ o. and_then o (λ u. run_chain (to_services factory (with_handlers hs))))
        (set_context-done creator c at)
      ∙ ap (λ o. and_then o (λ u. run_chain (with_handlers hs)))
          (initialize-done factory (record c { context_creator = some creator; phase = context })
            refl refl)
      ∙ handlers_boot hs
          (record c {
            context_creator = some creator;
            app_services_host_builder = some factory;
            phase = app_services;
          })
          (inl refl) refl

  -- The hook on an object that has all it needs.
  hook_serves :
      (b : Behaviour) (creator : Registry → Made C) (factory : C → Made H) (x : C) (h : H)
      (c : Cellix C H A)
      → c.context_creator ≡ some creator
      → c.app_services_host_builder ≡ some factory
      → c.hooked ≡ true
      → rejections b.start_up (get_unique_services_for_lifecycle c.registry) ≡ []
      → creator c.registry ≡ made x
      → factory x ≡ made h
      → (succeeds (perform (host_starts b) c) ≡ true)
        × ((state_after (perform (host_starts b) c)).app_services_host_internal ≡ some h)
  unfolding perform app_start iterate_services
  hook_serves b creator factory x h c e1 e2 e3 e4 e5 e6 =
      (ground (arith, e1, e2, e3, e4, e5, e6), ground (arith, e1, e2, e3, e4, e5, e6))

  answers :
      (handler : PendingHandler H A) (h : H) (c : Cellix C H A)
      → c.app_services_host_internal ≡ some h
      → answer_of (handle handler c) ≡ some (handler.handler_creator h c.registry)
  answers handler h c e = ground (arith, e)

  kept_by_start :
      {T : Type 0} (field : Cellix C H A → T)
      → ((c : Cellix C H A) (x : C) → field (record c { context_internal = some x }) ≡ field c)
      → ((c : Cellix C H A) (h : H)
          → field (record c { app_services_host_internal = some h }) ≡ field c)
      → ((c : Cellix C H A) → field (record c { service_initialized = true }) ≡ field c)
      → ((c : Cellix C H A) (calls : List ServiceCall)
          → field (record c { calls = calls }) ≡ field c)
      → (b : Behaviour) (c : Cellix C H A)
      → field (state_after (perform (host_starts b) c)) ≡ field c
  unfolding perform
  kept_by_start field k1 k2 k3 k4 b c =
      hook_keeps field (app_start b) c (app_start_keeps field k1 k2 k3 k4 b c)

  -- The calls, and then the host's start.
  abbrev pub serving :
      Behaviour
      → (Registry → Made C)
      → (C → Made H)
      → List (PendingHandler H A)
      → Exec (Cellix C H A) (Unit {0})
  serving b creator factory hs = do
    run_chain (documented creator factory hs)
    perform (host_starts b)

  -- The documented sequence of calls, on an object in its first phase, puts the application
  -- together, and the host's start then brings it up: where no service fails to start, and the
  -- context creator and the factory return, there is a host of application services, and each
  -- handler that was registered answers with it.
  pub documented_sequence_serves :
      (b : Behaviour) (creator : Registry → Made C) (factory : C → Made H)
      (hs : List (PendingHandler H A)) (x : C) (h : H) (c : Cellix C H A)
      → c.phase ≡ infrastructure
      → c.pending_handlers ≡ []
      → rejections b.start_up (get_unique_services_for_lifecycle c.registry) ≡ []
      → creator c.registry ≡ made x
      → factory x ≡ made h
      → (succeeds (serving b creator factory hs c) ≡ true)
        × (((state_after (serving b creator factory hs c)).handlers_registered
              ≡ c.handlers_registered ++ hs)
            × ((handler : PendingHandler H A)
                → answer_of (handle handler (state_after (serving b creator factory hs c)))
                  ≡ some (handler.handler_creator h c.registry)))
  documented_sequence_serves b creator factory hs x h c at empty no_failure makes_context
        makes_host =
      subst Served
        (sym (
          ap (λ o. and_then o (λ u. perform (host_starts b)))
            (chain_boots creator factory hs c at
              ∙ ap (λ ps. done tt (booted (ps ++ hs) ready)) empty)))
        (
          hooked.0,
          (
            kept_by_start (λ d. d.handlers_registered) (λ d x. refl) (λ d x. refl) (λ d. refl)
                (λ d x. refl) b (booted hs ready),
            λ handler.
                answers handler h (state_after (perform (host_starts b) (booted hs ready))) hooked.1
                ∙ ap (λ r. some (handler.handler_creator h r))
                    (kept_by_start (λ d. d.registry) (λ d x. refl) (λ d x. refl) (λ d. refl)
                      (λ d x. refl) b (booted hs ready)),
          ),
        )
    where
      ready : Cellix C H A
      ready = record c { context_creator = some creator; app_services_host_builder = some factory }

      hooked :
          (succeeds (perform (host_starts b) (booted hs ready)) ≡ true)
          × ((state_after (perform (host_starts b) (booted hs ready))).app_services_host_internal
              ≡ some h)
      hooked =
          hook_serves b creator factory x h (booted hs ready) refl refl refl no_failure
            makes_context makes_host

      Served : Outcome (Cellix C H A) (Unit {0}) → Type 0
      Served o =
          (succeeds o ≡ true)
          × (((state_after o).handlers_registered ≡ c.handlers_registered ++ hs)
              × ((handler : PendingHandler H A)
                  → answer_of (handle handler (state_after o))
                    ≡ some (handler.handler_creator h c.registry)))
