-- ===== src/Bootstrap/Started.antt =====
-- The appStart and appTerminate hooks keep the object well formed, and so does every history of calls.
use cellixjs.Base.{
  ◌≡◌, refl, sym, Bool, true, false, List, [], ◌∷◌, some, Exec, done, Error, subst, state_after,
  map, ◌++◌,
}
use cellixjs.Bootstrap.State.{Service, Cellix, Behaviour, start_up_of, ServiceCall}
use cellixjs.Bootstrap.Methods.{get_unique_services_for_lifecycle}
use cellixjs.Bootstrap.Hooks.{
  Call, register, define_context, define_services, register_handler, start, host_starts,
  host_terminates, perform, run, iterate_services, app_start, app_terminate, settle, rejections,
  create_context, build_host, hook,
}
use cellixjs.Bootstrap.Phases.{
  set_context-Moves, initialize-Moves, handler-Moves, start-Moves, register-Moves,
}
use cellixjs.Bootstrap.Hooks.{finish_start, finish_with}
use cellixjs.Bootstrap.Invariant.{
  WellFormed, registry-WellFormed, moved, set_context-WellFormed, initialize-WellFormed,
  handler-WellFormed, start-WellFormed,
}
use cellixjs.Bootstrap.Outcomes.{
  holds_after, create_context_state, build_host_state, done_state, settle_state,
}

module _ {C H A : Type 0} where
  calls-WellFormed :
      (calls : List ServiceCall) (c : Cellix C H A)
      → WellFormed c
      → WellFormed (record c { calls = calls })
  calls-WellFormed calls c w = record {
    has_creator = w.has_creator;
    has_builder = w.has_builder;
    has_hooks = w.has_hooks;
    host_needs_context = w.host_needs_context;
    context_needs_services = w.context_needs_services;
    services_need_hooks = w.services_need_hooks;
  }

  finish_with-WellFormed :
      (x : C) (c : Cellix C H A)
      → WellFormed c
      → c.service_initialized ≡ true
      → WellFormed (state_after (finish_with x c))
  finish_with-WellFormed x c w ready =
      holds_after WellFormed (build_host d.app_services_host_builder x d)
        (λ h e. done tt (record e { app_services_host_internal = some h }))
        (subst WellFormed (sym (build_host_state d.app_services_host_builder x d)) has_context)
        (λ h e is.
          subst
            (λ (f : Cellix C H A). WellFormed (record f { app_services_host_internal = some h }))
            (sym (
              done_state (build_host d.app_services_host_builder x d) d e h
                (build_host_state d.app_services_host_builder x d) is))
            (has_host h))
    where
      d : Cellix C H A
      d = record c { context_internal = some x }

      has_context : WellFormed (record c { context_internal = some x })
      has_context = record {
        has_creator = w.has_creator;
        has_builder = w.has_builder;
        has_hooks = w.has_hooks;
        host_needs_context = λ h. refl;
        context_needs_services = λ h. ready;
        services_need_hooks = w.services_need_hooks;
      }

      has_host :
          (h : H)
          → WellFormed (record c { context_internal = some x; app_services_host_internal = some h })
      has_host h = record {
        has_creator = w.has_creator;
        has_builder = w.has_builder;
        has_hooks = w.has_hooks;
        host_needs_context = λ h. refl;
        context_needs_services = λ h. ready;
        services_need_hooks = w.services_need_hooks;
      }

  initialized-WellFormed :
      (c : Cellix C H A)
      → WellFormed c
      → c.hooked ≡ true
      → WellFormed (record c { service_initialized = true })
  initialized-WellFormed c w hooked = record {
    has_creator = w.has_creator;
    has_builder = w.has_builder;
    has_hooks = w.has_hooks;
    host_needs_context = w.host_needs_context;
    context_needs_services = λ h. refl;
    services_need_hooks = λ h. hooked;
  }

  finish_start-WellFormed :
      (c : Cellix C H A)
      → WellFormed c
      → c.hooked ≡ true
      → WellFormed (state_after (finish_start c))
  finish_start-WellFormed c w hooked =
      holds_after WellFormed (create_context d.context_creator d.registry d) finish_with
        (subst WellFormed (sym (create_context_state d.context_creator d.registry d))
          (initialized-WellFormed c w hooked))
        (λ x e is.
          subst (λ (f : Cellix C H A). WellFormed (state_after (finish_with x f)))
            (sym (
              done_state (create_context d.context_creator d.registry d) d e x
                (create_context_state d.context_creator d.registry d) is))
            (finish_with-WellFormed x (record c { service_initialized = true })
              (initialized-WellFormed c w hooked) refl))
    where
      d : Cellix C H A
      d = record c { service_initialized = true }

  app_start-WellFormed :
      (b : Behaviour) (c : Cellix C H A)
      → WellFormed c
      → c.hooked ≡ true
      → WellFormed (state_after (app_start b c))
  unfolding app_start iterate_services
  app_start-WellFormed b c w hooked =
      holds_after WellFormed (settle b.first_settled es d) (λ u. finish_start)
        (subst WellFormed (sym (settle_state b.first_settled es d)) (calls-WellFormed _ c w))
        (λ u e is.
          subst (λ (f : Cellix C H A). WellFormed (state_after (finish_start f)))
            (sym (
              done_state (settle b.first_settled es d) d e u (settle_state b.first_settled es d)
                is))
            (finish_start-WellFormed d (calls-WellFormed _ c w) hooked))
    where
      d : Cellix C H A
      d = record c {
        calls =
            c.calls
            ++ map (λ (s : Service). start_up_of s.id)
                (get_unique_services_for_lifecycle c.registry);
      }

      es : List Error
      es = rejections b.start_up (get_unique_services_for_lifecycle c.registry)

  app_terminate-WellFormed :
      (b : Behaviour) (c : Cellix C H A)
      → WellFormed c
      → WellFormed (state_after (app_terminate b c))
  unfolding app_terminate iterate_services
  app_terminate-WellFormed b c w =
      subst WellFormed
        (sym (
          settle_state b.first_settled
            (rejections b.shut_down (get_unique_services_for_lifecycle c.registry)) _))
        (calls-WellFormed _ c w)

  hook-WellFormed :
      (body : Exec (Cellix C H A) (Unit {0})) (c : Cellix C H A)
      → WellFormed c
      → (c.hooked ≡ true → WellFormed (state_after (body c)))
      → WellFormed (state_after (hook body c))
  hook-WellFormed body c w k = go c.hooked refl
    where
      go :
          (b : Bool)
          → c.hooked ≡ b
          → WellFormed (
              state_after {S = Cellix C H A} {A = Unit {0}}
                (elim b [ true ↦ body c | false ↦ done tt c ]))
      go true e = k e
      go false e = w

  pub perform-WellFormed :
      (call : Call C H A) (c : Cellix C H A)
      → WellFormed c
      → WellFormed (state_after (perform call c))
  unfolding perform
  perform-WellFormed (register service name) c w =
      moved c _ _ _ (register-Moves service name c) w (λ p. registry-WellFormed _ c w)
  perform-WellFormed (define_context creator) c w =
      moved c _ _ _ (set_context-Moves creator c) w (set_context-WellFormed creator c w)
  perform-WellFormed (define_services factory) c w =
      moved c _ _ _ (initialize-Moves factory c) w (initialize-WellFormed factory c w)
  perform-WellFormed (register_handler handler) c w =
      moved c _ _ _ (handler-Moves handler c) w (handler-WellFormed handler c w)
  perform-WellFormed start c w = moved c _ _ _ (start-Moves c) w (start-WellFormed c w)
  perform-WellFormed (host_starts b) c w =
      hook-WellFormed (app_start b) c w (app_start-WellFormed b c w)
  perform-WellFormed (host_terminates b) c w =
      hook-WellFormed (app_terminate b) c w (λ h. app_terminate-WellFormed b c w)

  -- The invariant of the bootstrap: after any calls on a new object, those that throw included, the
  -- context creator is set exactly from the phase `context` on, the factory from `app-services` on,
  -- and the hooks in `started`; a host of application services is there only with a context, a
  -- context only with initialized services, and these only with the hooks.
  pub run-WellFormed :
      (calls : List (Call C H A)) (c : Cellix C H A) → WellFormed c → WellFormed (run calls c)
  unfolding run
  run-WellFormed [] c w = w
  run-WellFormed (call ∷ calls) c w =
      run-WellFormed calls (state_after (perform call c)) (perform-WellFormed call c w)
