-- ===== src/Bootstrap/Startup.antt =====
-- From the first call to the first answer.
use cellixjs.Base.{
  ◌≡◌, refl, ◌∙◌, sym, ap, arith, ◌≤◌, true, List, done, inl, inr, ◌⊎◌, state_after, Option-cases,
  leb,
}
use cellixjs.Bootstrap.State.{
  Phase, infrastructure, context, app_services, handlers, started, PendingHandler, Cellix,
  new_cellix,
}
use cellixjs.Bootstrap.Methods.{is_set}
use cellixjs.Bootstrap.Hooks.{
  Call, register, define_context, define_services, register_handler, start, host_starts,
  host_terminates, perform, run, app_start, app_terminate, hook, handle,
}
use cellixjs.Bootstrap.Phases.{
  Moves, set_context-Moves, initialize-Moves, handler-Moves, start-Moves, register-Moves,
}
use cellixjs.Bootstrap.Invariant.{rank, WellFormed, new-WellFormed}
use cellixjs.Bootstrap.Fields.{hook_keeps, app_start_keeps, app_terminate_keeps}
use cellixjs.Bootstrap.Started.{run-WellFormed}

only_started : (p : Phase) → leb 4 (rank p) ≡ true → p ≡ started
only_started infrastructure h = ground arith
only_started context h = ground arith
only_started app_services h = ground arith
only_started handlers h = ground arith
only_started started h = refl

module _ {C H A : Type 0} where
  -- After any calls on a new object, those that throw included, the context creator is set exactly
  -- from the phase `context` on, the factory from `app-services` on, and the hooks are registered
  -- exactly in `started`; a host of application services is there only with a context, a context
  -- only with initialized services, and these only with the hooks.
  pub history-WellFormed : (calls : List (Call C H A)) → WellFormed (run calls new_cellix)
  history-WellFormed calls = run-WellFormed calls new_cellix new-WellFormed

  has_host :
      (handler : PendingHandler H A) (a : A) (c d : Cellix C H A)
      → handle handler c ≡ done a d
      → is_set c.app_services_host_internal ≡ true
  has_host handler a c d h = elim (Option-cases c.app_services_host_internal) [
    | inl e ↦ ground (arith, e)
    | inr (host, e) ↦ ground (arith, e)
  ]

  answered :
      (handler : PendingHandler H A) (a : A) (c d : Cellix C H A)
      → WellFormed c
      → handle handler c ≡ done a d
      → (c.phase ≡ started) × (c.service_initialized ≡ true)
  answered handler a c d w h =
      let host = has_host handler a c d h in
      let ready = w.context_needs_services (w.host_needs_context host) in
      (only_started c.phase (sym w.has_hooks ∙ w.services_need_hooks ready), ready)

  -- A handler that answers a request, after any calls on a new object, does so in the phase
  -- `started` and with initialized services; before, it throws.
  pub answered_when_started :
      (handler : PendingHandler H A) (calls : List (Call C H A)) (a : A) (d : Cellix C H A)
      → handle handler (run calls new_cellix) ≡ done a d
      → ((run calls new_cellix).phase ≡ started)
        × ((run calls new_cellix).service_initialized ≡ true)
  answered_when_started handler calls a d h =
      answered handler a (run calls new_cellix) d (history-WellFormed calls) h

  forward :
      (c next after : Cellix C H A) (P : Type 0)
      → Moves c next P after
      → (P → rank c.phase ≤ rank next.phase)
      → rank c.phase ≤ rank after.phase
  forward c next after P (inl e) k = ground (arith, ap (λ (d : Cellix C H A). rank d.phase) e)
  forward c next after P (inr (p, e)) k =
      ground (arith, ap (λ (d : Cellix C H A). rank d.phase) e, k p)

  phase_after_hook :
      (c : Cellix C H A) (after : Cellix C H A)
      → after.phase ≡ c.phase
      → rank c.phase ≤ rank after.phase
  phase_after_hook c after e = ground (arith, ap rank e)

  -- No call moves an object back to an earlier phase, whether it returns or throws.
  pub phase_forward :
      (call : Call C H A) (c : Cellix C H A)
      → rank c.phase ≤ rank (state_after (perform call c)).phase
  unfolding perform
  phase_forward (register service name) c =
      forward c _ _ _ (register-Moves service name c) (λ p. ground arith)
  phase_forward (define_context creator) c =
      forward c _ _ _ (set_context-Moves creator c) (λ p. ground (arith, ap rank p))
  phase_forward (define_services factory) c =
      forward c _ _ _ (initialize-Moves factory c) (λ p. ground (arith, ap rank p.0))
  phase_forward (register_handler handler) c =
      forward c _ _ _ (handler-Moves handler c) (λ p. ready_rank c.phase p)
    where
      ready_rank : (p : Phase) → (p ≡ app_services) ⊎ (p ≡ handlers) → rank p ≤ 3
      ready_rank p (inl e) = ground (arith, ap rank e)
      ready_rank p (inr e) = ground (arith, ap rank e)
  phase_forward start c = forward c _ _ _ (start-Moves c) (λ p. ground (arith))
  phase_forward (host_starts b) c = phase_after_hook c (state_after (hook (app_start b) c)) (
      hook_keeps (λ d. d.phase) (app_start b) c
        (app_start_keeps (λ d. d.phase) (λ d x. refl) (λ d x. refl) (λ d. refl) (λ d x. refl) b c))
  phase_forward (host_terminates b) c =
      phase_after_hook c (state_after (hook (app_terminate b) c)) (
        hook_keeps (λ d. d.phase) (app_terminate b) c
          (app_terminate_keeps (λ d. d.phase) (λ d x. refl) (λ d x. refl) (λ d. refl) (λ d x. refl)
            b c))
