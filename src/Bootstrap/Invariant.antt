-- ===== src/Bootstrap/Invariant.antt =====
-- Phases only move forward, and what an object has in each phase.
use cellixjs.Base.{
  ◌≡◌, refl, ◌∙◌, sym, ap, arith, ℕ, true, [], ◌∷◌, some, inl, inr, ◌⊎◌, subst, leb, ◌++◌,
}
use cellixjs.Bootstrap.State.{
  Phase, infrastructure, context, app_services, handlers, started, Registry, Made, PendingHandler,
  Cellix, new_cellix,
}
use cellixjs.Bootstrap.Methods.{setup_lifecycle, is_set}
use cellixjs.Bootstrap.Phases.{Moves}

-- How far a phase is.
abbrev pub rank : Phase → ℕ
rank infrastructure = 0
rank context = 1
rank app_services = 2
rank handlers = 3
rank started = 4

-- What the fields hold in a phase.
pub record WellFormed {C H A : Type 0} (c : Cellix C H A) : Type 0 where
  pub has_creator : is_set c.context_creator ≡ leb 1 (rank c.phase)
  pub has_builder : is_set c.app_services_host_builder ≡ leb 2 (rank c.phase)
  pub has_hooks : c.hooked ≡ leb 4 (rank c.phase)
  pub host_needs_context :
      is_set c.app_services_host_internal ≡ true → is_set c.context_internal ≡ true
  pub context_needs_services : is_set c.context_internal ≡ true → c.service_initialized ≡ true
  pub services_need_hooks : c.service_initialized ≡ true → c.hooked ≡ true

module _ {C H A : Type 0} where
  pub new-WellFormed : WellFormed {C = C} {H = H} {A = A} new_cellix
  new-WellFormed = record {
    has_creator = refl;
    has_builder = refl;
    has_hooks = refl;
    host_needs_context = λ h. ground arith;
    context_needs_services = λ h. ground arith;
    services_need_hooks = λ h. ground arith;
  }

  pub registry-WellFormed :
      (r : Registry) (c : Cellix C H A) → WellFormed c → WellFormed (record c { registry = r })
  registry-WellFormed r c w = record {
    has_creator = w.has_creator;
    has_builder = w.has_builder;
    has_hooks = w.has_hooks;
    host_needs_context = w.host_needs_context;
    context_needs_services = w.context_needs_services;
    services_need_hooks = w.services_need_hooks;
  }

  -- A call that leaves the object alone or changes the fields of configuration.
  pub moved :
      (c next after : Cellix C H A) (P : Type 0)
      → Moves c next P after
      → WellFormed c
      → (P → WellFormed next)
      → WellFormed after
  moved c next after P (inl e) w k = subst WellFormed (sym e) w
  moved c next after P (inr (p, e)) w k = subst WellFormed (sym e) (k p)

  pub set_context-WellFormed :
      (creator : Registry → Made C) (c : Cellix C H A)
      → WellFormed c
      → c.phase ≡ infrastructure
      → WellFormed (record c { context_creator = some creator; phase = context })
  set_context-WellFormed creator c w at = record {
    has_creator = refl;
    has_builder = w.has_builder ∙ ap (λ p. leb 2 (rank p)) at;
    has_hooks = w.has_hooks ∙ ap (λ p. leb 4 (rank p)) at;
    host_needs_context = w.host_needs_context;
    context_needs_services = w.context_needs_services;
    services_need_hooks = w.services_need_hooks;
  }

  pub initialize-WellFormed :
      (factory : C → Made H) (c : Cellix C H A)
      → WellFormed c
      → (c.phase ≡ context) × (is_set c.context_creator ≡ true)
      → WellFormed (record c { app_services_host_builder = some factory; phase = app_services })
  initialize-WellFormed factory c w (at, is) = record {
    has_creator = is;
    has_builder = refl;
    has_hooks = w.has_hooks ∙ ap (λ p. leb 4 (rank p)) at;
    host_needs_context = w.host_needs_context;
    context_needs_services = w.context_needs_services;
    services_need_hooks = w.services_need_hooks;
  }

  pub handler-WellFormed :
      (handler : PendingHandler H A) (c : Cellix C H A)
      → WellFormed c
      → (c.phase ≡ app_services) ⊎ (c.phase ≡ handlers)
      → WellFormed
          (record c { pending_handlers = c.pending_handlers ++ handler ∷ []; phase = handlers })
  handler-WellFormed handler c w at = record {
    has_creator = ground (arith, w.has_creator, at);
    has_builder = ground (arith, w.has_builder, at);
    has_hooks = ground (arith, w.has_hooks, at);
    host_needs_context = w.host_needs_context;
    context_needs_services = w.context_needs_services;
    services_need_hooks = w.services_need_hooks;
  }

  pub start-WellFormed :
      (c : Cellix C H A)
      → WellFormed c
      → (c.phase ≡ app_services) ⊎ (c.phase ≡ handlers)
      → WellFormed (record (setup_lifecycle c) { phase = started })
  start-WellFormed c w at = record {
    has_creator = ground (arith, w.has_creator, at);
    has_builder = ground (arith, w.has_builder, at);
    has_hooks = refl;
    host_needs_context = w.host_needs_context;
    context_needs_services = w.context_needs_services;
    services_need_hooks = λ h. refl;
  }
