-- ===== src/Bootstrap/Fields.antt =====
-- The fields that the hooks do not write stay.
use cellixjs.Base.{
  ◌≡◌, refl, ◌∙◌, ap, Bool, true, false, List, ◌++◌, map, some, Exec, done, Error, state_after,
}
use cellixjs.Bootstrap.State.{Service, Cellix, Behaviour, ServiceCall, start_up_of}
use cellixjs.Bootstrap.Methods.{get_unique_services_for_lifecycle}
use cellixjs.Bootstrap.Hooks.{
  hook, app_start, app_terminate, iterate_services, finish_start, finish_with, create_context,
  build_host, settle, rejections,
}
use cellixjs.Bootstrap.Outcomes.{
  holds_after, done_state, create_context_state, build_host_state, settle_state,
}

module _ {C H A T : Type 0} (field : Cellix C H A → T)
    (of_context : (c : Cellix C H A) (x : C)
      → field (record c { context_internal = some x }) ≡ field c)
    (of_host : (c : Cellix C H A) (h : H)
      → field (record c { app_services_host_internal = some h }) ≡ field c) where
  finish_with_keeps : (x : C) (c : Cellix C H A) → field (state_after (finish_with x c)) ≡ field c
  finish_with_keeps x c =
      holds_after (λ e. field e ≡ field c) (build_host d.app_services_host_builder x d)
        (λ h e. done tt (record e { app_services_host_internal = some h }))
        (ap field (build_host_state d.app_services_host_builder x d) ∙ of_context c x)
        (λ h e is.
          of_host e h
          ∙ ap field (
              done_state (build_host d.app_services_host_builder x d) d e h
                (build_host_state d.app_services_host_builder x d) is)
          ∙ of_context c x)
    where
      d : Cellix C H A
      d = record c { context_internal = some x }

  module _
      (of_services : (c : Cellix C H A)
        → field (record c { service_initialized = true }) ≡ field c) where
    pub finish_start_keeps : (c : Cellix C H A) → field (state_after (finish_start c)) ≡ field c
    finish_start_keeps c =
        holds_after (λ e. field e ≡ field c) (create_context d.context_creator d.registry d)
          finish_with
          (ap field (create_context_state d.context_creator d.registry d) ∙ of_services c)
          (λ x e is.
            finish_with_keeps x e
            ∙ ap field (
                done_state (create_context d.context_creator d.registry d) d e x
                  (create_context_state d.context_creator d.registry d) is)
            ∙ of_services c)
      where
        d : Cellix C H A
        d = record c { service_initialized = true }

    module _
        (of_calls : (c : Cellix C H A) (calls : List ServiceCall)
          → field (record c { calls = calls }) ≡ field c) where
      pub app_start_keeps :
          (b : Behaviour) (c : Cellix C H A) → field (state_after (app_start b c)) ≡ field c
      unfolding app_start iterate_services
      app_start_keeps b c =
          holds_after (λ e. field e ≡ field c) (settle b.first_settled es d) (λ u. finish_start)
            (ap field (settle_state b.first_settled es d) ∙ of_calls c _)
            (λ u e is.
              finish_start_keeps e
              ∙ ap field (
                  done_state (settle b.first_settled es d) d e u (settle_state b.first_settled es d)
                    is)
              ∙ of_calls c _)
        where
          d : Cellix C H A
          d = record c {
            calls =
                c.calls
                ++ map (λ (s : Service). start_up_of s.id)
                    (get_unique_services_for_lifecycle c.registry);
          }

          es : List Error
          es = rejections b.start_up (get_unique_services_for_lifecycle c.registry)

      pub app_terminate_keeps :
          (b : Behaviour) (c : Cellix C H A) → field (state_after (app_terminate b c)) ≡ field c
      unfolding app_terminate iterate_services
      app_terminate_keeps b c =
          ap field (
            settle_state b.first_settled
              (rejections b.shut_down (get_unique_services_for_lifecycle c.registry)) _)
          ∙ of_calls c _

-- A hook keeps what its body keeps.
pub hook_keeps :
    {C H A T : Type 0} (field : Cellix C H A → T) (body : Exec (Cellix C H A) (Unit {0}))
    (c : Cellix C H A)
    → field (state_after (body c)) ≡ field c
    → field (state_after (hook body c)) ≡ field c
hook_keeps {C = C} {H = H} {A = A} field body c h = go c.hooked
  where
    go :
        (b : Bool)
        → field (
            state_after {S = Cellix C H A} {A = Unit {0}}
              (elim b [ true ↦ body c | false ↦ done tt c ]))
          ≡ field c
    go true = h
    go false = refl
