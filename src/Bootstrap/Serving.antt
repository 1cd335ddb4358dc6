-- ===== src/Bootstrap/Serving.antt =====
-- What an application that was put together serves: registered services, and answers to requests.
use cellixjs.Base.{
  ◌≡◌, refl, sym, ap, arith, false, String, List, [], ◌∷◌, ◌++◌, Option, none, some, done, inl, inr,
  subst, state_after, lookup, eq_refl,
}
use cellixjs.Bootstrap.State.{Service, Registry, made, Cellix}
use cellixjs.Bootstrap.Methods.{
  Key, by_constructor, by_name, found, get_infrastructure_service, has_key,
  register_infrastructure_service,
}
use cellixjs.Bootstrap.Hooks.{
  Call, register, define_context, define_services, register_handler, start, host_starts,
  host_terminates, perform, run, app_start, app_terminate,
}
use cellixjs.Bootstrap.Phases.{
  Moves, set_context-Moves, initialize-Moves, handler-Moves, start-Moves, register-Moves, entered,
}
use cellixjs.Bootstrap.Fields.{hook_keeps, app_start_keeps, app_terminate_keeps}

lookup_append :
    (key : String) (entries : List (String × Service)) (e : String × Service) (svc : Service)
    → lookup key entries ≡ some svc
    → lookup key (entries ++ e ∷ []) ≡ some svc
lookup_append key [] e svc h = ground arith
lookup_append key (x ∷ entries) e svc h = ground (arith, lookup_append key entries e svc)

lookup_new :
    (key : String) (entries : List (String × Service)) (svc : Service)
    → has_key key entries ≡ false
    → lookup key (entries ++ (key, svc) ∷ []) ≡ some svc
lookup_new key [] svc h = ground (arith, eq_refl key)
lookup_new key (x ∷ entries) svc h = ground (arith, lookup_new key entries svc)

found-made :
    (name : String) (o : Option Service) (svc : Service) → found name o ≡ made svc → o ≡ some svc
found-made name none svc h = ground arith
found-made name (some s) svc h = ground arith

-- The key that a service is registered under.
abbrev pub key_of : Service → Option String → Key
key_of service none = by_constructor service.class
key_of service (some name) = by_name name

abbrev Finds : Key → Service → Registry → Type 0
Finds key svc r = get_infrastructure_service key r ≡ made svc

entered_keeps :
    (key : Key) (svc service : Service) (name : Option String) (r : Registry)
    → Finds key svc r
    → Finds key svc (entered service name r)
entered_keeps (by_constructor k) svc service none r h =
    ap (found k) (lookup_append k r.services _ svc (found-made k (lookup k r.services) svc h))
entered_keeps (by_constructor k) svc service (some name) r h = h
entered_keeps (by_name k) svc service none r h = h
entered_keeps (by_name k) svc service (some name) r h =
    ap (found k) (lookup_append k r.names _ svc (found-made k (lookup k r.names) svc h))

module _ {C H A : Type 0} where
  moved_keeps :
      (c next after : Cellix C H A) (P : Type 0) (key : Key) (svc : Service)
      → Moves c next P after
      → Finds key svc c.registry
      → Finds key svc next.registry
      → Finds key svc after.registry
  moved_keeps c next after P key svc (inl e) h k =
      subst (λ (d : Cellix C H A). Finds key svc d.registry) (sym e) h
  moved_keeps c next after P key svc (inr (p, e)) h k =
      subst (λ (d : Cellix C H A). Finds key svc d.registry) (sym e) k

  perform_keeps :
      (call : Call C H A) (c : Cellix C H A) (key : Key) (svc : Service)
      → Finds key svc c.registry
      → Finds key svc (state_after (perform call c)).registry
  unfolding perform
  perform_keeps (register service name) c key svc h =
      moved_keeps c _ _ _ key svc (register-Moves service name c) h
        (entered_keeps key svc service name c.registry h)
  perform_keeps (define_context creator) c key svc h =
      moved_keeps c _ _ _ key svc (set_context-Moves creator c) h h
  perform_keeps (define_services factory) c key svc h =
      moved_keeps c _ _ _ key svc (initialize-Moves factory c) h h
  perform_keeps (register_handler handler) c key svc h =
      moved_keeps c _ _ _ key svc (handler-Moves handler c) h h
  perform_keeps start c key svc h = moved_keeps c _ _ _ key svc (start-Moves c) h h
  perform_keeps (host_starts b) c key svc h =
      subst (Finds key svc)
        (sym (
          hook_keeps (λ d. d.registry) (app_start b) c
            (app_start_keeps (λ d. d.registry) (λ d x. refl) (λ d x. refl) (λ d. refl) (λ d x. refl)
              b c)))
        h
  perform_keeps (host_terminates b) c key svc h =
      subst (Finds key svc)
        (sym (
          hook_keeps (λ d. d.registry) (app_terminate b) c
            (app_terminate_keeps (λ d. d.registry) (λ d x. refl) (λ d x. refl) (λ d. refl)
              (λ d x. refl) b c)))
        h

  pub run_keeps :
      (calls : List (Call C H A)) (c : Cellix C H A) (key : Key) (svc : Service)
      → Finds key svc c.registry
      → Finds key svc (run calls c).registry
  unfolding run
  run_keeps [] c key svc h = h
  run_keeps (call ∷ calls) c key svc h =
      run_keeps calls (state_after (perform call c)) key svc (perform_keeps call c key svc h)

  register-Finds :
      (service : Service) (name : Option String) (c d : Cellix C H A)
      → register_infrastructure_service service name c ≡ done tt d
      → Finds (key_of service name) service d.registry
  unfolding register_infrastructure_service
  register-Finds service none c d h =
      ground (arith, lookup_new service.class c.registry.services service)
  register-Finds service (some name) c d h =
      ground (arith, lookup_new name c.registry.names service)

  -- A service whose registration returns is what `getInfrastructureService` gives for its class, or
  -- for the name that it was registered with, after any further calls; no call replaces it.
  pub registered_is_found :
      (service : Service) (name : Option String) (c d : Cellix C H A) (calls : List (Call C H A))
      → register_infrastructure_service service name c ≡ done tt d
      → get_infrastructure_service (key_of service name) (run calls d).registry ≡ made service
  registered_is_found service name c d calls h =
      run_keeps calls d (key_of service name) service (register-Finds service name c d h)
