-- ===== src/Bootstrap/Services.antt =====
-- Each service gets one call, under however many names it is registered.
use cellixjs.Base.{
  ◌≡◌, refl, ◌∙◌, ap, arith, ℕ, suc, ◌+◌, Bool, true, false, ◌||◌, String, List, [], ◌∷◌, ◌++◌, map,
  Error, inl, inr, state_after, any, ◌==◌, eq_sound, if◌then◌else◌, Bool-cases,
}
use cellixjs.Bootstrap.State.{Service, Registry, Cellix, Behaviour, start_up_of, shut_down_of}
use cellixjs.Bootstrap.Methods.{add_service, add_all, get_unique_services_for_lifecycle}
use cellixjs.Bootstrap.Hooks.{
  app_start, app_terminate, iterate_services, finish_start, settle, rejections,
}
use cellixjs.Bootstrap.Fields.{finish_start_keeps}
use cellixjs.Bootstrap.Outcomes.{holds_after, done_state, settle_state}

abbrev pub has_service_id : String → Service → Bool
has_service_id id s = s.id == id

abbrev pub count_id : String → List Service → ℕ
count_id id [] = 0
count_id id (s ∷ set) = let rest = count_id id set in if s.id == id then suc rest else rest

abbrev pub bit : Bool → ℕ
bit true = 1
bit false = 0

abbrev pub entry_of : String → String × Service → Bool
entry_of id e = e.1.id == id

-- Whether the object with the id is registered, under its class or a name.
abbrev pub is_registered : String → Registry → Bool
is_registered id r = any (entry_of id) r.services || any (entry_of id) r.names

any_append :
    (p : Service → Bool) (xs : List Service) (s : Service)
    → any p (xs ++ s ∷ []) ≡ (any p xs || p s)
any_append p [] s = ground arith
any_append p (x ∷ xs) s = ground (arith, any_append p xs s)

count-append :
    (id : String) (xs : List Service) (s : Service)
    → count_id id (xs ++ s ∷ []) ≡ count_id id xs + bit (s.id == id)
count-append id [] s = ground arith
count-append id (x ∷ xs) s = ground (arith, count-append id xs s)

-- A set in which the id stands once, if at all.
abbrev Once : String → List Service → Type 0
Once id set = count_id id set ≡ bit (any (has_service_id id) set)

any-add :
    (id : String) (set : List Service) (svc : Service)
    → any (has_service_id id) (add_service set svc) ≡ (any (has_service_id id) set || svc.id == id)
any-add id set svc = go (any (has_service_id svc.id) set) refl
  where
    go :
        (b : Bool)
        → any (has_service_id svc.id) set ≡ b
        → any (has_service_id id) (if b then set else set ++ svc ∷ [])
          ≡ (any (has_service_id id) set || svc.id == id)
    go true e = elim (Bool-cases (svc.id == id)) [
      | inl h ↦ ground (arith, h, e, ap (λ i. any (has_service_id i) set) (eq_sound svc.id id h))
      | inr h ↦ ground (arith, h)
    ]
    go false e = any_append (has_service_id id) set svc

Once-add :
    (id : String) (set : List Service) (svc : Service) → Once id set → Once id (add_service set svc)
Once-add id set svc h = go (any (has_service_id svc.id) set) refl
  where
    go :
        (b : Bool)
        → any (has_service_id svc.id) set ≡ b
        → Once id (if b then set else set ++ svc ∷ [])
    go true e = h
    go false e = elim (Bool-cases (svc.id == id)) [
      | inl k ↦ ground (
        arith,
        h,
        k,
        e,
        count-append id set svc,
        any_append (has_service_id id) set svc,
        ap (λ i. any (has_service_id i) set) (eq_sound svc.id id k),
      )
      | inr k ↦
          ground (arith, h, k, count-append id set svc, any_append (has_service_id id) set svc)
    ]

Once-add_all :
    (id : String) (set : List Service) (entries : List (String × Service))
    → Once id set
    → Once id (add_all set entries)
Once-add_all id set [] h = h
Once-add_all id set ((key, svc) ∷ entries) h =
    Once-add_all id (add_service set svc) entries (Once-add id set svc h)

any-add_all :
    (id : String) (set : List Service) (entries : List (String × Service))
    → any (has_service_id id) (add_all set entries)
      ≡ (any (has_service_id id) set || any (entry_of id) entries)
any-add_all id set [] = ground arith
any-add_all id set ((key, svc) ∷ entries) =
    ground (arith, any-add_all id (add_service set svc) entries, any-add id set svc)

pub unique_once :
    (id : String) (r : Registry)
    → count_id id (get_unique_services_for_lifecycle r) ≡ bit (is_registered id r)
unfolding get_unique_services_for_lifecycle
unique_once id r =
    Once-add_all id (add_all [] r.services) r.names (Once-add_all id [] r.services refl)
    ∙ ap bit (
        ground
          (arith, any-add_all id (add_all [] r.services) r.names, any-add_all id [] r.services))

module _ {C H A : Type 0} where
  start_calls :
      (b : Behaviour) (c : Cellix C H A)
      → (state_after (app_start b c)).calls
        ≡ c.calls
          ++ map (λ (s : Service). start_up_of s.id) (get_unique_services_for_lifecycle c.registry)
  unfolding app_start iterate_services
  start_calls b c =
      holds_after (λ e. e.calls ≡ d.calls) (settle b.first_settled es d) (λ u. finish_start)
        (ap (λ (e : Cellix C H A). e.calls) (settle_state b.first_settled es d))
        (λ u e is.
          finish_start_keeps (λ (f : Cellix C H A). f.calls) (λ f x. refl) (λ f h. refl) (λ f. refl)
            e
          ∙ ap (λ (f : Cellix C H A). f.calls)
              (done_state (settle b.first_settled es d) d e u (settle_state b.first_settled es d)
                is))
    where
      d : Cellix C H A
      d = record c {
        calls =
            c.calls
            ++ map (λ (s : Service). start_up_of s.id)
                (get_unique_services_for_lifecycle c.registry);
      }

      es : List Error
      es = rejections b.start_up (get_unique_services_for_lifecycle c.registry)

  terminate_calls :
      (b : Behaviour) (c : Cellix C H A)
      → (state_after (app_terminate b c)).calls
        ≡ c.calls
          ++ map (λ (s : Service). shut_down_of s.id) (get_unique_services_for_lifecycle c.registry)
  unfolding app_terminate iterate_services
  terminate_calls b c =
      ap (λ (e : Cellix C H A). e.calls)
        (settle_state b.first_settled
          (rejections b.shut_down (get_unique_services_for_lifecycle c.registry)) _)

-- However often and under whatever keys a service is registered, the start-up hook calls it once,
-- and the hook of termination calls it once, in the same order; services that are not registered
-- get no call. All are called, also where some of them fail.
pub called_once :
    {C H A : Type 0} (b : Behaviour) (c : Cellix C H A) (id : String)
    → (services : List Service) × ((count_id id services ≡ bit (is_registered id c.registry))
        × (((state_after (app_start b c)).calls
              ≡ c.calls ++ map (λ (s : Service). start_up_of s.id) services)
            × ((state_after (app_terminate b c)).calls
                ≡ c.calls ++ map (λ (s : Service). shut_down_of s.id) services)))
called_once b c id = (
  get_unique_services_for_lifecycle c.registry,
  (unique_once id c.registry, (start_calls b c, terminate_calls b c)),
)
