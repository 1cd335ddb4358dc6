-- ===== src/Bootstrap/Tests.antt =====
-- An application of two services at concrete inputs.
use cellixjs.Base.{
  ◌≡◌, refl, ℕ, true, String, List, [], ◌∷◌, ◌++◌, map, none, some, done, state_after, succeeds,
}
use cellixjs.Bootstrap.State.{
  started, Service, made, PendingHandler, Cellix, Behaviour, new_cellix, start_up_of, shut_down_of,
}
use cellixjs.Bootstrap.Methods.{
  get_infrastructure_service, register_infrastructure_service, get_unique_services_for_lifecycle,
  set_context, initialize_application_services, register_azure_function_http_handler, start_up,
  by_name,
}
use cellixjs.Bootstrap.Hooks.{
  Call, register, define_context, define_services, register_handler, start, host_starts, perform,
  run, handle, app_start, app_terminate, iterate_services,
}
use cellixjs.Bootstrap.Invariant.{WellFormed}
use cellixjs.Bootstrap.Chains.{
  Chain, infrastructure_service_registry, started_application, to_registered, to_builder,
}
use cellixjs.Bootstrap.Services.{called_once, count_id, is_registered, bit}
use cellixjs.Bootstrap.Serving.{registered_is_found}
use cellixjs.Bootstrap.Startup.{history-WellFormed, answered_when_started}
use cellixjs.Bootstrap.Boot.{documented, documented_sequence_serves, serving, answer_of}

abbrev SampleCellix : Type 0
SampleCellix = Cellix ℕ ℕ String

abbrev SampleCall : Type 0
SampleCall = Call ℕ ℕ String

abbrev blobs : Service
blobs = record { id = "s1"; class = "BlobStorage" }

abbrev tokens : Service
tokens = record { id = "s2"; class = "TokenValidation" }

abbrev hello : PendingHandler ℕ String
hello = record { name = "hello"; handler_creator = λ host registry. "hello" }

abbrev no_failure : Behaviour
no_failure = record { start_up = λ s. none; shut_down = λ s. none; first_settled = λ e es. e }

abbrev sample_calls : List SampleCall
sample_calls =
    register blobs none
    ∷ register blobs (some "archive")
    ∷ register tokens none
    ∷ start
    ∷ define_context (λ r. made 5)
    ∷ define_services (λ x. made x)
    ∷ register_handler hello
    ∷ start
    ∷ host_starts no_failure
    ∷ []

abbrev sample_application : SampleCellix
sample_application = run sample_calls new_cellix

history-WellFormed_example : WellFormed sample_application
history-WellFormed_example = history-WellFormed sample_calls

answers_hello : handle hello sample_application ≡ done "hello" sample_application
unfolding run perform register_infrastructure_service set_context initialize_application_services
    register_azure_function_http_handler start_up app_start iterate_services
    get_unique_services_for_lifecycle
answers_hello = refl

answered_when_started_example :
    (sample_application.phase ≡ started) × (sample_application.service_initialized ≡ true)
answered_when_started_example =
    answered_when_started hello sample_calls "hello" sample_application answers_hello

called_once_example :
    (services : List Service) × ((count_id "s1" services
        ≡ bit (is_registered "s1" sample_application.registry))
      × (((state_after (app_start no_failure sample_application)).calls
            ≡ sample_application.calls ++ map (λ (s : Service). start_up_of s.id) services)
          × ((state_after (app_terminate no_failure sample_application)).calls
              ≡ sample_application.calls ++ map (λ (s : Service). shut_down_of s.id) services)))
called_once_example = called_once no_failure sample_application "s1"

-- The service with two keys is started once.
started_calls : sample_application.calls ≡ start_up_of "s1" ∷ start_up_of "s2" ∷ []
unfolding run perform register_infrastructure_service set_context initialize_application_services
    register_azure_function_http_handler start_up app_start iterate_services
    get_unique_services_for_lifecycle
started_calls = refl

abbrev with_archive : SampleCellix
with_archive = state_after (register_infrastructure_service blobs (some "archive") new_cellix)

registers :
    register_infrastructure_service {C = ℕ} {H = ℕ} {A = String} blobs (some "archive") new_cellix
    ≡ done tt with_archive
unfolding register_infrastructure_service
registers = refl

registered_is_found_example :
    get_infrastructure_service (by_name "archive") (run sample_calls with_archive).registry
    ≡ made blobs
registered_is_found_example =
    registered_is_found blobs (some "archive") new_cellix with_archive sample_calls registers

abbrev sample_chain : Chain ℕ ℕ String infrastructure_service_registry started_application
sample_chain =
    to_registered blobs (some "archive")
      (to_builder (documented (λ r. made 5) (λ x. made x) (hello ∷ [])))

documented_sequence_serves_example :
    (succeeds (serving no_failure (λ r. made 5) (λ x. made x) (hello ∷ []) with_archive) ≡ true)
    × (((state_after (
            serving no_failure
              (λ r. made 5)
              (λ x. made x)
              (hello ∷ [])
              with_archive)).handlers_registered
          ≡ with_archive.handlers_registered ++ hello ∷ [])
        × ((handler : PendingHandler ℕ String)
            → answer_of (
                handle handler (
                  state_after
                    (serving no_failure (λ r. made 5) (λ x. made x) (hello ∷ []) with_archive)))
              ≡ some (handler.handler_creator 5 with_archive.registry)))
unfolding register_infrastructure_service get_unique_services_for_lifecycle
documented_sequence_serves_example =
    documented_sequence_serves no_failure (λ r. made 5) (λ x. made x) (hello ∷ []) 5 5 with_archive
      refl refl refl refl refl
