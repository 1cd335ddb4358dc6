-- ===== src/Queue/Lifecycle.antt =====
-- The lifecycle of the service: it has a client exactly while it is started.
use cellixjs.Base.{
  ◌≡◌, refl, ◌∙◌, sym, ap, arith, Bool, true, false, String, List, [], ◌∷◌, Option, none, some,
  or_else, done, Option-cases, Bool-cases, inl, inr, state_after,
}
use cellixjs.Queue.State.{
  QueueService, Platform, LoggerSource, custom_logger, blob_storage, QueueLoggingConfig,
}
use cellixjs.Queue.Service.{disable_logging, enable_logging, has_container}
use cellixjs.Queue.Sending.{send_message, Message, SendMessageOptions}
use cellixjs.Queue.Contexts.{
  QueueDefinition, QueueTriggerMetadata, send_to_queue, receive_from_queue, resolve_logging_fields,
  message_for,
}
use cellixjs.Queue.State.{Client, from_connection_string, Mode, shared_key, managed_identity}
use cellixjs.Queue.Service.{
  create_queue_if_not_exists, connect, start_in, start_up, shut_down, next_config,
}
use cellixjs.Queue.Fields.{create_keeps, provision_keeps, send_keeps, consume_keeps}

-- The calls that a client, a producer and a consumer make.
pub data Call (P : Type 0) : Type 0 where
  enable : LoggerSource → Option QueueLoggingConfig → Call P
  disable start stop : Call P
  create_queue : String → Call P
  produce : QueueDefinition P → P → Call P
  consume : QueueDefinition P → P → Option QueueTriggerMetadata → Call P
  send : String → Message P → SendMessageOptions → Call P

module _ {P : Type 0} (platform : Platform P) where
  unfoldable pub run : List (Call P) → QueueService P → QueueService P
  run [] s = s
  run (enable source config ∷ calls) s =
      run calls (state_after (enable_logging platform source config s))
  run (disable ∷ calls) s = run calls (state_after (disable_logging platform s))
  run (start ∷ calls) s = run calls (state_after (start_up platform s))
  run (stop ∷ calls) s = run calls (state_after (shut_down platform s))
  run (create_queue queue ∷ calls) s =
      run calls (state_after (create_queue_if_not_exists platform queue s))
  run (produce def payload ∷ calls) s =
      run calls (state_after (send_to_queue platform def payload s))
  run (consume def payload metadata ∷ calls) s =
      run calls (state_after (receive_from_queue platform def payload metadata s))
  run (send queue message opts ∷ calls) s =
      run calls (state_after (send_message platform queue message opts s))

  abbrev pub has_client : Option Client → Bool
  has_client none = false
  has_client (some c) = true

  -- The two fields that the lifecycle writes.
  abbrev link : QueueService P → Bool × Option Client
  link s = (s.started, s.queue_service_client)

  abbrev pub IsConnected : QueueService P → Type 0
  IsConnected s = s.started ≡ has_client s.queue_service_client

  linked : (s t : QueueService P) → link t ≡ link s → IsConnected s → IsConnected t
  linked s t e h = ap (λ l. l.0) e ∙ h ∙ ap (λ l. has_client l.1) (sym e)

  enable_link :
      (source : LoggerSource) (config : Option QueueLoggingConfig) (s : QueueService P)
      → link (state_after (enable_logging platform source config s)) ≡ link s
  unfolding enable_logging
  enable_link (custom_logger id) config s = refl
  enable_link (blob_storage id) config s =
      elim (Bool-cases (has_container platform (some (next_config platform config s)))) [
        | inl e ↦ ground (arith, e)
        | inr e ↦ ground (arith, e)
      ]

  disabled :
      (s : QueueService P) → IsConnected s → IsConnected (state_after (disable_logging platform s))
  unfolding disable_logging
  disabled s h = h

  start_in-IsConnected :
      (mode : Option Mode) (s : QueueService P)
      → IsConnected s
      → IsConnected (state_after (start_in platform mode s))
  start_in-IsConnected none s h = h
  start_in-IsConnected (some shared_key) s h =
      linked (connect platform (from_connection_string (or_else s.options.connection_string "")) s)
        (state_after (start_in platform (some shared_key) s))
        (provision_keeps platform link (λ t x. refl) (λ t x. refl) (λ t x. refl)
          (or_else s.options.connection_string "") s.options.provision_queues
          (connect platform (from_connection_string (or_else s.options.connection_string "")) s))
        refl
  start_in-IsConnected (some managed_identity) s h = refl

  start_up-IsConnected :
      (s : QueueService P) → IsConnected s → IsConnected (state_after (start_up platform s))
  unfolding start_up
  start_up-IsConnected s h = go s.started
    where
      go :
          (b : Bool)
          → IsConnected (
              state_after {S = QueueService P} {A = Unit {0}}
                (elim b [ true ↦ done tt s | false ↦ start_in platform s.inferred_mode s ]))
      go true = h
      go false = start_in-IsConnected s.inferred_mode s h

  shut_down-IsConnected :
      (s : QueueService P) → IsConnected s → IsConnected (state_after (shut_down platform s))
  unfolding shut_down
  shut_down-IsConnected s h = go s.queue_service_client
    where
      go :
          (o : Option Client)
          → IsConnected (
              state_after {S = QueueService P} {A = Unit {0}} (elim o [
                | none ↦ done tt s
                | some client ↦ done tt (record s { queue_service_client = none; started = false })
              ]))
      go none = h
      go (some c) = refl

  produce_link :
      (def : QueueDefinition P) (payload : P) (s : QueueService P)
      → link (state_after (send_to_queue platform def payload s)) ≡ link s
  unfolding send_to_queue
  produce_link def payload s = elim (Option-cases (def.validate payload)) [
    | inl e ↦ ground (
      arith,
      e,
      send_keeps platform link (λ t x. refl) (λ t x. refl) (λ t x. refl) def.queue_name
          (message_for platform payload)
          (record {
            visibility_timeout_seconds = none;
            logging_direction = some "outbound";
            logging_tags = resolve_logging_fields platform def.logging_tags payload;
            logging_metadata = resolve_logging_fields platform def.logging_metadata payload;
          })
          s,
    )
    | inr (errors, e) ↦ ground (arith, e)
  ]

  -- After any calls on a connected service, whether they return or throw, it has a client of the
  -- queue storage exactly while it is started.
  pub run-IsConnected :
      (calls : List (Call P)) (s : QueueService P) → IsConnected s → IsConnected (run calls s)
  unfolding run
  run-IsConnected [] s h = h
  run-IsConnected (enable source config ∷ calls) s h = run-IsConnected calls _ (
      linked s (state_after (enable_logging platform source config s)) (enable_link source config s)
        h)
  run-IsConnected (disable ∷ calls) s h = run-IsConnected calls _ (disabled s h)
  run-IsConnected (start ∷ calls) s h = run-IsConnected calls _ (start_up-IsConnected s h)
  run-IsConnected (stop ∷ calls) s h = run-IsConnected calls _ (shut_down-IsConnected s h)
  run-IsConnected (create_queue queue ∷ calls) s h = run-IsConnected calls _ (
      linked s (state_after (create_queue_if_not_exists platform queue s))
        (create_keeps platform link (λ t x. refl) (λ t x. refl) (λ t x. refl) queue s) h)
  run-IsConnected (produce def payload ∷ calls) s h =
      run-IsConnected calls _ (
        linked s (state_after (send_to_queue platform def payload s)) (produce_link def payload s)
          h)
  run-IsConnected (consume def payload metadata ∷ calls) s h = run-IsConnected calls _ (
      linked s (state_after (receive_from_queue platform def payload metadata s))
        (consume_keeps platform link (λ t x. refl) (λ t x. refl) (λ t x. refl) def payload metadata
          s)
        h)
  run-IsConnected (send queue message opts ∷ calls) s h = run-IsConnected calls _ (
      linked s (state_after (send_message platform queue message opts s))
        (send_keeps platform link (λ t x. refl) (λ t x. refl) (λ t x. refl) queue message opts s) h)
