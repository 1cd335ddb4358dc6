-- ===== src/Queue/Service.antt =====
-- internal-queue-storage-service.ts: the constructor, the logging switches, the lifecycle.
use Prim.Native.String
use cellixjs.Base.{
  Bool, true, false, not, ◌||◌, String, List, [], ◌∷◌, ◌++◌, Option, none, some, or_else, ◌==◌,
  Exec, ◌>>=◌, ◌>>◌, pure, throw, modify, guard, plain_error, Error, if◌then◌else◌, done, thrown,
  state_after,
}
use cellixjs.Queue.State.{
  QueueLoggingConfig, LoggerSource, custom_logger, blob_storage, Logger, custom, blob,
  QueueStorageConfig, Mode, shared_key, managed_identity, Client, from_connection_string,
  with_credential, QueueService, Platform,
}

-- `if (s)` for a text that may be undefined.
abbrev pub is_truthy : Option String → Bool
is_truthy none = false
is_truthy (some s) = not (s == "")

abbrev pub default_config : QueueLoggingConfig
default_config = record { enabled = true; container = ""; awaited = false }

-- `a ?? b` where both may be undefined.
abbrev pub either_config :
    Option QueueLoggingConfig → Option QueueLoggingConfig → Option QueueLoggingConfig
either_config none b = b
either_config (some a) b = some a

module _ {P : Type 0} (platform : Platform P) where
  abbrev pub has_container : Option QueueLoggingConfig → Bool
  has_container none = false
  has_container (some c) = not (platform.trim c.container == "")

  abbrev pub container_of : Option QueueLoggingConfig → String
  container_of none = ""
  container_of (some c) = c.container

  abbrev pub resolve_logger :
      LoggerSource → Option QueueLoggingConfig → Exec (QueueService P) Logger
  resolve_logger (custom_logger id) config = pure (custom id)
  resolve_logger (blob_storage id) config = do
    guard (λ s. has_container config)
        (plain_error "Provide logging.container when enabling blob-backed queue logging")
    pure (blob id (container_of config))

  abbrev pub set_first_logger : QueueStorageConfig → Exec (QueueService P) (Unit {0})
  set_first_logger options s = elim options.logger [
    | none ↦ done tt s
    | some source ↦
        (do
          logger ← resolve_logger source options.logging
          modify (λ t. record t { logger = some logger }))
          s
  ]

  abbrev pub infer_mode : QueueStorageConfig → Option Mode
  infer_mode options =
      if is_truthy options.connection_string
      then some shared_key
      else (if is_truthy options.account_name then some managed_identity else none)

  -- The constructor, on an object whose fields have their first values.
  unfoldable pub construct_service : Exec (QueueService P) (Unit {0})
  construct_service = do
    (λ s. set_first_logger s.options s)
    modify (λ s. record s { inferred_mode = infer_mode s.options })

  abbrev pub next_config : Option QueueLoggingConfig → QueueService P → QueueLoggingConfig
  next_config config s =
      or_else (either_config config (either_config s.logging_config s.options.logging))
        default_config

  unfoldable pub enable_logging :
      LoggerSource → Option QueueLoggingConfig → Exec (QueueService P) (Unit {0})
  enable_logging source config s =
      (do
        logger ← resolve_logger source (some (next_config config s))
        modify
            (λ t. record t { logger = some logger; logging_config = some (next_config config s) }))
        s

  unfoldable pub disable_logging : Exec (QueueService P) (Unit {0})
  disable_logging = modify (λ s. record s {
    logger = none;
    logging_config = some (record (next_config none s) { enabled = false });
  })

  abbrev pub is_logging_enabled : QueueService P → Bool
  is_logging_enabled s = elim s.logging_config [
    | none ↦ false
    | some c ↦ elim s.logger [ none ↦ false | some l ↦ c.enabled ]
  ]

  abbrev pub client_of : Exec (QueueService P) Client
  client_of s = elim s.queue_service_client [
    | none ↦ thrown (plain_error "Queue storage service is not started") s
    | some client ↦ done client s
  ]

  abbrev pub raised : Option Error → Exec (QueueService P) (Unit {0})
  raised none = pure tt
  raised (some e) = throw e

  -- `try` with a `catch` that only reports.
  abbrev pub caught : Exec (QueueService P) (Unit {0}) → Exec (QueueService P) (Unit {0})
  caught body s = done tt (state_after (body s))

  unfoldable pub create_queue_if_not_exists : String → Exec (QueueService P) (Unit {0})
  create_queue_if_not_exists queue = do
    client ← client_of
    caught (do
      modify (λ s. record s { provisioned = s.provisioned ++ queue ∷ [] })
      raised (platform.create_if_not_exists queue))

  abbrev pub provision_all : List String → QueueService P → QueueService P
  provision_all [] s = s
  provision_all (queue ∷ queues) s =
      provision_all queues (state_after (caught (create_queue_if_not_exists queue) s))

  abbrev pub provision : String → Option (List String) → QueueService P → QueueService P
  provision connection none s = s
  provision connection (some queues) s =
      if platform.in_development
        || (platform.contains connection "UseDevelopmentStorage=true"
            || platform.contains connection "127.0.0.1")
      then provision_all queues s
      else s

  abbrev pub connect : Client → QueueService P → QueueService P
  connect client s = record s { queue_service_client = some client; started = true }

  abbrev pub start_in : Option Mode → Exec (QueueService P) (Unit {0})
  start_in none =
      throw
        (plain_error "Invalid queue storage configuration: provide connectionString or accountName")
  start_in (some shared_key) = modify (λ s.
      provision (or_else s.options.connection_string "") s.options.provision_queues
        (connect (from_connection_string (or_else s.options.connection_string "")) s))
  start_in (some managed_identity) = modify (λ s.
      connect
        (with_credential (
          String.◌++◌ "https://"
            (String.◌++◌ (or_else s.options.account_name "") ".queue.core.windows.net")))
        s)

  unfoldable pub start_up : Exec (QueueService P) (Unit {0})
  start_up s = elim s.started [ true ↦ done tt s | false ↦ start_in s.inferred_mode s ]

  unfoldable pub shut_down : Exec (QueueService P) (Unit {0})
  shut_down s = elim s.queue_service_client [
    | none ↦ done tt s
    | some client ↦ done tt (record s { queue_service_client = none; started = false })
  ]
