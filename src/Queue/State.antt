-- ===== src/Queue/State.antt =====
-- The queue service: its configuration, its fields, and what it sends and logs.
use cellixjs.Base.{Bool, false, String, List, [], Option, none, Error, ℕ}

-- QueueLoggingConfig. `await` is called `awaited`; `container` has no default.
pub record QueueLoggingConfig : Type 0 where
  pub enabled : Bool
  pub container : String
  pub awaited : Bool

-- A logger of the caller's, or a blob storage that a logger is made of.
pub data LoggerSource : Type 0 where
  custom_logger blob_storage : String → LoggerSource

-- The logger that the service holds; a blob logger has its container.
pub data Logger : Type 0 where
  custom : String → Logger
  blob : String → String → Logger

-- The fields of QueueStorageConfig that the service reads; `none` is undefined.
pub record QueueStorageConfig : Type 0 where
  pub connection_string : Option String
  pub account_name : Option String
  pub logging : Option QueueLoggingConfig
  pub logger : Option LoggerSource
  pub provision_queues : Option (List String)

pub data Mode : Type 0 where
  shared_key managed_identity : Mode

-- A QueueServiceClient, by what it is made with.
pub data Client : Type 0 where
  from_connection_string with_credential : String → Client

-- A payload: a JSON value, or a text that is none.
pub data Payload (P : Type 0) : Type 0 where
  json : P → Payload P
  text : String → Payload P

abbrev pub Tags : Type 0
Tags = List (String × String)

-- MessageLogEnvelope, without the time of its creation.
pub record MessageLogEnvelope (P : Type 0) : Type 0 where
  pub queue : String
  pub direction : String
  pub message_id : String
  pub payload : Payload P
  pub metadata : Option Tags
  pub tags : Tags

-- A call of the client's `sendMessage`: the queue, the text, the visibility timeout.
pub record Sent : Type 0 where
  pub queue : String
  pub body : String
  pub visibility_timeout : Option ℕ

-- The fields of InternalQueueStorageService, the messages that it has handed to its client, the
-- envelopes that it has handed to its logger, and the queues that it has asked to be made.
pub record QueueService (P : Type 0) : Type 0 where
  pub options : QueueStorageConfig
  pub inferred_mode : Option Mode
  pub queue_service_client : Option Client
  pub started : Bool
  pub logger : Option Logger
  pub logging_config : Option QueueLoggingConfig
  pub sent : List Sent
  pub logged : List (MessageLogEnvelope P)
  pub provisioned : List String

-- What the language, the process and the Azure client do: `typeof` (the text that a value is, if it
-- is one), JSON and base64, `includes` and `trim` of
-- texts, whether NODE_ENV is `development`, the answer of `sendMessage` (an id or an exception) and of
-- `createIfNotExists`, and what a logger throws.
pub data Answer : Type 0 where
  answer : String → Answer
  rejected : Error → Answer

pub record Platform (P : Type 0) : Type 0 where
  pub as_text : P → Option String
  pub stringify : P → String
  pub parse : String → Option P
  pub encode : String → String
  pub decode : String → String
  pub field : P → String → Option String
  pub contains : String → String → Bool
  pub trim : String → String
  pub in_development : Bool
  pub send : Sent → Answer
  pub create_if_not_exists : String → Option Error
  pub log : Logger → MessageLogEnvelope P → Option Error

abbrev pub blank_service : {P : Type 0} → QueueStorageConfig → QueueService P
blank_service options = record {
  options = options;
  inferred_mode = none;
  queue_service_client = none;
  started = false;
  logger = none;
  logging_config = options.logging;
  sent = [];
  logged = [];
  provisioned = [];
}
