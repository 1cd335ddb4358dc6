-- ===== src/Queue/Contexts.antt =====
-- queue-producer.ts, queue-consumer.ts, logging-fields.ts and validation.ts: what is made for one
-- queue definition.
use Prim.Native.String
use cellixjs.Base.{
  String, List, [], ◌∷◌, Option, none, some, or_else, ◌==◌, Exec, ◌>>◌, pure, throw, plain_error,
  Error, if◌then◌else◌, ℕ,
}
use cellixjs.Queue.State.{json, Tags, QueueService, Platform}
use cellixjs.Queue.Sending.{
  put_tag, object_message, text_message, Message, send_message, log_if_enabled,
}

-- An error of the schema's validator.
pub record SchemaError : Type 0 where
  pub instance_path : String
  pub keyword : String
  pub missing_property : Option String
  pub message : Option String

abbrev pub path_of : SchemaError → String
path_of e = if e.instance_path == "" then "/" else e.instance_path

abbrev pub plain_message : SchemaError → String
plain_message e = String.◌++◌ (path_of e) (
    String.◌++◌ " "
      (or_else e.message (String.◌++◌ "failed " (String.◌++◌ e.keyword " validation"))))

abbrev pub missing_message : SchemaError → Option String → String
missing_message e none = plain_message e
missing_message e (some property) =
    String.◌++◌ (path_of e)
      (String.◌++◌ " is missing required property \"" (String.◌++◌ property "\""))

abbrev pub format_error : SchemaError → String
format_error e =
    if e.keyword == "required" then missing_message e e.missing_property else plain_message e

abbrev pub join_errors : List SchemaError → String
join_errors [] = ""
join_errors (e ∷ []) = format_error e
join_errors (e ∷ f ∷ es) = String.◌++◌ (format_error e) (String.◌++◌ "; " (join_errors (f ∷ es)))

abbrev pub format_queue_validation_errors : List SchemaError → String
format_queue_validation_errors [] = "validation failed"
format_queue_validation_errors (e ∷ es) = join_errors (e ∷ es)

-- A constant text, or the name of a field of the payload.
pub data LoggingFieldSpec : Type 0 where
  constant payload_field : String → LoggingFieldSpec

-- The definition of a queue with its validator: `none` is a valid payload.
pub record QueueDefinition (P : Type 0) : Type 0 where
  pub queue_name : String
  pub logging_tags : Option (List (String × LoggingFieldSpec))
  pub logging_metadata : Option (List (String × LoggingFieldSpec))
  pub validate : P → Option (List SchemaError)

-- QueueTriggerMetadata.
pub record QueueTriggerMetadata : Type 0 where
  pub id : String
  pub pop_receipt : Option String
  pub dequeue_count : Option ℕ

pub record QueueMessage (P : Type 0) : Type 0 where
  pub id : String
  pub pop_receipt : Option String
  pub payload : P
  pub dequeue_count : Option ℕ

module _ {P : Type 0} (platform : Platform P) where
  abbrev pub resolve : P → LoggingFieldSpec → Option String
  resolve p (constant s) = some s
  resolve p (payload_field name) = platform.field p name

  abbrev pub put_resolved : String → Option String → Tags → Tags
  put_resolved key none tags = tags
  put_resolved key (some value) tags = put_tag key value tags

  abbrev pub resolve_all : P → List (String × LoggingFieldSpec) → Tags → Tags
  resolve_all p [] tags = tags
  resolve_all p ((key, spec) ∷ specs) tags =
      resolve_all p specs (put_resolved key (resolve p spec) tags)

  abbrev pub not_empty : Tags → Option Tags
  not_empty [] = none
  not_empty (tag ∷ tags) = some (tag ∷ tags)

  abbrev pub resolve_logging_fields : Option (List (String × LoggingFieldSpec)) → P → Option Tags
  resolve_logging_fields none p = none
  resolve_logging_fields (some specs) p = not_empty (resolve_all p specs [])

  abbrev pub invalid_payload : String → List SchemaError → Error
  invalid_payload queue errors = plain_error (
      String.◌++◌ "Invalid payload for queue \""
        (String.◌++◌ queue (String.◌++◌ "\": " (format_queue_validation_errors errors))))

  abbrev pub check_payload : String → Option (List SchemaError) → Exec (QueueService P) (Unit {0})
  check_payload queue none = pure tt
  check_payload queue (some errors) = throw (invalid_payload queue errors)

  -- `sendMessage` takes a payload that is a text as a text that was serialized before.
  abbrev pub message_for : P → Message P
  message_for payload = elim (platform.as_text payload) [
    | none ↦ object_message payload
    | some s ↦ text_message s
  ]

  -- `sendMessageTo…Queue` of the producer.
  unfoldable pub send_to_queue : QueueDefinition P → P → Exec (QueueService P) (Unit {0})
  send_to_queue def payload = do
    check_payload def.queue_name (def.validate payload)
    send_message platform def.queue_name (message_for payload) (record {
      visibility_timeout_seconds = none;
      logging_direction = some "outbound";
      logging_tags = resolve_logging_fields def.logging_tags payload;
      logging_metadata = resolve_logging_fields def.logging_metadata payload;
    })

  abbrev pub message_of : P → Option QueueTriggerMetadata → QueueMessage P
  message_of payload none = record {
    id = "";
    pop_receipt = none;
    payload = payload;
    dequeue_count = none;
  }
  message_of payload (some m) = record {
    id = m.id;
    pop_receipt = m.pop_receipt;
    payload = payload;
    dequeue_count = m.dequeue_count;
  }

  -- `receiveFrom…Queue` of the consumer.
  unfoldable pub receive_from_queue :
      QueueDefinition P → P → Option QueueTriggerMetadata → Exec (QueueService P) (QueueMessage P)
  receive_from_queue def payload metadata = do
    check_payload def.queue_name (def.validate payload)
    log_if_enabled platform (record {
      queue = def.queue_name;
      direction = "inbound";
      message_id = (message_of payload metadata).id;
      payload = json payload;
      metadata = resolve_logging_fields def.logging_metadata payload;
      tags =
          put_tag "queueName" def.queue_name
            (or_else (resolve_logging_fields def.logging_tags payload) []);
    })
    pure (message_of payload metadata)
