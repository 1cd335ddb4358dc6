-- ===== src/Queue/Tests.antt =====
-- A queue at concrete inputs; payloads are texts here.
use cellixjs.Base.{
  ◌≡◌, refl, true, false, String, List, [], ◌∷◌, ◌++◌, Option, none, some, ◌==◌, if◌then◌else◌,
  done, state_after, plain_error,
}
use cellixjs.Queue.State.{
  Platform, QueueService, QueueStorageConfig, answer, blank_service, json, Sent, custom_logger,
}
use cellixjs.Queue.Service.{
  construct_service, start_up, enable_logging, disable_logging, is_logging_enabled,
  create_queue_if_not_exists,
}
use cellixjs.Queue.Sending.{send_message, log_if_enabled, received_payload}
use cellixjs.Queue.Contexts.{
  QueueDefinition, QueueTriggerMetadata, SchemaError, send_to_queue, receive_from_queue, message_of,
  constant, payload_field,
}
use cellixjs.Queue.Delivery.{ReadsBack, sent_is_received, enable_logging-disable_logging}
use cellixjs.Queue.Lifecycle.{Call, start, stop, produce, run, run-IsConnected, IsConnected}

-- Payloads that are objects with one field.
record Notice : Type 0 where
  kind : String

abbrev hello : Notice
hello = record { kind = "hello" }

abbrev sample_platform : Platform Notice
sample_platform = record {
  as_text = λ p. none;
  stringify = λ p. p.kind;
  parse = λ s. some (record { kind = s });
  encode = λ s. s;
  decode = λ s. s;
  field = λ p name. if name == "kind" then some p.kind else none;
  contains = λ s t. s == t;
  trim = λ s. s;
  in_development = true;
  send = λ item. answer "1";
  create_if_not_exists = λ queue. some (plain_error "no network");
  log = λ logger envelope. some (plain_error "no disk");
}

sample-ReadsBack : ReadsBack sample_platform
sample-ReadsBack = record { decode_encode = λ s. refl; parse_stringify = λ p. refl }

abbrev too_long : SchemaError
too_long = record {
  instance_path = "";
  keyword = "maxLength";
  missing_property = none;
  message = none;
}

abbrev sample_queue : QueueDefinition Notice
sample_queue = record {
  queue_name = "emails";
  logging_tags = some (("source", constant "api") ∷ ("kind", payload_field "kind") ∷ []);
  logging_metadata = none;
  validate = λ p. if p.kind == "long" then some (too_long ∷ []) else none;
}

abbrev sample_config : QueueStorageConfig
sample_config = record {
  connection_string = some "UseDevelopmentStorage=true";
  account_name = none;
  logging = some (record { enabled = true; container = "logs"; awaited = false });
  logger = some (custom_logger "console");
  provision_queues = some ("emails" ∷ []);
}

abbrev made_service : QueueService Notice
made_service = state_after (construct_service sample_platform (blank_service sample_config))

abbrev started_service : QueueService Notice
started_service = state_after (start_up sample_platform made_service)

abbrev after_send : QueueService Notice
after_send = state_after (send_to_queue sample_platform sample_queue hello started_service)

sends : send_to_queue sample_platform sample_queue hello started_service ≡ done tt after_send
unfolding construct_service start_up create_queue_if_not_exists send_to_queue send_message
    log_if_enabled
sends = refl

-- The logger throws, and the envelope was handed to it all the same.
tags_logged :
    after_send.logged
    ≡ record {
      queue = "emails";
      direction = "outbound";
      message_id = "1";
      payload = json hello;
      metadata = none;
      tags = ("source", "api") ∷ ("kind", "hello") ∷ ("queueName", "emails") ∷ [];
    }
      ∷ []
unfolding construct_service start_up create_queue_if_not_exists send_to_queue send_message
    log_if_enabled
tags_logged = refl

sent_is_received_example :
    (item : Sent) × ((after_send.sent ≡ started_service.sent ++ item ∷ [])
      × ((item.queue ≡ "emails")
          × ((received_payload sample_platform item.body ≡ json hello)
              × ((u : QueueService Notice) (metadata : Option QueueTriggerMetadata)
                  → (receive_from_queue sample_platform sample_queue hello metadata u
                      ≡ done (message_of sample_platform hello metadata) (
                          state_after
                            (receive_from_queue sample_platform sample_queue hello metadata u)))
                    × ((message_of sample_platform hello metadata).payload ≡ hello)))))
sent_is_received_example =
    sent_is_received sample_platform sample-ReadsBack sample_queue hello started_service after_send
      refl sends

-- Texts, which are JSON of themselves here.
abbrev text_platform : Platform String
text_platform = record {
  as_text = λ p. some p;
  stringify = λ p. p;
  parse = λ s. some s;
  encode = λ s. s;
  decode = λ s. s;
  field = λ p name. none;
  contains = λ s t. s == t;
  trim = λ s. s;
  in_development = true;
  send = λ item. answer "1";
  create_if_not_exists = λ queue. none;
  log = λ logger envelope. none;
}

abbrev text_queue : QueueDefinition String
text_queue = record {
  queue_name = "texts";
  logging_tags = none;
  logging_metadata = none;
  validate = λ p. none;
}

abbrev text_service : QueueService String
text_service = state_after (
    start_up text_platform
      (state_after (construct_service text_platform (blank_service sample_config))))

abbrev after_text : QueueService String
after_text = state_after (send_to_queue text_platform text_queue "5" text_service)

sends_text : send_to_queue text_platform text_queue "5" text_service ≡ done tt after_text
unfolding construct_service start_up create_queue_if_not_exists send_to_queue send_message
    log_if_enabled
sends_text = refl

abbrev enabled_again : QueueService Notice
enabled_again = state_after (
    enable_logging sample_platform (custom_logger "console") none
      (state_after (disable_logging sample_platform made_service)))

enables_again :
    enable_logging sample_platform
      (custom_logger "console")
      none
      (state_after (disable_logging sample_platform made_service))
    ≡ done tt enabled_again
unfolding enable_logging disable_logging construct_service
enables_again = refl

enable_logging-disable_logging_example : is_logging_enabled sample_platform enabled_again ≡ false
enable_logging-disable_logging_example =
    enable_logging-disable_logging sample_platform (custom_logger "console") made_service
      enabled_again enables_again

abbrev sample_calls : List (Call Notice)
sample_calls = start ∷ produce sample_queue hello ∷ stop ∷ produce sample_queue hello ∷ []

run-IsConnected_example :
    IsConnected sample_platform (run sample_platform sample_calls (blank_service sample_config))
run-IsConnected_example =
    run-IsConnected sample_platform sample_calls (blank_service sample_config) refl
