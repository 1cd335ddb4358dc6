-- ===== src/Queue/Delivery.antt =====
-- What a queue promises to its producer and its consumer, and what logging cannot change.
use cellixjs.Base.{
  ◌≡◌, refl, arith, false, String, List, [], ◌∷◌, ◌++◌, Option, none, some, or_else, done,
  Option-cases, Bool-cases, inl, inr, state_after, succeeds,
}
use cellixjs.Queue.State.{
  json, text, QueueService, Platform, Sent, LoggerSource, custom_logger, blob_storage,
}
use cellixjs.Queue.Service.{is_logging_enabled, disable_logging, enable_logging, has_container}
use cellixjs.Queue.Sending.{received_payload, put_tag, body_of}
use cellixjs.Queue.Contexts.{
  QueueDefinition, QueueTriggerMetadata, send_to_queue, receive_from_queue, message_of,
  resolve_logging_fields, SchemaError, message_for,
}
use cellixjs.Queue.Laws.{log_returns, send_message-done}

-- What the platform's JSON and base64 promise: a value that was written is read back.
pub record ReadsBack {P : Type 0} (platform : Platform P) : Type 0 where
  pub decode_encode : (s : String) → platform.decode (platform.encode s) ≡ s
  pub parse_stringify : (p : P) → platform.parse (platform.stringify p) ≡ some p

module _ {P : Type 0} (platform : Platform P) where
  -- A consumer gives a valid payload on, whatever the logger does.
  received :
      (def : QueueDefinition P) (payload : P) (metadata : Option QueueTriggerMetadata)
      (s : QueueService P)
      → def.validate payload ≡ none
      → receive_from_queue platform def payload metadata s
        ≡ done
            (message_of platform payload metadata)
            (state_after (receive_from_queue platform def payload metadata s))
  unfolding receive_from_queue
  received def payload metadata s valid = ground (
    arith,
    valid,
    log_returns platform
        (record {
          queue = def.queue_name;
          direction = "inbound";
          message_id = (message_of platform payload metadata).id;
          payload = json payload;
          metadata = resolve_logging_fields platform def.logging_metadata payload;
          tags =
              put_tag "queueName" def.queue_name
                (or_else (resolve_logging_fields platform def.logging_tags payload) []);
        })
        s,
  )

  sent :
      (def : QueueDefinition P) (payload : P) (s t : QueueService P)
      → send_to_queue platform def payload s ≡ done tt t
      → (def.validate payload ≡ none)
        × (t.sent
            ≡ s.sent
              ++ record {
                queue = def.queue_name;
                body = platform.encode (body_of platform (message_for platform payload));
                visibility_timeout = none;
              }
                ∷ [])
  unfolding send_to_queue
  sent def payload s t h = elim (Option-cases (def.validate payload)) [
    | inl e ↦ (
      e,
      send_message-done platform def.queue_name (message_for platform payload)
          (record {
            visibility_timeout_seconds = none;
            logging_direction = some "outbound";
            logging_tags = resolve_logging_fields platform def.logging_tags payload;
            logging_metadata = resolve_logging_fields platform def.logging_metadata payload;
          })
          s t (ground (arith, e, h)),
    )
    | inr (errors, e) ↦ ground (arith, e, h)
  ]

-- On a platform whose JSON and base64 read back what they wrote, a payload that is no text and that
-- a producer's send accepts is handed to the client once, as a text from which the receiving side reads the same
-- payload again; and every consumer of the queue, with logging or without, accepts that payload
-- and gives it on as it is.
pub sent_is_received :
    {P : Type 0} (platform : Platform P) (reads_back : ReadsBack platform) (def : QueueDefinition P)
    (payload : P) (s t : QueueService P)
    → platform.as_text payload ≡ none
    → send_to_queue platform def payload s ≡ done tt t
    → (item : Sent) × ((t.sent ≡ s.sent ++ item ∷ [])
        × ((item.queue ≡ def.queue_name)
            × ((received_payload platform item.body ≡ json payload)
                × ((u : QueueService P) (metadata : Option QueueTriggerMetadata)
                    → (receive_from_queue platform def payload metadata u
                        ≡ done
                            (message_of platform payload metadata)
                            (state_after (receive_from_queue platform def payload metadata u)))
                      × ((message_of platform payload metadata).payload ≡ payload)))))
sent_is_received platform reads_back def payload s t no_text h =
    let (valid, is_sent) = sent platform def payload s t h in
    (
      record {
        queue = def.queue_name;
        body = platform.encode (platform.stringify payload);
        visibility_timeout = none;
      },
      (
        ground (arith, is_sent, no_text),
        (
          refl,
          (
            ground (
              arith,
              reads_back.decode_encode (platform.stringify payload),
              reads_back.parse_stringify payload,
            ),
            λ u metadata. (received platform def payload metadata u valid, kept metadata),
          ),
        ),
      ),
    )
  where
    kept : (m : Option QueueTriggerMetadata) → (message_of platform payload m).payload ≡ payload
    kept none = refl
    kept (some m) = refl

-- A payload that is a text and that a producer's send accepts is handed to the client once and as it
-- stands, where base64 reads back what it wrote: the receiving side reads what JSON.parse makes of
-- the text, and where the text is no JSON the body as it came, in base64.
pub sent_text_is_parsed :
    {P : Type 0} (platform : Platform P) (reads_back : ReadsBack platform) (def : QueueDefinition P)
    (payload : P) (content : String) (s t : QueueService P)
    → platform.as_text payload ≡ some content
    → send_to_queue platform def payload s ≡ done tt t
    → (item : Sent) × ((t.sent ≡ s.sent ++ item ∷ [])
        × ((item.queue ≡ def.queue_name)
            × (received_payload platform item.body
                ≡ elim (platform.parse content) [ none ↦ text item.body | some p ↦ json p ])))
sent_text_is_parsed platform reads_back def payload content s t is_text h =
    let (valid, is_sent) = sent platform def payload s t h in
    (
      record { queue = def.queue_name; body = platform.encode content; visibility_timeout = none },
      (ground (arith, is_sent, is_text), (refl, ground (arith, reads_back.decode_encode content))),
    )

-- A payload that the queue's validator refuses makes the producer and the consumer throw: nothing
-- is sent and nothing is logged.
pub invalid_payload_is_refused :
    {P : Type 0} (platform : Platform P) (def : QueueDefinition P) (payload : P)
    (metadata : Option QueueTriggerMetadata) (errors : List SchemaError) (s : QueueService P)
    → def.validate payload ≡ some errors
    → ((succeeds (send_to_queue platform def payload s) ≡ false)
        × (state_after (send_to_queue platform def payload s) ≡ s))
      × ((succeeds (receive_from_queue platform def payload metadata s) ≡ false)
          × (state_after (receive_from_queue platform def payload metadata s) ≡ s))
unfolding send_to_queue receive_from_queue
invalid_payload_is_refused platform def payload metadata errors s h =
    ((ground (arith, h), ground (arith, h)), (ground (arith, h), ground (arith, h)))

-- `enableLogging` without a configuration after `disableLogging` does not turn logging on again: it
-- takes the configuration that `disableLogging` has left.
pub enable_logging-disable_logging :
    {P : Type 0} (platform : Platform P) (source : LoggerSource) (s t : QueueService P)
    → enable_logging platform source none (state_after (disable_logging platform s)) ≡ done tt t
    → is_logging_enabled platform t ≡ false
unfolding enable_logging disable_logging
enable_logging-disable_logging platform (custom_logger id) s t h = ground arith
enable_logging-disable_logging platform (blob_storage id) s t h =
    elim (Bool-cases
      (has_container platform (state_after (disable_logging platform s)).logging_config)) [
        | inl e ↦ ground (arith, e)
        | inr e ↦ ground (arith, e)
      ]
