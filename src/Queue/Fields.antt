-- ===== src/Queue/Fields.antt =====
-- Sending, receiving, logging and provisioning write to the lists of what was done alone.
use cellixjs.Base.{
  plain_error, ◌≡◌, refl, ◌∙◌, ap, Bool, true, false, String, List, [], ◌∷◌, ◌++◌, Option, none,
  some, or_else, Outcome, done, thrown, Error, state_after, and_then, if◌then◌else◌,
}
use cellixjs.Queue.State.{
  json, MessageLogEnvelope, QueueService, Platform, Sent, Answer, answer, rejected, Logger,
}
use cellixjs.Queue.Service.{raised, is_logging_enabled}
use cellixjs.Queue.Sending.{
  send_message, delivered, log_if_enabled, do_log, Message, SendMessageOptions, payload_of, body_of,
  put_tag,
}
use cellixjs.Queue.Contexts.{
  QueueDefinition, QueueTriggerMetadata, receive_from_queue, message_of, resolve_logging_fields,
  SchemaError, check_payload,
}
use cellixjs.Queue.State.{Client}
use cellixjs.Queue.Service.{raised, create_queue_if_not_exists, provision_all, provision}
use cellixjs.Queue.Sending.{delivered}

module _ {P T : Type 0} (platform : Platform P) (field : QueueService P → T)
    (of_sent : (s : QueueService P) (x : List Sent) → field (record s { sent = x }) ≡ field s)
    (of_logged : (s : QueueService P) (x : List (MessageLogEnvelope P))
      → field (record s { logged = x }) ≡ field s)
    (of_provisioned : (s : QueueService P) (x : List String)
      → field (record s { provisioned = x }) ≡ field s) where
  raised_keeps :
      (o : Option Error) (s : QueueService P) → field (state_after (raised platform o s)) ≡ field s
  raised_keeps none s = refl
  raised_keeps (some e) s = refl

  log_keeps :
      (envelope : MessageLogEnvelope P) (s : QueueService P)
      → field (state_after (log_if_enabled platform envelope s)) ≡ field s
  unfolding log_if_enabled
  log_keeps envelope s = go (is_logging_enabled platform s)
    where
      logged_to :
          (o : Option Logger)
          → field (
              state_after {S = QueueService P} {A = Unit {0}} (elim o [
                | none ↦ done tt s
                | some logger ↦
                    raised platform
                      (platform.log logger envelope)
                      (record s { logged = s.logged ++ envelope ∷ [] })
              ]))
            ≡ field s
      logged_to none = refl
      logged_to (some l) =
          raised_keeps (platform.log l envelope) (record s { logged = s.logged ++ envelope ∷ [] })
          ∙ of_logged s (s.logged ++ envelope ∷ [])

      go :
          (b : Bool)
          → field (
              state_after {S = QueueService P} {A = Unit {0}}
                (elim b [ true ↦ do_log platform envelope s | false ↦ done tt s ]))
            ≡ field s
      go true = logged_to s.logger
      go false = refl

  pub create_keeps :
      (queue : String) (s : QueueService P)
      → field (state_after (create_queue_if_not_exists platform queue s)) ≡ field s
  unfolding create_queue_if_not_exists
  create_keeps queue s = go s.queue_service_client
    where
      asked : QueueService P
      asked = record s { provisioned = s.provisioned ++ queue ∷ [] }

      go :
          (o : Option Client)
          → field (
              state_after {S = QueueService P} {A = Unit {0}} (
                and_then
                  (elim o [
                    | none ↦ thrown (plain_error "Queue storage service is not started") s
                    | some client ↦ done client s
                  ])
                  (λ client t. done tt (
                    state_after (
                      raised platform
                        (platform.create_if_not_exists queue)
                        (record t { provisioned = t.provisioned ++ queue ∷ [] }))))))
            ≡ field s
      go none = refl
      go (some c) =
          raised_keeps (platform.create_if_not_exists queue) asked
          ∙ of_provisioned s (s.provisioned ++ queue ∷ [])

  provision_all_keeps :
      (queues : List String) (s : QueueService P)
      → field (provision_all platform queues s) ≡ field s
  provision_all_keeps [] s = refl
  provision_all_keeps (queue ∷ queues) s =
      provision_all_keeps queues (state_after (create_queue_if_not_exists platform queue s))
      ∙ create_keeps queue s

  pub provision_keeps :
      (connection : String) (o : Option (List String)) (s : QueueService P)
      → field (provision platform connection o s) ≡ field s
  provision_keeps connection none s = refl
  provision_keeps connection (some queues) s = go _
    where
      go : (b : Bool) → field (if b then provision_all platform queues s else s) ≡ field s
      go true = provision_all_keeps queues s
      go false = refl

  pub send_keeps :
      (queue : String) (message : Message P) (opts : SendMessageOptions) (s : QueueService P)
      → field (state_after (send_message platform queue message opts s)) ≡ field s
  unfolding send_message
  send_keeps queue message opts s = go s.queue_service_client
    where
      item : Sent
      item = record {
        queue = queue;
        body = platform.encode (body_of platform message);
        visibility_timeout = opts.visibility_timeout_seconds;
      }

      handed : QueueService P
      handed = record s { sent = s.sent ++ item ∷ [] }

      envelope : String → MessageLogEnvelope P
      envelope id = record {
        queue = queue;
        direction = or_else opts.logging_direction "outbound";
        message_id = id;
        payload = payload_of platform message;
        metadata = opts.logging_metadata;
        tags = put_tag "queueName" queue (or_else opts.logging_tags []);
      }

      answered :
          (a : Answer)
          → field (
              state_after (
                and_then
                  (delivered platform a handed)
                  (λ id. log_if_enabled platform (envelope id))))
            ≡ field s
      answered (answer id) = log_keeps (envelope id) handed ∙ of_sent s (s.sent ++ item ∷ [])
      answered (rejected e) = of_sent s (s.sent ++ item ∷ [])

      go :
          (o : Option Client)
          → field (
              state_after {S = QueueService P} {A = Unit {0}} (
                and_then
                  (elim o [
                    | none ↦ thrown (plain_error "Queue storage service is not started") s
                    | some client ↦ done client s
                  ])
                  (λ client t.
                    and_then
                      (delivered platform
                        (platform.send item)
                        (record t { sent = t.sent ++ item ∷ [] }))
                      (λ id. log_if_enabled platform (envelope id)))))
            ≡ field s
      go none = refl
      go (some c) = answered (platform.send item)

  pub consume_keeps :
      (def : QueueDefinition P) (payload : P) (metadata : Option QueueTriggerMetadata)
      (s : QueueService P)
      → field (state_after (receive_from_queue platform def payload metadata s)) ≡ field s
  unfolding receive_from_queue
  consume_keeps def payload metadata s = go (def.validate payload)
    where
      envelope : MessageLogEnvelope P
      envelope = record {
        queue = def.queue_name;
        direction = "inbound";
        message_id = (message_of platform payload metadata).id;
        payload = json payload;
        metadata = resolve_logging_fields platform def.logging_metadata payload;
        tags =
            put_tag "queueName" def.queue_name
              (or_else (resolve_logging_fields platform def.logging_tags payload) []);
      }

      passed :
          (o : Outcome (QueueService P) (Unit {0}))
          → state_after (and_then o (λ x t. done (message_of platform payload metadata) t))
            ≡ state_after o
      passed (done x t) = refl
      passed (thrown e t) = refl

      go :
          (o : Option (List SchemaError))
          → field (
              state_after (
                and_then (check_payload platform def.queue_name o s) (λ x t.
                  and_then
                    (log_if_enabled platform envelope t)
                    (λ y u. done (message_of platform payload metadata) u))))
            ≡ field s
      go none = ap field (passed (log_if_enabled platform envelope s)) ∙ log_keeps envelope s
      go (some errors) = refl
