-- ===== src/Queue/Laws.antt =====
-- What logging and sending do to the messages that were sent.
use cellixjs.Base.{
  ◌≡◌, refl, ◌∙◌, sym, ap, arith, Bool, true, false, String, [], ◌∷◌, ◌++◌, Option, none, some,
  or_else, Outcome, done, Error, Option-cases, Bool-cases, inl, inr, state_after, and_then,
}
use cellixjs.Queue.State.{
  MessageLogEnvelope, QueueService, Platform, Sent, Answer, answer, rejected, Logger,
}
use cellixjs.Queue.Service.{raised, is_logging_enabled}
use cellixjs.Queue.Sending.{
  send_message, delivered, log_if_enabled, do_log, log_message, Message, SendMessageOptions,
  payload_of, body_of, put_tag,
}

module _ {P : Type 0} (platform : Platform P) where
  -- Logging returns, and sends nothing.
  pub log_returns :
      (envelope : MessageLogEnvelope P) (s : QueueService P)
      → log_if_enabled platform envelope s
        ≡ done tt (state_after (log_if_enabled platform envelope s))
  unfolding log_if_enabled
  log_returns envelope s = elim (Bool-cases (is_logging_enabled platform s)) [
    | inl e ↦ ground (arith, e)
    | inr e ↦ ground (arith, e)
  ]

  raised_sent :
      (o : Option Error) (s : QueueService P) → (state_after (raised platform o s)).sent ≡ s.sent
  raised_sent none s = refl
  raised_sent (some e) s = refl

  message_sent :
      (envelope : MessageLogEnvelope P) (s : QueueService P)
      → (state_after (log_message platform envelope s)).sent ≡ s.sent
  message_sent envelope s = go s.logger
    where
      go :
          (o : Option Logger)
          → (state_after {S = QueueService P} {A = Unit {0}} (elim o [
            | none ↦ done tt s
            | some logger ↦
                raised platform
                  (platform.log logger envelope)
                  (record s { logged = s.logged ++ envelope ∷ [] })
          ])).sent
            ≡ s.sent
      go none = refl
      go (some l) =
          raised_sent (platform.log l envelope) (record s { logged = s.logged ++ envelope ∷ [] })

  pub log_sent :
      (envelope : MessageLogEnvelope P) (s : QueueService P)
      → (state_after (log_if_enabled platform envelope s)).sent ≡ s.sent
  unfolding log_if_enabled
  log_sent envelope s = go (is_logging_enabled platform s)
    where
      go :
          (b : Bool)
          → (state_after {S = QueueService P} {A = Unit {0}}
              (elim b [ true ↦ do_log platform envelope s | false ↦ done tt s ])).sent
            ≡ s.sent
      go true = message_sent envelope s
      go false = refl

  -- A message that is sent was handed to the client of a started service, which took it.
  pub send_message-done :
      (queue : String) (message : Message P) (opts : SendMessageOptions) (s t : QueueService P)
      → send_message platform queue message opts s ≡ done tt t
      → t.sent
        ≡ s.sent
          ++ record {
            queue = queue;
            body = platform.encode (body_of platform message);
            visibility_timeout = opts.visibility_timeout_seconds;
          }
            ∷ []
  unfolding send_message
  send_message-done queue message opts s t h = elim (Option-cases s.queue_service_client) [
    | inl e ↦ ground (arith, e)
    | inr (client, e) ↦ with_client (platform.send item) (ground (arith, e, h))
  ]
    where
      item : Sent
      item = record {
        queue = queue;
        body = platform.encode (body_of platform message);
        visibility_timeout = opts.visibility_timeout_seconds;
      }

      handed : QueueService P
      handed = record s { sent = s.sent ++ item ∷ [] }

      envelope : String → MessageLogEnvelope P
      envelope id = record {
        queue = queue;
        direction = or_else opts.logging_direction "outbound";
        message_id = id;
        payload = payload_of platform message;
        metadata = opts.logging_metadata;
        tags = put_tag "queueName" queue (or_else opts.logging_tags []);
      }

      with_client :
          (a : Answer)
          → and_then (delivered platform a handed) (λ id. log_if_enabled platform (envelope id))
            ≡ done tt t
          → t.sent ≡ handed.sent
      with_client (answer id) k =
          ap (λ (o : Outcome (QueueService P) (Unit {0})). (state_after o).sent) (sym k)
          ∙ log_sent (envelope id) handed
      with_client (rejected e) k = ground arith
