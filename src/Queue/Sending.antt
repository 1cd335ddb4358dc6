-- ===== src/Queue/Sending.antt =====
-- internal-queue-storage-service.ts: `sendMessage`, its log, and the payloads that
-- `receiveMessages` and `peekMessages` read.
use cellixjs.Base.{
  true, false, String, [], ◌∷◌, ◌++◌, Option, none, some, or_else, ◌==◌, Exec, ◌>>=◌, ◌>>◌, pure,
  throw, modify, if◌then◌else◌, ℕ, done,
}
use cellixjs.Queue.State.{
  Payload, json, text, Tags, MessageLogEnvelope, Sent, QueueService, Answer, answer, rejected,
  Platform,
}
use cellixjs.Queue.Service.{client_of, raised, caught, is_logging_enabled}

-- `value.key = text` on an object of texts.
abbrev pub put_tag : String → String → Tags → Tags
put_tag key value [] = (key, value) ∷ []
put_tag key value ((k, v) ∷ tags) =
    if k == key then (k, value) ∷ tags else (k, v) ∷ put_tag key value tags

-- SendMessageOptions.
pub record SendMessageOptions : Type 0 where
  pub visibility_timeout_seconds : Option ℕ
  pub logging_direction : Option String
  pub logging_tags : Option Tags
  pub logging_metadata : Option Tags

-- The argument of `sendMessage`: a text, or a value that is made one.
pub data Message (P : Type 0) : Type 0 where
  text_message : String → Message P
  object_message : P → Message P

module _ {P : Type 0} (platform : Platform P) where
  abbrev pub body_of : Message P → String
  body_of (text_message s) = s
  body_of (object_message p) = platform.stringify p

  -- JSON.parse, or the text where that throws.
  abbrev pub parsed : String → Payload P
  parsed s = elim (platform.parse s) [ none ↦ text s | some p ↦ json p ]

  abbrev pub payload_of : Message P → Payload P
  payload_of (text_message s) = parsed s
  payload_of (object_message p) = json p

  abbrev pub delivered : Answer → Exec (QueueService P) String
  delivered (answer id) = pure id
  delivered (rejected e) = throw e

  abbrev pub log_message : MessageLogEnvelope P → Exec (QueueService P) (Unit {0})
  log_message envelope s = elim s.logger [
    | none ↦ done tt s
    | some logger ↦
        (do
          modify (λ t. record t { logged = t.logged ++ envelope ∷ [] })
          raised platform (platform.log logger envelope))
          s
  ]

  -- `doLog`, awaited or not: the logger is called before anything else happens.
  abbrev pub do_log : MessageLogEnvelope P → Exec (QueueService P) (Unit {0})
  do_log envelope = caught platform (log_message envelope)

  unfoldable pub log_if_enabled : MessageLogEnvelope P → Exec (QueueService P) (Unit {0})
  log_if_enabled envelope s = elim (is_logging_enabled platform s) [
    | true ↦ do_log envelope s
    | false ↦ done tt s
  ]

  unfoldable pub send_message :
      String → Message P → SendMessageOptions → Exec (QueueService P) (Unit {0})
  send_message queue message opts = do
    client ← client_of platform
    let item : Sent = record {
      queue = queue;
      body = platform.encode (body_of message);
      visibility_timeout = opts.visibility_timeout_seconds;
    }
    modify (λ s. record s { sent = s.sent ++ item ∷ [] })
    id ← delivered (platform.send item)
    log_if_enabled (record {
      queue = queue;
      direction = or_else opts.logging_direction "outbound";
      message_id = id;
      payload = payload_of message;
      metadata = opts.logging_metadata;
      tags = put_tag "queueName" queue (or_else opts.logging_tags []);
    })

  -- The payload of a received or peeked item: the text itself where it does not hold JSON.
  abbrev pub received_payload : String → Payload P
  received_payload message_text = elim (platform.parse (platform.decode message_text)) [
    | none ↦ text message_text
    | some p ↦ json p
  ]
