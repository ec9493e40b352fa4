-- ===== src/Tests/EventRuns.antt =====
-- The theorems on src/rabbitmq and src/events, applied to two channels and a broker that takes the
-- third message only.
use secondhand_api.Prelude.{
  ◌≤◌, String, true, none, some, [], ◌∷◌, ◌≡◌, refl, ap, ◌∙◌, arith, eqb, ◌==◌, sym, eq_iff,
  if◌then◌else◌, Bool-cases, inl, inr,
}
use Prim.Native.Char.{Char, code}
use Prim.Native.String.{◌++◌}
use text.Mathlib.TextLemmas.{append_cancel_right, nil-append, cons-append}
use secondhand_api.Http.{ok}
use secondhand_api.Rabbitmq.Channels.{count}
use secondhand_api.Rabbitmq.Topology.{infrastructure}
use secondhand_api.Rabbitmq.ConnectionService.{Amqp, Connection, connect, find_available, lend}
use secondhand_api.Rabbitmq.Sharing.{System, take_free, Reach, here, next}
use secondhand_api.Rabbitmq.Pooling.{initial, unshared, connect-exclusive, connect-IsShared}
use secondhand_api.Events.EventTypes.{BaseEvent, EventType, product_deleted_event, domain_of}
use secondhand_api.Events.EventPublisher.{
  PublishOptions, Publisher, Clock, message_of, emit_distributed,
}
use secondhand_api.Events.Publishing.{IsEmitted, emit_distributed-IsEmitted}
use secondhand_api.Events.Routing.{is_word, TopicMatching, queues_for, message_of-home}

-- The part of a key before its first dot.
abbrev before_dot : String → String
before_dot String.[] = ""
before_dot (String.◌∷◌ c s) =
    let rest = before_dot s in if eqb (code c) b'.' then "" else String.◌∷◌ c rest

dot : Char
dot = "."

before_dot_lem : (v a : String) → is_word v ≡ true → before_dot (v ++ ("." ++ a)) ≡ v
unfolding dot
before_dot_lem String.[] a word =
    ap before_dot (nil-append ("." ++ a)) ∙ ap before_dot (cons-append dot "" a)
before_dot_lem (String.◌∷◌ c s) a word =
    ap before_dot (cons-append c s ("." ++ a)) ∙ ground (arith, before_dot_lem s a, word)

same_suffix : (w v t : String) → ((w ++ t) == (v ++ t)) ≡ (w == v)
same_suffix w v t = elim (Bool-cases (w == v)) [
  | inl same ↦ (eq_iff _ _).1 (ap (λ x. x ++ t) ((eq_iff w v).0 same)) ∙ sym same
  | inr other ↦ elim (Bool-cases ((w ++ t) == (v ++ t))) [
    | inl equal ↦
        absurd (let e = (eq_iff w v).1 (append_cancel_right w v t ((eq_iff _ _).0 equal)) in cc)
    | inr differs ↦ differs ∙ sym other
  ]
]

before_star :
    (w v a : String)
    → is_word w ≡ true
    → is_word v ≡ true
    → is_word a ≡ true
    → ((w ++ ".*") == (before_dot (v ++ ("." ++ a)) ++ ".*")) ≡ (w == v)
before_star w v a _ word _ =
    ap (λ x. (w ++ ".*") == (x ++ ".*")) (before_dot_lem v a word) ∙ same_suffix w v ".*"

instance abbrev example_topic : TopicMatching
example_topic = record {
  matches = λ pattern key. pattern == (before_dot key ++ ".*");
  one_word = before_star;
}

instance abbrev example_amqp : Amqp
example_amqp = record {
  connects = λ c. true;
  closes = λ c. true;
  declares = λ d. true;
  accepts = λ i. eqb i 2;
  is_connected = true;
}

instance abbrev example_clock : Clock
example_clock = record { date = λ n. n; uuid = λ n. "id" }

-- Two channels, and one that a task holds.
abbrev started : Connection
started = record {
  channel_pool = 0 ∷ 1 ∷ [];
  channels_in_use = [];
  created = 2;
  declared = infrastructure;
}

abbrev one_held : System
one_held = record {
  service = record started { channels_in_use = 0 ∷ [] };
  waiting = [];
  held = 0 ∷ [];
}

started-lem : connect 2 initial ≡ (ok tt, started)
unfolding connect infrastructure
started-lem = refl

one_held-Reach : Reach (unshared started) one_held
unfolding find_available lend
one_held-Reach = next here (take_free 0 refl refl)

connect-exclusive_example :
    (count 0 one_held.held ≤ 1)
    × (count 0 one_held.service.channels_in_use ≡ count 0 one_held.held)
    × (count 0 one_held.held ≤ count 0 one_held.service.channel_pool)
connect-exclusive_example = connect-exclusive 2 started one_held started-lem one_held-Reach 0

abbrev sent : BaseEvent
sent = record {
  event_id = "e1";
  event_type = EventType.order_created;
  timestamp = some 5;
  user_id = none;
  metadata = none;
  payload = product_deleted_event 1 2;
}

abbrev thrice : PublishOptions
thrice = record { priority = none; expiration = none; persistent = none; max_retries = some 3 }

abbrev publisher : Publisher
publisher = record { connection = started; tried = []; pauses = []; emitted = []; readings = 0 }

emit_distributed-IsEmitted_example :
    IsEmitted thrice sent [] [] 3 publisher (emit_distributed sent thrice publisher)
emit_distributed-IsEmitted_example =
    emit_distributed-IsEmitted thrice sent [] refl 5 refl (λ c. refl) [] publisher
      (connect-IsShared 2 started started-lem).0

message_of-home_example :
    queues_for (message_of thrice sent).exchange (message_of thrice sent).routing_key infrastructure
    ≡ "secondhand.orders.process" ∷ []
unfolding domain_of
message_of-home_example = message_of-home thrice sent
