-- ===== src/Events/EventPublisher.antt =====
-- src/events/publishers/event-publisher.service.ts. Logging is left out, and a pause is recorded by
-- its milliseconds.
use secondhand_api.Prelude.{
  ℕ, zero, suc, ◌*◌, ◌^◌, String, Bool, true, Option, none, some, List, [], ◌∷◌, ◌++◌, ◌==◌, given,
  length, if_truthy, if◌then◌else◌,
}
use secondhand_api.Http.{Result, ok, err, failure}
use secondhand_api.Exec.{Exec, ◌>>=◌, ◌>>◌}
use secondhand_api.Rabbitmq.ConnectionService.{Amqp, Connection, get_channel, release_channel}
use secondhand_api.Events.EventTypes.{BaseEvent, routing_key}

pub record PublishOptions : Type 0 where
  pub priority : Option ℕ
  pub expiration : Option String
  pub persistent : Option Bool
  pub max_retries : Option ℕ

-- What `channel.publish` is called with.
pub record Message : Type 0 where
  pub exchange : String
  pub routing_key : String
  pub content : BaseEvent
  pub persistent : Bool
  pub content_type : String
  pub timestamp : Option ℕ
  pub priority : Option ℕ
  pub expiration : Option String

-- The connection, the messages whose publication was tried, the pauses, the events emitted in the
-- process, and how often the clock and fresh ids were read.
pub record Publisher : Type 0 where
  pub connection : Connection
  pub tried : List Message
  pub pauses : List ℕ
  pub emitted : List BaseEvent
  pub readings : ℕ

-- new Date().getTime() and uuidv4(), by the number of the reading
pub record Clock : Type 0 where
  pub date : ℕ → ℕ
  pub uuid : ℕ → String

abbrev caught : Result (Unit {0}) → Exec Publisher (Unit {0}) → Exec Publisher (Unit {0})
caught (ok x) handler s = (ok x, s)
caught (err e) handler s = handler s

-- try { … } catch (error) { handler }
abbrev pub on_error :
    Exec Publisher (Unit {0}) → Exec Publisher (Unit {0}) → Exec Publisher (Unit {0})
on_error body handler s = let (r, s') = body s in caught r handler s'

unfoldable pub emit_local : BaseEvent → Publisher → Publisher
emit_local event s = record s { emitted = s.emitted ++ event ∷ [] }

abbrev pub default_options : PublishOptions
default_options = record {
  priority = none;
  expiration = none;
  persistent = none;
  max_retries = none;
}

-- `publishOptions` and the other arguments of `publish`.
unfoldable pub message_of : PublishOptions → BaseEvent → Message
message_of options event = record {
  exchange = "secondhand.events";
  routing_key = routing_key event.event_type;
  content = event;
  persistent = given options.persistent true;
  content_type = "application/json";
  timestamp = event.timestamp;
  priority = options.priority;
  expiration = if_truthy options.expiration;
}

unfoldable pub sleep : ℕ → Exec Publisher (Unit {0})
sleep ms s = (ok tt, record s { pauses = s.pauses ++ ms ∷ [] })

-- const channel = await getChannel(); try { … } finally { releaseChannel(channel); }
module _ ⦃m : Amqp⦄ where
  unfoldable pub acquire : Exec Publisher ℕ
  acquire s = let (r, c) = get_channel s.connection in (r, record s { connection = c })

  unfoldable pub finally_release : ℕ → Exec Publisher (Unit {0}) → Exec Publisher (Unit {0})
  finally_release channel body s =
      let (r, s') = body s in (r, record s' { connection = release_channel channel s'.connection })

  -- await channel.publish(…): the i-th call is accepted, or rejected.
  unfoldable pub publish : Message → Exec Publisher (Unit {0})
  publish message s = (
    if m.accepts (length s.tried) then ok tt else err (failure "publish"),
    record s { tried = s.tried ++ message ∷ [] },
  )

  module _ ⦃k : Clock⦄ where
    -- if (!event.eventId) …; if (!event.timestamp) …
    unfoldable pub stamp_id : BaseEvent → Exec Publisher BaseEvent
    stamp_id event s =
        if event.event_id == ""
        then (
          ok (record event { event_id = k.uuid s.readings }),
          record s { readings = suc s.readings },
        )
        else (ok event, s)

    abbrev pub time_or_now : BaseEvent → Option ℕ → Exec Publisher BaseEvent
    time_or_now event (some _) s = (ok event, s)
    time_or_now event none s = (
      ok (record event { timestamp = some (k.date s.readings) }),
      record s { readings = suc s.readings },
    )

    unfoldable pub stamp_time : BaseEvent → Exec Publisher BaseEvent
    stamp_time event = time_or_now event event.timestamp

    -- `emitDistributed` with a number of retries left, and `retryPublish`, which calls it. A
    -- channel is given back only once the retries are over.
    unfoldable pub emit_retrying : ℕ → PublishOptions → BaseEvent → Exec Publisher (Unit {0})
    unfolding acquire finally_release stamp_id stamp_time message_of publish sleep
    emit_retrying zero options event = do
      channel ← acquire
      finally_release channel (do
        event1 ← stamp_id event
        event2 ← stamp_time event1
        publish (message_of options event2))
    emit_retrying (suc n) options event = do
      channel ← acquire
      finally_release channel (do
        event1 ← stamp_id event
        event2 ← stamp_time event1
        on_error (publish (message_of options event2))
            (do sleep (2 ^ n * 1000); emit_retrying n options event2))

    unfoldable pub emit_distributed : BaseEvent → PublishOptions → Exec Publisher (Unit {0})
    unfolding emit_retrying
    emit_distributed event options = emit_retrying (given options.max_retries 0) options event

    unfoldable pub emit_all : BaseEvent → PublishOptions → Exec Publisher (Unit {0})
    unfolding emit_local emit_distributed
    emit_all event options s = emit_distributed event options (emit_local event s)

    unfoldable pub emit_priority : BaseEvent → ℕ → Exec Publisher (Unit {0})
    unfolding emit_distributed
    emit_priority event priority =
        emit_distributed event
          (record default_options { priority = some priority; persistent = some true })

    -- The milliseconds come as a text.
    unfoldable pub emit_with_expiration : BaseEvent → String → Exec Publisher (Unit {0})
    unfolding emit_distributed
    emit_with_expiration event expiration_ms =
        emit_distributed event
          (record default_options { expiration = some expiration_ms; persistent = some true })
