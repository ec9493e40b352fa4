-- ===== src/Events/Publishing.antt =====
-- How `emitDistributed` of src/events/publishers/event-publisher.service.ts ends.
use secondhand_api.Prelude.{
  ℕ, zero, suc, ◌*◌, ◌^◌, Bool, true, false, ◌||◌, some, List, [], ◌∷◌, ◌++◌, ◌≡◌, refl, sym, ap,
  ◌∙◌, subst, ◌==◌, arith, given, length, length-append, Bool-cases, inl, inr, if◌then◌else◌,
}
use secondhand_api.Http.{Result, ok, err, failure}
use mathlib.Core.List.{append-nil, append_assoc}
use secondhand_api.Exec.{◌>>◌}
use secondhand_api.Rabbitmq.ConnectionService.{Amqp, Connection, get_channel, release_channel}
use secondhand_api.Rabbitmq.Sharing.{IsShared, Reach-IsShared, give_back, here, next}
use secondhand_api.Rabbitmq.Pooling.{get_channel-returns, queued, dequeued}
use secondhand_api.Events.EventTypes.{BaseEvent}
use secondhand_api.Events.EventPublisher.{
  PublishOptions, Message, Publisher, Clock, on_error, message_of, acquire, finally_release,
  stamp_id, stamp_time, time_or_now, publish, sleep, emit_retrying, emit_distributed,
}

abbrev repeat {ℓ} : {A : Type ℓ} → ℕ → A → List A
repeat zero x = []
repeat (suc n) x = x ∷ repeat n x

-- What the n retries after the k-th attempt come to, from the broker's answers alone.
module _ ⦃m : Amqp⦄ where
  -- Whether one of the attempts is accepted.
  abbrev pub accepted : ℕ → ℕ → Bool
  accepted zero k = m.accepts k
  accepted (suc n) k = m.accepts k || accepted n (suc k)

  -- The attempts up to the first that is accepted, or all.
  abbrev pub attempts : ℕ → ℕ → ℕ
  attempts zero k = 1
  attempts (suc n) k = let more = attempts n (suc k) in if m.accepts k then 1 else suc more

  -- A pause before each attempt but the first, half as long as the one before.
  abbrev pub delays : ℕ → ℕ → List ℕ
  delays zero k = []
  delays (suc n) k =
      let more = delays n (suc k) in if m.accepts k then [] else (2 ^ n * 1000) ∷ more

  module _ ⦃clock : Clock⦄ (options : PublishOptions) (event : BaseEvent) (waiting : List ℕ) where
    abbrev Sharing : List ℕ → Connection → Type 0
    Sharing held c = IsShared (record { service = c; waiting = waiting; held = held })

    pub record IsEmitted (held : List ℕ) (n : ℕ) (s : Publisher) (r : Result (Unit {0}) × Publisher)
        : Type 0 where
      pub returned : r.0 ≡ (if accepted n (length s.tried) then ok tt else err (failure "publish"))
      pub tried :
          r.1.tried ≡ s.tried ++ repeat (attempts n (length s.tried)) (message_of options event)
      pub paused : r.1.pauses ≡ s.pauses ++ delays n (length s.tried)
      pub given_back : Sharing held r.1.connection

    -- A channel that was taken last is given back.
    given_back_last :
        (held : List ℕ) (c : ℕ) (s : Connection)
        → Sharing (c ∷ held) s
        → Sharing held (release_channel c s)
    given_back_last held c s v =
        subst (λ l. Sharing l (release_channel c s)) (dequeued c held)
          (Reach-IsShared (next here (give_back c (queued c held) refl)) v)

    module _ (named : (event.event_id == "") ≡ false) (t : ℕ)
        (timed : event.timestamp ≡ some t) where
      id_kept : (s : Publisher) → stamp_id event s ≡ (ok event, s)
      unfolding stamp_id
      id_kept s = rw named refl

      time_kept : (s : Publisher) → stamp_time event s ≡ (ok event, s)
      unfolding stamp_time
      time_kept s = ap (λ o. time_or_now event o s) timed

      module _ (s : Publisher) (c : ℕ) (conn : Connection)
          (got : get_channel s.connection ≡ (ok c, conn)) where
        abbrev message : Message
        message = message_of options event

        abbrev holding : Publisher
        holding = record s { connection = conn }

        emit-last : emit_retrying zero options event s ≡ finally_release c (publish message) holding
        unfolding emit_retrying acquire
        emit-last = rw (got, id_kept holding, time_kept holding) refl

        emit-more :
            (n : ℕ)
            → emit_retrying (suc n) options event s
              ≡ finally_release c
                  (on_error
                    (publish message)
                    (do sleep (2 ^ n * 1000); emit_retrying n options event))
                  holding
        unfolding emit_retrying acquire
        emit-more n = rw (got, id_kept holding, time_kept holding) refl

        -- The first attempt is accepted, or there is a pause and one retry fewer.
        emit-accepted :
            (n : ℕ)
            → m.accepts (length s.tried) ≡ true
            → emit_retrying (suc n) options event s ≡ emit_retrying zero options event s
        unfolding finally_release publish
        emit-accepted n taken = rw (emit-more n, emit-last, taken) refl

        abbrev retried : ℕ → Publisher
        retried n = record s {
          connection = conn;
          tried = s.tried ++ message ∷ [];
          pauses = s.pauses ++ (2 ^ n * 1000) ∷ [];
        }

        emit-refused :
            (n : ℕ)
            → m.accepts (length s.tried) ≡ false
            → emit_retrying (suc n) options event s
              ≡ finally_release c (emit_retrying n options event) (retried n)
        unfolding finally_release publish sleep
        emit-refused n refused = rw (emit-more n, refused) refl

        -- What the retries come to, after the pause and the attempt that was refused.
        retried-IsEmitted :
            (held : List ℕ) (n : ℕ)
            → m.accepts (length s.tried) ≡ false
            → (r : Result (Unit {0}) × Publisher) → IsEmitted (c ∷ held) n (retried n) r
            → IsEmitted held
                (suc n)
                s
                (r.0, record r.1 { connection = release_channel c r.1.connection })
        retried-IsEmitted held n refused r rest =
            let further : length (retried n).tried ≡ suc (length s.tried) =
              omega (arith, length-append s.tried (message ∷ [])) in
            record {
              returned =
                  rest.returned
                  ∙ ap (λ k. if accepted n k then ok tt else err (failure "publish")) further
                  ∙ rw refused refl;
              tried =
                  rest.tried
                  ∙ append_assoc s.tried (message ∷ []) _
                  ∙ ap (λ k. s.tried ++ message ∷ repeat (attempts n k) message) further
                  ∙ rw refused refl;
              paused =
                  rest.paused
                  ∙ append_assoc s.pauses ((2 ^ n * 1000) ∷ []) _
                  ∙ ap (λ k. s.pauses ++ (2 ^ n * 1000) ∷ delays n k) further
                  ∙ rw refused refl;
              given_back = given_back_last held c r.1.connection rest.given_back;
            }

      module _ (up : (c : ℕ) → m.connects c ≡ true) where
        emit_once-IsEmitted :
            (held : List ℕ) (s : Publisher)
            → Sharing held s.connection
            → IsEmitted held zero s (emit_retrying zero options event s)
        unfolding finally_release publish
        emit_once-IsEmitted held s v =
            let (c, conn, got, _, reached, _) =
              get_channel-returns
                (record { service = s.connection; waiting = waiting; held = held }) v up in
            rw (emit-last s c conn got) (record {
              returned = refl;
              tried = refl;
              paused = sym (append-nil s.pauses);
              given_back = given_back_last held c conn (Reach-IsShared reached v);
            })

        emit_retrying-IsEmitted :
            (n : ℕ) (held : List ℕ) (s : Publisher)
            → Sharing held s.connection
            → IsEmitted held n s (emit_retrying n options event s)
        unfolding finally_release
        emit_retrying-IsEmitted zero held s v = emit_once-IsEmitted held s v
        emit_retrying-IsEmitted (suc n) held s v =
            let (c, conn, got, _, reached, _) =
              get_channel-returns
                (record { service = s.connection; waiting = waiting; held = held }) v up in
            elim (Bool-cases (m.accepts (length s.tried))) [
              | inl taken ↦
                  let once = emit_once-IsEmitted held s v in
                  rw (emit-accepted s c conn got n taken) (record {
                    returned = once.returned ∙ rw taken refl;
                    tried = once.tried ∙ rw taken refl;
                    paused = once.paused ∙ rw taken refl;
                    given_back = once.given_back;
                  })
              | inr refused ↦
                  let rest =
                    emit_retrying-IsEmitted n (c ∷ held) (retried s c conn got n)
                      (Reach-IsShared reached v) in
                  rw (emit-refused s c conn got n refused)
                    (retried-IsEmitted s c conn got held n refused _ rest)
            ]

        -- While channels connect, publishing an event that has an id and a time ends. It is tried,
        -- each time with the same message, up to the first attempt that RabbitMQ accepts and at
        -- most `maxRetries` times more; it throws exactly if none is accepted. The pauses in
        -- between start from 2 to the power `maxRetries - 1` seconds and halve. Every channel that
        -- it took is given back, and those that other tasks hold stay theirs.
        pub emit_distributed-IsEmitted :
            (held : List ℕ) (s : Publisher)
            → Sharing held s.connection
            → IsEmitted held (given options.max_retries 0) s (emit_distributed event options s)
        unfolding emit_distributed
        emit_distributed-IsEmitted = emit_retrying-IsEmitted (given options.max_retries 0)
