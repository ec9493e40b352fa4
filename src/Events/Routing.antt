-- ===== src/Events/Routing.antt =====
-- Which queues of src/rabbitmq/rabbitmq-connection.service.ts get an event that
-- src/events/publishers/event-publisher.service.ts publishes. How RabbitMQ matches a routing key
-- with the pattern of a binding is a parameter.
use secondhand_api.Prelude.{
  String, Bool, true, not, ◌&&◌, List, [], ◌∷◌, ◌≡◌, refl, ◌==◌, if◌then◌else◌, eqb,
}
use Prim.Native.Char.{code}
use Prim.Native.String.{◌++◌}
use secondhand_api.Rabbitmq.Topology.{
  Declaration, assert_exchange, assert_queue, bind_queue, infrastructure,
}
use secondhand_api.Events.EventTypes.{
  EventType, Domain, user, product, order, payment, notification, message, domain_of, routing_key,
}
use secondhand_api.Events.EventPublisher.{PublishOptions, message_of}
use secondhand_api.Events.EventTypes.{BaseEvent}

-- Free of `.`, `*` and `#`.
abbrev pub is_word : String → Bool
is_word String.[] = true
is_word (String.◌∷◌ c s) =
    not (eqb (code c) b'.') && not (eqb (code c) b'*') && not (eqb (code c) b'#') && is_word s

-- The documented behaviour of a topic exchange on the patterns in use: `*` stands for one word.
pub record TopicMatching : Type 0 where
  pub matches : (pattern key : String) → Bool
  pub one_word :
      (w v a : String)
      → is_word w ≡ true
      → is_word v ≡ true
      → is_word a ≡ true
      → matches (w ++ ".*") (v ++ ("." ++ a)) ≡ (w == v)

-- The part after the dot.
action_of : EventType → String
action_of EventType.user_registered = "registered"
action_of EventType.user_verified = "verified"
action_of EventType.user_updated = "updated"
action_of EventType.user_deleted = "deleted"
action_of EventType.product_created = "created"
action_of EventType.product_updated = "updated"
action_of EventType.product_deleted = "deleted"
action_of EventType.product_reserved = "reserved"
action_of EventType.product_sold = "sold"
action_of EventType.order_created = "created"
action_of EventType.order_paid = "paid"
action_of EventType.order_processing = "processing"
action_of EventType.order_shipped = "shipped"
action_of EventType.order_delivered = "delivered"
action_of EventType.order_cancelled = "cancelled"
action_of EventType.order_refunded = "refunded"
action_of EventType.payment_requested = "requested"
action_of EventType.payment_completed = "completed"
action_of EventType.payment_failed = "failed"
action_of EventType.payment_cancelled = "cancelled"
action_of EventType.payment_refunded = "refunded"
action_of EventType.notification_email = "email"
action_of EventType.notification_sms = "sms"
action_of EventType.notification_push = "push"
action_of EventType.message_sent = "sent"
action_of EventType.message_read = "read"
action_of EventType.message_deleted = "deleted"

abbrev name_of : Domain → String
name_of user = "user"
name_of product = "product"
name_of order = "order"
name_of payment = "payment"
name_of notification = "notification"
name_of message = "message"

key_parts : (t : EventType) → routing_key t ≡ name_of (domain_of t) ++ ("." ++ action_of t)
unfolding routing_key domain_of action_of
key_parts EventType.user_registered = refl
key_parts _ = refl

action-IsWord : (t : EventType) → is_word (action_of t) ≡ true
unfolding action_of
action-IsWord EventType.user_registered = refl
action-IsWord _ = refl

name-IsWord : (d : Domain) → is_word (name_of d) ≡ true
name-IsWord user = refl
name-IsWord _ = refl

-- The queue whose events are of a domain.
abbrev pub home : Domain → List String
home user = "secondhand.users.process" ∷ []
home product = "secondhand.products.process" ∷ []
home order = "secondhand.orders.process" ∷ []
home payment = "secondhand.payments.process" ∷ []
home notification = "secondhand.notifications.send" ∷ []
home message = []

module _ ⦃topic : TopicMatching⦄ where
  -- The queues bound to an exchange by a pattern that matches.
  abbrev pub queues_for : String → String → List Declaration → List String
  queues_for exchange key [] = []
  queues_for exchange key (assert_exchange _ _ ∷ ds) = queues_for exchange key ds
  queues_for exchange key (assert_queue _ _ ∷ ds) = queues_for exchange key ds
  queues_for exchange key (bind_queue queue bound pattern ∷ ds) =
      let rest = queues_for exchange key ds in
      if bound == exchange && topic.matches pattern key then queue ∷ rest else rest

  -- A binding `w.*` takes exactly the keys of domain w.
  bound_by :
      (w : String) (d : Domain) (a : String)
      → is_word w ≡ true
      → is_word a ≡ true
      → topic.matches (w ++ ".*") (name_of d ++ ("." ++ a)) ≡ (w == name_of d)
  bound_by w d a word action = topic.one_word w (name_of d) a word (name-IsWord d) action

  -- The five bindings of `secondhand.events`, as tests on the domain.
  abbrev bound_queues : Domain → List String
  bound_queues d =
      let products = if "product" == name_of d then "secondhand.products.process" ∷ [] else [] in
      let users = if "user" == name_of d then "secondhand.users.process" ∷ products else products in
      let notifications =
        if "notification" == name_of d then "secondhand.notifications.send" ∷ users else users in
      let payments =
        if "payment" == name_of d
        then "secondhand.payments.process" ∷ notifications
        else notifications in
      if "order" == name_of d then "secondhand.orders.process" ∷ payments else payments

  bound_queues-home : (d : Domain) → bound_queues d ≡ home d
  bound_queues-home user = refl
  bound_queues-home _ = refl

  queues_for-home :
      (d : Domain) (a : String)
      → is_word a ≡ true
      → queues_for "secondhand.events" (name_of d ++ ("." ++ a)) infrastructure ≡ home d
  unfolding infrastructure
  queues_for-home d a action =
      rw
        (
          bound_by "order" d a refl action,
          bound_by "payment" d a refl action,
          bound_by "notification" d a refl action,
          bound_by "user" d a refl action,
          bound_by "product" d a refl action,
        )
        (bound_queues-home d)

  -- A published event is put into exactly one queue, that of its domain; but an event about
  -- messages into none, so that it is lost.
  pub message_of-home :
      (options : PublishOptions) (event : BaseEvent)
      → queues_for
          (message_of options event).exchange
          (message_of options event).routing_key
          infrastructure
        ≡ home (domain_of event.event_type)
  unfolding message_of
  message_of-home options event = rw (key_parts event.event_type) (
      queues_for-home (domain_of event.event_type) (action_of event.event_type)
        (action-IsWord event.event_type))
