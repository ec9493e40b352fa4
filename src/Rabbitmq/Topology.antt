-- ===== src/Rabbitmq/Topology.antt =====
-- What `setupInfrastructure` of src/rabbitmq/rabbitmq-connection.service.ts declares: the exchanges,
-- the queues and their bindings. Every one is durable.
use secondhand_api.Prelude.{ℕ, String, Option, none, some, List, [], ◌∷◌, ◌++◌}

pub data ExchangeType : Type 0 where
  topic direct : ExchangeType

-- deadLetterExchange and deadLetterRoutingKey; maxPriority
pub record QueueOptions : Type 0 where
  pub dead_letter : Option (String × String)
  pub max_priority : Option ℕ

pub data Declaration : Type 0 where
  assert_exchange : String → ExchangeType → Declaration
  assert_queue : String → QueueOptions → Declaration
  bind_queue : (queue exchange pattern : String) → Declaration

abbrev pub plain : QueueOptions
plain = record { dead_letter = none; max_priority = none }

-- { deadLetterExchange: 'secondhand.dlx', deadLetterRoutingKey: key }
abbrev pub failing_to : String → QueueOptions
failing_to key = record { dead_letter = some ("secondhand.dlx", key); max_priority = none }

-- A queue for the events of a kind, and one for those that failed.
unfoldable pub process_queues : (queue pattern failed failed_queue : String) → List Declaration
process_queues queue pattern failed failed_queue =
    assert_queue queue (failing_to failed)
    ∷ bind_queue queue "secondhand.events" pattern
    ∷ assert_queue failed_queue plain
    ∷ bind_queue failed_queue "secondhand.dlx" failed
    ∷ []

unfoldable pub exchanges : List Declaration
exchanges =
    assert_exchange "secondhand.events" topic
    ∷ assert_exchange "secondhand.commands" direct
    ∷ assert_exchange "secondhand.dlx" topic
    ∷ []

unfoldable pub order_queues : List Declaration
unfolding process_queues
order_queues =
    process_queues "secondhand.orders.process" "order.*" "orders.failed"
      "secondhand.orders.dead-letter"

unfoldable pub payment_queues : List Declaration
unfolding process_queues
payment_queues =
    process_queues "secondhand.payments.process" "payment.*" "payments.failed"
      "secondhand.payments.dead-letter"

unfoldable pub notification_queues : List Declaration
notification_queues =
    assert_queue "secondhand.notifications.send"
      (record { dead_letter = none; max_priority = some 10 })
    ∷ bind_queue "secondhand.notifications.send" "secondhand.events" "notification.*"
    ∷ []

unfoldable pub user_queues : List Declaration
unfolding process_queues
user_queues =
    process_queues "secondhand.users.process" "user.*" "users.failed" "secondhand.users.dead-letter"

unfoldable pub product_queues : List Declaration
unfolding process_queues
product_queues =
    process_queues "secondhand.products.process" "product.*" "products.failed"
      "secondhand.products.dead-letter"

unfoldable pub infrastructure : List Declaration
unfolding exchanges order_queues payment_queues notification_queues user_queues product_queues
infrastructure =
    exchanges
    ++ (order_queues
        ++ (payment_queues ++ (notification_queues ++ (user_queues ++ product_queues))))
