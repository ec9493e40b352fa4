-- ===== src/Events/EventTypes.antt =====
-- src/events/types/event.types.ts. A record of any values is known by its JSON text, and a moment by
-- its milliseconds.
use secondhand_api.Prelude.{ℕ, String, Option, List}

pub data EventType : Type 0 where
  user_registered user_verified user_updated user_deleted : EventType
  product_created product_updated product_deleted product_reserved product_sold : EventType
  order_created order_paid order_processing order_shipped : EventType
  order_delivered order_cancelled order_refunded : EventType
  payment_requested payment_completed payment_failed : EventType
  payment_cancelled payment_refunded : EventType
  notification_email notification_sms notification_push : EventType
  message_sent message_read message_deleted : EventType

pub data Domain : Type 0 where
  user product order payment notification message : Domain

-- A value of the enum is `domain.action`.
unfoldable pub domain_of : EventType → Domain
domain_of EventType.user_registered = user
domain_of EventType.user_verified = user
domain_of EventType.user_updated = user
domain_of EventType.user_deleted = user
domain_of EventType.product_created = product
domain_of EventType.product_updated = product
domain_of EventType.product_deleted = product
domain_of EventType.product_reserved = product
domain_of EventType.product_sold = product
domain_of EventType.order_created = order
domain_of EventType.order_paid = order
domain_of EventType.order_processing = order
domain_of EventType.order_shipped = order
domain_of EventType.order_delivered = order
domain_of EventType.order_cancelled = order
domain_of EventType.order_refunded = order
domain_of EventType.payment_requested = payment
domain_of EventType.payment_completed = payment
domain_of EventType.payment_failed = payment
domain_of EventType.payment_cancelled = payment
domain_of EventType.payment_refunded = payment
domain_of EventType.notification_email = notification
domain_of EventType.notification_sms = notification
domain_of EventType.notification_push = notification
domain_of EventType.message_sent = message
domain_of EventType.message_read = message
domain_of EventType.message_deleted = message

unfoldable pub routing_key : EventType → String
routing_key EventType.user_registered = "user.registered"
routing_key EventType.user_verified = "user.verified"
routing_key EventType.user_updated = "user.updated"
routing_key EventType.user_deleted = "user.deleted"
routing_key EventType.product_created = "product.created"
routing_key EventType.product_updated = "product.updated"
routing_key EventType.product_deleted = "product.deleted"
routing_key EventType.product_reserved = "product.reserved"
routing_key EventType.product_sold = "product.sold"
routing_key EventType.order_created = "order.created"
routing_key EventType.order_paid = "order.paid"
routing_key EventType.order_processing = "order.processing"
routing_key EventType.order_shipped = "order.shipped"
routing_key EventType.order_delivered = "order.delivered"
routing_key EventType.order_cancelled = "order.cancelled"
routing_key EventType.order_refunded = "order.refunded"
routing_key EventType.payment_requested = "payment.requested"
routing_key EventType.payment_completed = "payment.completed"
routing_key EventType.payment_failed = "payment.failed"
routing_key EventType.payment_cancelled = "payment.cancelled"
routing_key EventType.payment_refunded = "payment.refunded"
routing_key EventType.notification_email = "notification.email"
routing_key EventType.notification_sms = "notification.sms"
routing_key EventType.notification_push = "notification.push"
routing_key EventType.message_sent = "message.sent"
routing_key EventType.message_read = "message.read"
routing_key EventType.message_deleted = "message.deleted"

-- The `data` of each kind of event.
pub data DomainEvent : Type 0 where
  user_registered_event : (user_id : ℕ) (email : String) (phone : Option String) → DomainEvent
  user_verified_event : (user_id : ℕ) (email verification_type : String) → DomainEvent
  user_updated_event : (user_id : ℕ) (updated_fields : List String) → DomainEvent
  product_created_event :
      (product_id seller_id : ℕ) (title : String) (price category_id : ℕ) → DomainEvent
  product_updated_event : (product_id seller_id : ℕ) (updated_fields : List String) → DomainEvent
  product_deleted_event : (product_id seller_id : ℕ) → DomainEvent
  product_sold_event : (product_id seller_id buyer_id order_id : ℕ) → DomainEvent
  order_created_event : (order_id buyer_id seller_id product_id total_amount : ℕ) → DomainEvent
  order_paid_event : (order_id buyer_id seller_id total_amount payment_id : ℕ) → DomainEvent
  order_cancelled_event : (order_id buyer_id seller_id : ℕ) (reason : String) → DomainEvent
  order_delivered_event : (order_id buyer_id seller_id delivered_at : ℕ) → DomainEvent
  payment_completed_event :
      (payment_id order_id amount : ℕ) (payment_method transaction_id : String) → DomainEvent
  payment_failed_event :
      (order_id amount : ℕ) (payment_method error_code error_message : String) → DomainEvent
  payment_refunded_event :
      (payment_id order_id amount : ℕ) (reason : String) (refunded_at : ℕ) → DomainEvent
  notification_email_event :
      (recipient_email subject template template_data : String) (priority : Option ℕ) → DomainEvent
  notification_sms_event : (recipient_phone text : String) (priority : Option ℕ) → DomainEvent
  notification_push_event :
      (recipient_user_id : ℕ) (title body : String) (extra : Option String) (priority : Option ℕ)
      → DomainEvent
  message_sent_event :
      (chat_room_id message_id sender_id receiver_id text message_type : String)
      (file_url file_name : Option String)
      → DomainEvent
  message_read_event : (chat_room_id user_id : String) (read_count : ℕ) → DomainEvent
  message_deleted_event : (chat_room_id : String) (deleted_count : ℕ) → DomainEvent

-- An event without an id has the empty text for it.
pub record BaseEvent : Type 0 where
  pub event_id : String
  pub event_type : EventType
  pub timestamp : Option ℕ
  pub user_id : Option ℕ
  pub metadata : Option String
  pub payload : DomainEvent
