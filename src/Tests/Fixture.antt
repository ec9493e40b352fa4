-- ===== src/Tests/Fixture.antt =====
-- A small market in memory, on which the theorems are run: users a, b and c; seller a offers p1,
-- and p2 is on its way to b with order o1.
use secondhand_api.Prelude.{
  Option, true, false, ℕ, String, none, some, [], ◌∷◌, eqb, if◌then◌else◌, eq_self, ◌==◌,
}
use secondhand_api.Prisma.Memory.{memory}
use secondhand_api.Schema.{
  User, Role, Review, user_conflicts, Product, product_conflicts, Order, OrderStatus,
  order_conflicts, review_conflicts, favorite_conflicts, category_conflicts, good, active, reserved,
  confirmed, paid, Category, ProductStatus,
}
use secondhand_api.Schema.Chats.{
  room_conflicts, member_conflicts, message_conflicts, notification_conflicts,
}
use secondhand_api.Schema.Documents.{room_document_conflicts, message_document_conflicts}
use secondhand_api.World.{Backend, World}
use secondhand_api.Users.Security.{Security}
use secondhand_api.Products.ProductsService.{UpdateProductDto, SearchProductDto}
use secondhand_api.Orders.OrdersService.{CreateOrderDto, UpdateOrderDto}

-- Ids are drawn in turn from a few.
abbrev pub some_id : ℕ → String
some_id n = if eqb n 2 then "id2" else if eqb n 6 then "id6" else "other"

instance abbrev pub example_backend : Backend
example_backend = record {
  user = memory (λ r. r.id) user_conflicts;
  product = memory (λ r. r.id) product_conflicts;
  order = memory (λ r. r.id) order_conflicts;
  review = memory (λ r. r.id) review_conflicts;
  favorite = memory (λ r. r.id) favorite_conflicts;
  category = memory (λ r. r.id) category_conflicts;
  chat_room = memory (λ r. r.id) room_conflicts;
  chat_room_member = memory (λ r. r.id) member_conflicts;
  chat_message = memory (λ r. r.id) message_conflicts;
  notification = memory (λ r. r.id) notification_conflicts;
  mongo_room = memory (λ r. r.id) room_document_conflicts;
  mongo_message = memory (λ r. r.id) message_document_conflicts;
  date = λ n. n;
  compact_date = λ d. "20250101";
  random = λ n i. i;
  uuid = some_id;
  contains_insensitive = λ keyword text. keyword == text;
  within = λ lat1 lon1 lat2 lon2 radius_km. true;
}

abbrev pub offer : String → ProductStatus → Product
offer id status = record {
  id = id;
  seller_id = "a";
  category_id = "books";
  title = "A book";
  description = "Read once";
  price = 900;
  condition = good;
  status = status;
  shipping_available = false;
  local_pickup = true;
  location = none;
  latitude = none;
  longitude = none;
  images = [];
  thumbnail = none;
  view_count = 0;
  created_at = 0;
  sold_at = none;
}

abbrev pub deal : OrderStatus → Order
deal status = record {
  id = "o1";
  buyer_id = "b";
  seller_id = "a";
  product_id = "p2";
  order_number = "ORD-1";
  total_amount = 900;
  shipping_fee = 0;
  status = status;
  recipient_name = none;
  recipient_phone = none;
  shipping_address = none;
  shipping_postcode = none;
  tracking_number = none;
  payment_method = none;
  payment_id = none;
  paid_at = none;
  created_at = 0;
  confirmed_at = none;
  completed_at = none;
  cancelled_at = none;
}

abbrev pub member : String → User
member id = record {
  id = id;
  email = id;
  password = id;
  name = none;
  nickname = id;
  phone_number = none;
  profile_image = none;
  bio = none;
  role = Role.user;
  email_verified = false;
  phone_verified = false;
  is_active = true;
  rating = 0;
  rating_count = 0;
  trust_score = 0;
  created_at = 0;
  last_login_at = none;
}

-- The review of order o1 by its buyer.
abbrev pub praise : Review
praise = record {
  id = "r1";
  order_id = "o1";
  reviewer_id = "b";
  reviewed_id = "a";
  rating = 4;
  comment = none;
  images = [];
  created_at = 0;
}

-- A hash that is a password with its salt left out, and tokens that say nothing.
instance abbrev pub example_security : Security
example_security = record {
  hash = λ salt password. password;
  matches = λ password hashed. password == hashed;
  sign = λ claims n. "token";
  matches-hash = λ salt password. eq_self password;
}

-- With order o1 in some status.
abbrev pub market : OrderStatus → World
market status = record {
  users = member "a" ∷ member "b" ∷ member "c" ∷ [];
  products = offer "p1" active ∷ offer "p2" reserved ∷ [];
  orders = deal status ∷ [];
  reviews = [];
  favorites = [];
  categories = [];
  rooms = [];
  members = [];
  messages = [];
  notifications = [];
  mongo_rooms = [];
  mongo_messages = [];
  readings = 0;
  events = [];
}

abbrev pub buy : String → CreateOrderDto
buy product_id = record {
  product_id = product_id;
  total_amount = 900;
  shipping_fee = none;
  recipient_name = none;
  recipient_phone = none;
  shipping_address = none;
  shipping_postcode = none;
  payment_method = none;
}

abbrev pub move_to : OrderStatus → UpdateOrderDto
move_to status = record {
  status = some status;
  recipient_name = none;
  recipient_phone = none;
  shipping_address = none;
  shipping_postcode = none;
  tracking_number = none;
  payment_method = none;
  payment_id = none;
}

-- With the review of o1 by b too.
abbrev pub reviewed_market : World
reviewed_market = record (market confirmed) { reviews = praise ∷ [] }

abbrev pub set_active : UpdateProductDto
set_active = record {
  title = none;
  description = none;
  price = none;
  category_id = none;
  condition = none;
  status = some active;
  images = none;
  latitude = none;
  longitude = none;
  location = none;
}

abbrev pub query : SearchProductDto
query = record {
  keyword = none;
  category_id = some "books";
  min_price = none;
  max_price = none;
  status = none;
  seller_id = none;
  latitude = none;
  longitude = none;
  radius_km = none;
  page = none;
  limit = some 1;
}

abbrev pub shelf : String → Option String → Category
shelf id parent_id = record {
  id = id;
  name = id;
  slug = id;
  icon = none;
  order = 0;
  is_active = true;
  parent_id = parent_id;
  created_at = 0;
}

-- With novels among the books.
abbrev pub library : World
library = record (market paid) {
  categories = shelf "books" none ∷ shelf "novels" (some "books") ∷ [];
}
