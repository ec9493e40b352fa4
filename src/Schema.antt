-- ===== src/Schema.antt =====
-- The rows of prisma/schema.prisma, as the services read and write them. Ratings and trust scores,
-- which the program rounds to one decimal, are numbers of tenths. A latitude or longitude is a code
-- for the number given; 0 stands for the number 0.
pub mod Chats
pub mod Documents
use secondhand_api.Prelude.{
  ℕ, String, Bool, false, ◌||◌, ◌&&◌, Option, some, List, [], ◌∷◌, ◌==◌, eqb,
}

pub data Role : Type 0 where
  admin user guest seller buyer : Role

pub data ProductCondition : Type 0 where
  brand_new like_new good fair poor : ProductCondition

pub data ProductStatus : Type 0 where
  active reserved sold deleted : ProductStatus

pub data OrderStatus : Type 0 where
  pending payment_pending paid shipping delivered confirmed cancelled refunded : OrderStatus

pub data PaymentMethod : Type 0 where
  card bank_transfer virtual_account kakaopay tosspay meet_in_person : PaymentMethod

-- The position of a status in its enum, by which `===` compares.
abbrev pub product_ordinal : ProductStatus → ℕ
product_ordinal active = 0
product_ordinal reserved = 1
product_ordinal sold = 2
product_ordinal deleted = 3

abbrev pub order_ordinal : OrderStatus → ℕ
order_ordinal pending = 0
order_ordinal payment_pending = 1
order_ordinal paid = 2
order_ordinal shipping = 3
order_ordinal delivered = 4
order_ordinal confirmed = 5
order_ordinal cancelled = 6
order_ordinal refunded = 7

abbrev pub same_product_status : ProductStatus → ProductStatus → Bool
same_product_status a b = eqb (product_ordinal a) (product_ordinal b)

abbrev pub same_order_status : OrderStatus → OrderStatus → Bool
same_order_status a b = eqb (order_ordinal a) (order_ordinal b)

-- `statuses.includes(s)`
abbrev pub includes_status : OrderStatus → List OrderStatus → Bool
includes_status s [] = false
includes_status s (x ∷ xs) = same_order_status x s || includes_status s xs

pub record User : Type 0 where
  pub id : String
  pub email : String
  pub password : String
  pub name : Option String
  pub nickname : String
  pub phone_number : Option String
  pub profile_image : Option String
  pub bio : Option String
  pub role : Role
  pub email_verified : Bool
  pub phone_verified : Bool
  pub is_active : Bool
  pub rating : ℕ
  pub rating_count : ℕ
  pub trust_score : ℕ
  pub created_at : ℕ
  pub last_login_at : Option ℕ

pub record Product : Type 0 where
  pub id : String
  pub seller_id : String
  pub category_id : String
  pub title : String
  pub description : String
  pub price : ℕ
  pub condition : ProductCondition
  pub status : ProductStatus
  pub shipping_available : Bool
  pub local_pickup : Bool
  pub location : Option String
  pub latitude : Option ℕ
  pub longitude : Option ℕ
  pub images : List String
  pub thumbnail : Option String
  pub view_count : ℕ
  pub created_at : ℕ
  pub sold_at : Option ℕ

pub record Order : Type 0 where
  pub id : String
  pub buyer_id : String
  pub seller_id : String
  pub product_id : String
  pub order_number : String
  pub total_amount : ℕ
  pub shipping_fee : ℕ
  pub status : OrderStatus
  pub recipient_name : Option String
  pub recipient_phone : Option String
  pub shipping_address : Option String
  pub shipping_postcode : Option String
  pub tracking_number : Option String
  pub payment_method : Option PaymentMethod
  pub payment_id : Option String
  pub paid_at : Option ℕ
  pub created_at : ℕ
  pub confirmed_at : Option ℕ
  pub completed_at : Option ℕ
  pub cancelled_at : Option ℕ

pub record Review : Type 0 where
  pub id : String
  pub order_id : String
  pub reviewer_id : String
  pub reviewed_id : String
  pub rating : ℕ
  pub comment : Option String
  pub images : List String
  pub created_at : ℕ

pub record Favorite : Type 0 where
  pub id : String
  pub user_id : String
  pub product_id : String
  pub created_at : ℕ

pub record Category : Type 0 where
  pub id : String
  pub name : String
  pub slug : String
  pub icon : Option String
  pub order : ℕ
  pub is_active : Bool
  pub parent_id : Option String
  pub created_at : ℕ

-- The unique columns of each model. Two absent values do not clash.
abbrev pub same_given : Option String → Option String → Bool
same_given (some a) (some b) = a == b
same_given _ _ = false

abbrev pub user_conflicts : User → User → Bool
user_conflicts u v =
    u.id == v.id
    || u.email == v.email
    || u.nickname == v.nickname
    || same_given u.phone_number v.phone_number

abbrev pub product_conflicts : Product → Product → Bool
product_conflicts p q = p.id == q.id

abbrev pub order_conflicts : Order → Order → Bool
order_conflicts o p =
    o.id == p.id || o.order_number == p.order_number || same_given o.payment_id p.payment_id

abbrev pub review_conflicts : Review → Review → Bool
review_conflicts r s = r.id == s.id || r.order_id == s.order_id

abbrev pub favorite_conflicts : Favorite → Favorite → Bool
favorite_conflicts f g = f.id == g.id || (f.user_id == g.user_id && f.product_id == g.product_id)

abbrev pub category_conflicts : Category → Category → Bool
category_conflicts c d = c.id == d.id || c.name == d.name || c.slug == d.slug
