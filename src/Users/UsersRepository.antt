-- ===== src/Users/UsersRepository.antt =====
-- src/modules/users/repositories/users.repository.ts, as in Products/ProductsRepository. The call of
-- `softDelete` is returned without being awaited, so that a rejection of its transaction leaves the
-- method at once: there is no second attempt.
use secondhand_api.Prelude.{
  ℕ, String, Bool, false, ◌&&◌, ◌||◌, Option, some, List, ◌==◌, take, drop, length,
}
use secondhand_api.Http.{ok}
use secondhand_api.Exec.{Exec, transaction, ◌>>=◌, ◌>>◌}
use secondhand_api.Prisma.Delegate.{update_unique}
use secondhand_api.Schema.{
  User, Order, pending, payment_pending, cancelled, Product, active, deleted, same_given,
  same_order_status, same_product_status,
}
use secondhand_api.World.{Backend, World, user_at, or_reject, new_date}

-- where: { OR: [{ sellerId: id }, { buyerId: id }], status: { in: ['PENDING', 'PAYMENT_PENDING'] } }
abbrev pub is_unpaid_of : String → Order → Bool
is_unpaid_of id o =
    (o.seller_id == id || o.buyer_id == id)
    && (same_order_status o.status pending || same_order_status o.status payment_pending)

-- where: { sellerId: id, status: 'ACTIVE' }
abbrev pub is_offer_of : String → Product → Bool
is_offer_of id p = p.seller_id == id && same_product_status p.status active

module _ ⦃b : Backend⦄ where
  unfoldable pub create : User → Exec World User
  create u w = let (r, t) = b.user.create u w.users in (or_reject "P2002" r, record w { users = t })

  unfoldable pub find_by_id : String → Exec World (Option User)
  find_by_id id w = (ok (user_at w id), w)

  abbrev pub user_of_email : World → String → Option User
  user_of_email w email = b.user.find_first (λ u. u.email == email) w.users

  unfoldable pub find_by_email : String → Exec World (Option User)
  find_by_email email w = (ok (user_of_email w email), w)

  abbrev pub user_of_nickname : World → String → Option User
  user_of_nickname w nickname = b.user.find_first (λ u. u.nickname == nickname) w.users

  unfoldable pub find_by_nickname : String → Exec World (Option User)
  find_by_nickname nickname w = (ok (user_of_nickname w nickname), w)

  abbrev pub user_of_phone : World → String → Option User
  user_of_phone w phone = b.user.find_first (λ u. same_given u.phone_number (some phone)) w.users

  unfoldable pub find_by_phone_number : String → Exec World (Option User)
  find_by_phone_number phone w = (ok (user_of_phone w phone), w)

  -- `update`, for data that may name the unique nickname or phone number.
  unfoldable pub update : String → (User → User) → Exec World User
  update id f w = let (r, t) = update_unique b.user id f w.users in (r, record w { users = t })

  -- The hard delete.
  unfoldable pub delete : String → Exec World User
  delete id w =
      let (r, t) = b.user.delete id w.users in (or_reject "P2025" r, record w { users = t })

  unfoldable pub cancel_unpaid : String → Exec World (Unit {0})
  cancel_unpaid id w =
      let t =
        b.order.update_many (is_unpaid_of id) (λ o. record o { status = cancelled }) w.orders in
      (ok tt, record w { orders = t })

  unfoldable pub withdraw_offers : String → Exec World (Unit {0})
  withdraw_offers id w =
      let t =
        b.product.update_many (is_offer_of id) (λ p. record p { status = deleted }) w.products in
      (ok tt, record w { products = t })

  unfoldable pub deactivate : String → Exec World User
  deactivate id w =
      let (r, t) = b.user.update id (λ u. record u { is_active = false }) w.users in
      (or_reject "P2025" r, record w { users = t })

  unfoldable pub soft_delete : String → Exec World User
  unfolding cancel_unpaid withdraw_offers deactivate
  soft_delete id = transaction (do cancel_unpaid id; withdraw_offers id; deactivate id)

  unfoldable pub update_last_login : String → Exec World User
  unfolding new_date
  update_last_login id = do
    now ← new_date
    λ w.
        let (r, t) = b.user.update id (λ u. record u { last_login_at = some now }) w.users in
        (or_reject "P2025" r, record w { users = t })

  unfoldable pub find_many : (User → Bool) → (User → User → Bool) → ℕ → ℕ → Exec World (List User)
  find_many where_ before skip count w =
      (ok (take count (drop skip (b.user.find_sorted where_ before w.users))), w)

  unfoldable pub count : (User → Bool) → Exec World ℕ
  count where_ w = (ok (length (b.user.find_many where_ w.users)), w)
