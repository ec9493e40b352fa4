-- ===== src/Favorites/FavoritesRepository.antt =====
-- src/modules/favorites/repositories/favorites.repository.ts, as in Products/ProductsRepository.
-- The column and direction to sort by are an order on rows.
use secondhand_api.Prelude.{
  ℕ, ◌-◌, ◌*◌, String, Bool, ◌&&◌, List, ◌==◌, ltb, take, drop, length, ceil_div,
}
use secondhand_api.Http.{ok}
use secondhand_api.Exec.{Exec}
use secondhand_api.Schema.{Favorite}
use secondhand_api.World.{Backend, World, or_reject}

-- where: { userId, productId }
abbrev pub is_liking : String → String → Favorite → Bool
is_liking user_id product_id f = f.user_id == user_id && f.product_id == product_id

pub record FavoritePage : Type 0 where
  pub items : List Favorite
  pub page : ℕ
  pub limit : ℕ
  pub total : ℕ
  pub total_page : ℕ
  pub has_next : Bool

module _ ⦃b : Backend⦄ where
  unfoldable pub create : Favorite → Exec World Favorite
  create f w =
      let (r, t) = b.favorite.create f w.favorites in
      (or_reject "P2002" r, record w { favorites = t })

  unfoldable pub find_many : String → ℕ → ℕ → (Favorite → Favorite → Bool) → Exec World FavoritePage
  find_many user_id page limit before w =
      let where_ = λ (f : Favorite). f.user_id == user_id in
      let items =
        take limit (drop ((page - 1) * limit) (b.favorite.find_sorted where_ before w.favorites)) in
      let total = length (b.favorite.find_many where_ w.favorites) in
      let total_page = ceil_div total limit in
      (
        ok (record {
          items = items;
          page = page;
          limit = limit;
          total = total;
          total_page = total_page;
          has_next = ltb page total_page;
        }),
        w,
      )

  unfoldable pub exist : String → String → Exec World Bool
  exist user_id product_id w =
      (ok (ltb 0 (length (b.favorite.find_many (is_liking user_id product_id) w.favorites))), w)

  -- The number of rows that are deleted.
  unfoldable pub delete : String → String → Exec World ℕ
  delete user_id product_id w = (
    ok (length (b.favorite.find_many (is_liking user_id product_id) w.favorites)),
    record w { favorites = b.favorite.delete_many (is_liking user_id product_id) w.favorites },
  )
