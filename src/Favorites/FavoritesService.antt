-- ===== src/Favorites/FavoritesService.antt =====
-- src/modules/favorites/favorites.service.ts.
use secondhand_api.Prelude.{ℕ, String, Bool, ◌==◌, eqb}
use secondhand_api.Http.{bad_request, conflict, not_found}
use secondhand_api.Exec.{Exec, pure, throw_if, ◌>>=◌, ◌>>◌}
use secondhand_api.Schema.{Favorite}
use secondhand_api.World.{Backend, World, product_liked, new_date, new_id, emit}
use secondhand_api.Products.ProductsService
use secondhand_api.Favorites.FavoritesRepository
use secondhand_api.Favorites.FavoritesRepository.{FavoritePage}

-- The row that `addFavorite` stores.
unfoldable pub new_favorite : String → ℕ → String → String → Favorite
new_favorite id now user_id product_id = record {
  id = id;
  user_id = user_id;
  product_id = product_id;
  created_at = now;
}

module _ ⦃b : Backend⦄ where
  -- `productService.findById` throws where there is no product, so what it returns is one.
  unfoldable pub add_favorite : String → String → Exec World Favorite
  unfolding ProductsService.find_by_id FavoritesRepository.exist FavoritesRepository.create
      new_favorite new_id new_date emit
  add_favorite user_id product_id = do
    product ← ProductsService.find_by_id product_id
    throw_if (product.seller_id == user_id) (bad_request "본인 상품은 찜할 수 없습니다")
    is_exist ← FavoritesRepository.exist user_id product_id
    throw_if is_exist (conflict "이미 찜한 상품입니다")
    id ← new_id
    now ← new_date
    favorite ← FavoritesRepository.create (new_favorite id now user_id product_id)
    emit (product_liked favorite.id product_id user_id product.seller_id)
    pure favorite

  -- The pages as the repository gives them; the service only groups the counts under `meta`.
  unfoldable pub list : String → ℕ → ℕ → (Favorite → Favorite → Bool) → Exec World FavoritePage
  unfolding FavoritesRepository.find_many
  list = FavoritesRepository.find_many

  unfoldable pub check_favorite : String → String → Exec World Bool
  unfolding FavoritesRepository.exist
  check_favorite = FavoritesRepository.exist

  unfoldable pub remove_favorite : String → String → Exec World (Unit {0})
  unfolding FavoritesRepository.delete
  remove_favorite user_id product_id = do
    count ← FavoritesRepository.delete user_id product_id
    throw_if (eqb count 0) (not_found "찜한 상품이 아닙니다")
