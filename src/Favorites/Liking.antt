-- ===== src/Favorites/Liking.antt =====
-- Liking a product and taking it back, by src/modules/favorites/favorites.service.ts.
use secondhand_api.Prelude.{
  any-empty, suc, ◌+◌, String, Bool, true, false, none, some, [], ◌∷◌, ◌++◌, ◌≡◌, refl, ap, sym,
  ◌∙◌, inl, inr, ◌==◌, arith, eq_iff, eq_self, ltb, length, Bool-cases, Option-cases,
}
use secondhand_api.Http.{ok}
use secondhand_api.Prisma.Counting.{spared_by, counted, count_of_row, row_of_count}
use secondhand_api.Schema.{Favorite, favorite_conflicts, Product}
use secondhand_api.World.{Backend, World, product_liked, favorite_at, product_at}
use secondhand_api.Products.ProductsService
use secondhand_api.Products.ProductsRepository
use secondhand_api.Favorites.FavoritesRepository
use secondhand_api.Favorites.FavoritesRepository.{is_liking}
use secondhand_api.Favorites.FavoritesService
use secondhand_api.Favorites.FavoritesService.{new_favorite}

module _ ⦃b : Backend⦄ where
  -- Whether a user likes a product, as `exist` counts.
  abbrev pub likes : World → String → String → Bool
  likes w user_id product_id =
      ltb 0 (length (b.favorite.find_many (is_liking user_id product_id) w.favorites))

  -- A row of that kind is counted.
  likes_of_row :
      (w : World) (user_id product_id : String) (f : Favorite)
      → favorite_at w f.id ≡ some f
      → is_liking user_id product_id f ≡ true
      → likes w user_id product_id ≡ true
  likes_of_row w user_id product_id f there liking =
      count_of_row b.favorite (is_liking user_id product_id) w.favorites f.id f there liking

  module _ (user_id product_id : String) (p : Product) (w : World) where
    abbrev pub liked : Favorite
    liked = new_favorite (b.uuid w.readings) (b.date (suc w.readings)) user_id product_id

    abbrev liked_state : World
    liked_state = record w {
      products =
          (b.product.update product_id (λ q. record q { view_count = q.view_count + 1 })
            w.products).1;
      favorites = (b.favorite.create liked w.favorites).1;
      readings = suc (suc w.readings);
      events = w.events ++ product_liked (b.uuid w.readings) product_id user_id p.seller_id ∷ [];
    }

    liked-free :
        likes w user_id product_id ≡ false
        → favorite_at w (b.uuid w.readings) ≡ none
        → b.favorite.find_first (favorite_conflicts liked) w.favorites ≡ none
    unfolding new_favorite
    liked-free unlike fresh =
        elim (Option-cases (b.favorite.find_first (favorite_conflicts liked) w.favorites)) [
          | inl free ↦ free
          | inr (x, clash) ↦
              let (there, conflict) = b.favorite.found_first _ w.favorites x clash in
              let missed =
                b.favorite.none_many _ (is_liking user_id product_id) w.favorites
                  (any-empty _ _ unlike) x.id x there in
              let lik : (is_liking user_id product_id x ≡ true)
                  → is_liking user_id product_id x ≡ false =
                missed in
              ground (
                arith,
                there,
                conflict,
                fresh,
                lik,
                eq_iff (b.uuid w.readings) x.id,
                eq_iff user_id x.user_id,
                eq_iff x.user_id user_id,
                eq_iff product_id x.product_id,
                eq_iff x.product_id product_id,
              )
        ]

    -- Who likes a product of somebody else that they do not like yet, with an unused id to come,
    -- has it counted among their favorites, and one event `product.liked` that names the product and
    -- its seller is emitted in the process.
    pub add_favorite-likes :
        product_at w product_id ≡ some p
        → (p.seller_id == user_id) ≡ false
        → likes w user_id product_id ≡ false
        → favorite_at w (b.uuid w.readings) ≡ none
        → (w' : World) × (FavoritesService.add_favorite user_id product_id w ≡ (ok liked, w'))
          × (w'.events ≡ w.events ++ product_liked liked.id product_id user_id p.seller_id ∷ [])
          × (FavoritesService.check_favorite user_id product_id w' ≡ (ok true, w'))
    unfolding FavoritesService.add_favorite FavoritesService.check_favorite new_favorite
        ProductsService.find_by_id ProductsRepository.increment_view_count FavoritesRepository.exist
    add_favorite-likes found other unlike fresh =
        let free = liked-free unlike fresh in
        let stored = b.favorite.create_free liked w.favorites free in
        (
          liked_state,
          rw (found, other, unlike, stored.0) refl,
          refl,
          ap (λ x. (ok x, liked_state))
              (likes_of_row liked_state user_id product_id liked
                (rw (stored.1 liked.id, eq_self liked.id) refl)
                (rw (eq_self user_id, eq_self product_id) refl)),
        )

  module _ (user_id product_id : String) (w : World) where
    -- The state once the favorites of that kind are deleted.
    abbrev unliked_state : World
    unliked_state = record w {
      favorites = b.favorite.delete_many (is_liking user_id product_id) w.favorites;
    }

    unliked : likes unliked_state user_id product_id ≡ false
    unliked = elim (Bool-cases (likes unliked_state user_id product_id)) [
      | inr gone ↦ gone
      | inl left ↦
          let (f, there, liking) =
            row_of_count b.favorite (is_liking user_id product_id) unliked_state.favorites left in
          let after = b.favorite.find-delete_many (is_liking user_id product_id) f.id w.favorites in
          let (_, spared) = spared_by (is_liking user_id product_id) _ f (sym after ∙ there) in
          absurd (let e = sym spared ∙ liking in cc)
    ]

    -- Who likes a product can take that back, and then likes it no more.
    pub remove_favorite-unlikes :
        (FavoritesService.check_favorite user_id product_id w ≡ (ok true, w))
        → (w' : World) × (FavoritesService.remove_favorite user_id product_id w ≡ (ok tt, w'))
          × (FavoritesService.check_favorite user_id product_id w' ≡ (ok false, w'))
    unfolding FavoritesService.remove_favorite FavoritesService.check_favorite
        FavoritesRepository.delete FavoritesRepository.exist
    remove_favorite-unlikes likes_it =
        let some_ : likes w user_id product_id ≡ true = cc in
        (unliked_state, rw (counted _ some_) refl, ap (λ x. (ok x, unliked_state)) unliked)
