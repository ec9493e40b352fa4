-- ===== src/Tests/FavoriteRuns.antt =====
-- The theorems on src/modules/favorites, applied to the market of the fixture.
use secondhand_api.Prelude.{◌≡◌, refl, [], ◌∷◌, ◌++◌, true}
use secondhand_api.Http.{ok}
use secondhand_api.Schema.{paid, active}
use secondhand_api.World.{World, product_liked}
use secondhand_api.Prisma.Memory.{find, rows_of}
use secondhand_api.Tests.Fixture.{example_backend, market, offer}
use secondhand_api.Favorites.FavoritesService
use secondhand_api.Favorites.Liking.{liked, add_favorite-likes}

add_favorite-likes_example :
    (w' : World) × (FavoritesService.add_favorite "b" "p1" (market paid)
      ≡ (ok (liked "b" "p1" (offer "p1" active) (market paid)), w'))
    × (w'.events
        ≡ (market paid).events
          ++ product_liked (liked "b" "p1" (offer "p1" active) (market paid)).id "p1" "b" "a" ∷ [])
    × (FavoritesService.check_favorite "b" "p1" w' ≡ (ok true, w'))
unfolding find rows_of
add_favorite-likes_example =
    add_favorite-likes "b" "p1" (offer "p1" active) (market paid) refl refl refl refl
