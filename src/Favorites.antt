-- ===== src/Favorites.antt =====
-- src/modules/favorites: products that users like.
pub mod FavoritesRepository
pub mod FavoritesService
pub mod Liking
