-- ===== src/Categories.antt =====
-- src/modules/categories: the tree of categories.
pub mod CategoriesRepository
pub mod CategoriesService
pub mod Forest
pub mod TreeQuery
pub mod Descent
pub mod Loading
pub mod Moving
pub mod Tree
pub mod Planting
pub mod Upkeep
