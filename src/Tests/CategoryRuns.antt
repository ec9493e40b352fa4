-- ===== src/Tests/CategoryRuns.antt =====
-- The theorems on src/modules/categories, applied to two categories.
use secondhand_api.Prelude.{
  true, ◌≡◌, refl, sym, ap, ◌∙◌, ◌⊎◌, inl, inr, String, some, none, List, [], ◌∷◌, ◌==◌, eq_iff,
  arith, Bool-cases,
}
use secondhand_api.Http.{ok}
use secondhand_api.Schema.{Category}
use secondhand_api.World.{category_at}
use secondhand_api.Prisma.Memory.{find}
use secondhand_api.Tests.Fixture.{example_backend, shelf, library}
use secondhand_api.Categories.CategoriesService.{UpdateCategoryDto}
use secondhand_api.Categories.Forest.{Rooted, root, child}
use secondhand_api.Categories.Descent.{IsShallow}
use secondhand_api.Categories.Loading.{AreTreesOf, roots, find_tree-AreTreesOf}
use secondhand_api.Categories.TreeQuery.{Trees, find_tree}
use secondhand_api.Categories.Moving.{IsTree}
use secondhand_api.Categories.Upkeep.{Edit, edit_all, edit_all-IsTree}

only_shelves :
    (k : String) (c : Category)
    → category_at library k ≡ some c
    → ((k ≡ "books") × (shelf "books" none ≡ c))
      ⊎ ((k ≡ "novels") × (shelf "novels" (some "books") ≡ c))
unfolding find
only_shelves k c h = elim (Bool-cases ("books" == k)) [
  | inl books ↦ inl (sym ((eq_iff "books" k).0 books), ground (arith, books))
  | inr other ↦ elim (Bool-cases ("novels" == k)) [
    | inl novels ↦ inr (sym ((eq_iff "novels" k).0 novels), ground (arith, novels, other))
    | inr away ↦ ground (arith, other, away)
  ]
]

books-Rooted : Rooted (category_at library) "books"
unfolding find
books-Rooted = root "books" (shelf "books" none) refl refl

library-IsTree : IsTree library
unfolding find
library-IsTree k c there = elim (only_shelves k c there) [
  | inl (books, _) ↦ rw books books-Rooted
  | inr (novels, _) ↦
      rw novels (child "novels" "books" (shelf "novels" (some "books")) refl refl books-Rooted)
]

abbrev under_novels : UpdateCategoryDto
under_novels = record {
  name = none;
  slug = none;
  icon = none;
  parent_id = some (some "novels");
  order = none;
  is_active = none;
}

abbrev edits : List Edit
edits = Edit.update 5 "books" under_novels ∷ Edit.remove "novels" ∷ []

edit_all-IsTree_example : IsTree (edit_all edits library)
edit_all-IsTree_example = edit_all-IsTree edits library library-IsTree

only_novels :
    (j k : String) (d : Category)
    → category_at library j ≡ some d
    → d.parent_id ≡ some k
    → (j ≡ "novels") × (k ≡ "books")
only_novels j k d at up = elim (only_shelves j d at) [
  | inl (_, same) ↦ (let e = ap (λ (r : Category). r.parent_id) same ∙ up in cc)
  | inr (novels, same) ↦ (novels, (let e = ap (λ (r : Category). r.parent_id) same ∙ up in cc))
]

novels≢books : (j : String) → j ≡ "novels" → j ≡ "books" → ⊥
novels≢books j novels books = let e = (eq_iff "novels" "books").1 (sym novels ∙ books) in cc

library-IsShallow :
    (k : String) (c : Category) → category_at library k ≡ some c → IsShallow library 2 k
library-IsShallow k c there = λ j d at up i e at' up' _.
    novels≢books j (only_novels j k d at up).0 (only_novels i j e at' up').1

find_tree-AreTreesOf_example :
    (ts : Trees) × (find_tree 2 (some true) library ≡ (ok ts, library))
    × AreTreesOf (some true) library (roots (some true) library) ts
find_tree-AreTreesOf_example = find_tree-AreTreesOf (some true) library 2 library-IsShallow
