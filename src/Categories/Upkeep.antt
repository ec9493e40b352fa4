-- ===== src/Categories/Upkeep.antt =====
-- A sequence of calls of the methods of src/modules/categories/categories.service.ts that write, each
-- run to its end before the next, whether it returns or throws.
use secondhand_api.Prelude.{
  ℕ, String, some, List, [], ◌∷◌, ◌≡◌, refl, eq_self, inl, inr, Option-cases,
}
use secondhand_api.Prisma.Delegate.{update_unique_cases}
use secondhand_api.Schema.{Category}
use secondhand_api.World.{Backend, World, category_at}
use secondhand_api.Categories.CategoriesRepository
use secondhand_api.Categories.CategoriesService
use secondhand_api.Categories.CategoriesService.{CreateCategoryDto, UpdateCategoryDto}
use secondhand_api.Categories.Forest.{IsForest-stays}
use secondhand_api.Categories.Moving.{IsTree}
use secondhand_api.Categories.Tree.{update-IsTree, remove-IsTree}
use secondhand_api.Categories.Planting.{create-IsTree}

pub data Edit : Type 0 where
  create : CreateCategoryDto → Edit
  update : (fuel : ℕ) (id : String) → UpdateCategoryDto → Edit
  remove : (id : String) → Edit
  reorder : (id : String) (order : ℕ) → Edit

module _ ⦃b : Backend⦄ where
  reordered-IsTree :
      (id : String) (order : ℕ) (c : Category) (w : World)
      → category_at w id ≡ some c
      → IsTree w
      → IsTree (record w {
        categories = (b.category.update id (λ r. record r { order = order }) w.categories).1;
      })
  reordered-IsTree id order c w found tree =
      let f = λ (r : Category). record r { order = order } in
      let at = λ (k : String). b.category.find-update id k f w.categories (λ r. refl) in
      IsForest-stays id (λ k away. rw (at k, away) refl) c (f c) tree found
        (rw (at id, eq_self id, found) refl) refl

  update_order-IsTree :
      (id : String) (order : ℕ) (w : World)
      → IsTree w
      → IsTree (CategoriesService.update_order id order w).1
  unfolding CategoriesService.update_order CategoriesRepository.update_order
      CategoriesRepository.update
  update_order-IsTree id order w tree = elim (Option-cases (category_at w id)) [
    | inl gone ↦ rw gone tree
    | inr (c, found) ↦
        elim (update_unique_cases b.category id (λ r. record r { order = order }) w.categories c
          found) [
            | inl stored ↦ rw (found, stored) (reordered-IsTree id order c w found tree)
            | inr taken ↦ rw (found, taken) tree
          ]
  ]

  unfoldable pub edit : Edit → World → World
  edit (create dto) w = (CategoriesService.create dto w).1
  edit (update fuel id dto) w = (CategoriesService.update fuel id dto w).1
  edit (remove id) w = (CategoriesService.remove id w).1
  edit (reorder id order) w = (CategoriesService.update_order id order w).1

  unfoldable pub edit_all : List Edit → World → World
  unfolding edit
  edit_all [] w = w
  edit_all (e ∷ es) w = edit_all es (edit e w)

  edit-IsTree : (e : Edit) (w : World) → IsTree w → IsTree (edit e w)
  unfolding edit
  edit-IsTree (create dto) w tree = create-IsTree dto w tree
  edit-IsTree (update fuel id dto) w tree = update-IsTree fuel id dto w tree
  edit-IsTree (remove id) w tree = remove-IsTree id w tree
  edit-IsTree (reorder id order) w tree = update_order-IsTree id order w tree

  -- Where the parents of each category lead up to one without a parent, they do so after any
  -- sequence of calls of the category service, one after the other.
  pub edit_all-IsTree : (es : List Edit) (w : World) → IsTree w → IsTree (edit_all es w)
  unfolding edit_all
  edit_all-IsTree [] w tree = tree
  edit_all-IsTree (e ∷ es) w tree = edit_all-IsTree es (edit e w) (edit-IsTree e w tree)
