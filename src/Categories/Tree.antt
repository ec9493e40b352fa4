-- ===== src/Categories/Tree.antt =====
-- No call of src/modules/categories/categories.service.ts makes the tree of categories go round.
use secondhand_api.Prelude.{
  any-empty, ℕ, String, true, false, some, ◌≡◌, refl, sym, ◌∙◌, inl, inr, ◌==◌, ltb, length,
  eq_self, Bool-cases, Option-cases, given,
}
use secondhand_api.Prisma.Delegate.{update_unique_cases}
use secondhand_api.World.{Backend, World, category_at}
use secondhand_api.Categories.CategoriesRepository
use secondhand_api.Categories.CategoriesRepository.{is_taken, is_child_of}
use secondhand_api.Categories.CategoriesService
use secondhand_api.Categories.CategoriesService.{UpdateCategoryDto, update_data, renames}
use secondhand_api.Categories.Forest.{IsForest-removes}
use secondhand_api.Categories.Moving.{
  IsTree, check_free_cases, check_new_parent_cases, updated-IsTree,
}

module _ ⦃b : Backend⦄ where
  -- Whatever is asked and however it ends, `update` leaves the parents of each category leading up
  -- to one without a parent, if they did so before.
  pub update-IsTree :
      (fuel : ℕ) (id : String) (dto : UpdateCategoryDto) (w : World)
      → IsTree w
      → IsTree (CategoriesService.update fuel id dto w).1
  unfolding CategoriesService.update CategoriesRepository.exists_by_name
      CategoriesRepository.exists_by_slug CategoriesRepository.update
  update-IsTree fuel id dto w tree = elim (Option-cases (category_at w id)) [
    | inl gone ↦ rw gone tree
    | inr (c, found) ↦
        elim (check_free_cases (renames dto.name c.name) _
          (CategoriesRepository.exists_by_name (given dto.name "") (some id)) "이미 존재하는 카테고리 이름입니다" w
          refl) [
            | inr (e, name_taken) ↦ rw (found, name_taken) tree
            | inl name_free ↦
                elim (check_free_cases (renames dto.slug c.slug) _
                  (CategoriesRepository.exists_by_slug (given dto.slug "") (some id))
                  "이미 사용 중인 슬러그입니다" w refl) [
                    | inr (e, slug_taken) ↦ rw (found, name_free, slug_taken) tree
                    | inl slug_free ↦ elim (check_new_parent_cases fuel id dto.parent_id w) [
                      | inr (e, refused) ↦ rw (found, name_free, slug_free, refused) tree
                      | inl (passes, parent) ↦
                          elim (update_unique_cases b.category id (update_data dto) w.categories c
                            found) [
                              | inr taken ↦ rw (found, name_free, slug_free, passes, taken) tree
                              | inl stored ↦
                                  rw (found, name_free, slug_free, passes, stored)
                                    (updated-IsTree id dto c w found dto.parent_id refl parent tree)
                            ]
                    ]
                  ]
          ]
  ]

  -- A category without children and its table without it.
  deleted-IsTree :
      (id : String) (w : World)
      → ltb 0 (length (b.category.find_many (is_child_of id) w.categories)) ≡ false
      → IsTree w
      → IsTree (record w { categories = (b.category.delete id w.categories).1 })
  deleted-IsTree id w bare tree =
      let at = λ (k : String). b.category.find-delete id k w.categories in
      IsForest-removes id (λ k away. rw (at k, away) refl)
        (λ k c there up.
          let child_of : is_child_of id c ≡ true = rw up (eq_self id) in
          let missed =
            b.category.none_many _ (is_child_of id) w.categories (any-empty (is_child_of id) _ bare)
              k c there child_of in
          (let e = sym missed ∙ child_of in cc))
        tree (rw (at id, eq_self id) refl)

  -- However it ends, `remove` leaves the parents of each category leading up to one without a
  -- parent, if they did so before.
  pub remove-IsTree :
      (id : String) (w : World) → IsTree w → IsTree (CategoriesService.remove id w).1
  unfolding CategoriesService.remove
  remove-IsTree id w tree = elim (Option-cases (category_at w id)) [
    | inl gone ↦ rw gone tree
    | inr (c, found) ↦
        elim (Bool-cases (ltb 0 (length (b.category.find_many (is_child_of id) w.categories)))) [
          | inl parent ↦ rw (found, parent) tree
          | inr bare ↦
              elim (Bool-cases
                (ltb 0 (length (b.product.find_many (λ p. p.category_id == id) w.products)))) [
                  | inl used ↦ rw (found, bare, used) tree
                  | inr unused ↦
                      rw (found, bare, unused, b.category.delete_row, found)
                        (deleted-IsTree id w bare tree)
                ]
        ]
  ]
