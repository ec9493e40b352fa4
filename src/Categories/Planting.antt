-- ===== src/Categories/Planting.antt =====
-- A new category, by `create` of src/modules/categories/categories.service.ts.
use secondhand_api.Prelude.{
  if_truthy, ℕ, suc, String, Option, none, some, ◌≡◌, refl, ◌⊎◌, inl, inr, ◌==◌, arith, eq_iff,
  eq_self, Bool-cases, Option-cases,
}
use secondhand_api.Http.{Exception, ok, err, bad_request, not_found}
use secondhand_api.Schema.{Category, category_conflicts}
use secondhand_api.World.{Backend, World, category_at}
use secondhand_api.Categories.CategoriesRepository
use secondhand_api.Categories.CategoriesRepository.{is_taken}
use secondhand_api.Categories.CategoriesService
use secondhand_api.Categories.CategoriesService.{
  CreateCategoryDto, new_category, check_parent, check_given_parent,
}
use secondhand_api.Categories.Forest.{IsForest-grows}
use secondhand_api.Categories.Moving.{IsTree}

module _ ⦃b : Backend⦄ where
  -- No parent, or one that is there.
  abbrev HasParent : World → Option String → Type 0
  HasParent w parent =
      (parent ≡ none)
      ⊎ ((p : String) × (t : Category) × (parent ≡ some p) × (category_at w p ≡ some t))

  check_given_parent_cases :
      (parent : Option String) (w : World)
      → ((check_given_parent parent w ≡ (ok tt, w)) × HasParent w parent)
        ⊎ ((e : Exception) × (check_given_parent parent w ≡ (err e, w)))
  unfolding check_parent
  check_given_parent_cases none w = inl (refl, inl refl)
  check_given_parent_cases (some p) w = elim (Option-cases (category_at w p)) [
    | inl gone ↦ inr (not_found "부모 카테고리를 찾을 수 없습니다", rw gone refl)
    | inr (t, found) ↦ elim (Bool-cases t.is_active) [
      | inr idle ↦ inr (bad_request "비활성화된 부모 카테고리에는 자식을 추가할 수 없습니다", rw (found, idle) refl)
      | inl alive ↦ inl (rw (found, alive) refl, inr (p, t, refl, found))
    ]
  ]

  category-fresh :
      (c : Category) (w : World)
      → b.category.find_first (category_conflicts c) w.categories ≡ none
      → category_at w c.id ≡ none
  category-fresh c w free = elim (Option-cases (category_at w c.id)) [
    | inl gone ↦ gone
    | inr (x, there) ↦
        let differs = b.category.none_first _ w.categories free c.id x there in
        let same = b.category.key_of_found c.id w.categories x there in
        absurd (ground (arith, differs, same, eq_iff c.id x.id))
  ]

  stored-IsTree :
      (c : Category) (m : ℕ) (w : World)
      → b.category.find_first (category_conflicts c) w.categories ≡ none
      → HasParent w c.parent_id
      → IsTree w
      → IsTree (record w { categories = (b.category.create c w.categories).1; readings = m })
  stored-IsTree c m w free parent tree =
      let at = (b.category.create_free c w.categories free).1 in
      IsForest-grows c.id (λ k away. rw (at k, away) refl) (category-fresh c w free) c tree
        (rw (at c.id, eq_self c.id) refl) parent

  -- However it ends, `create` leaves the parents of each category leading up to one without a
  -- parent, if they did so before.
  pub create-IsTree :
      (dto : CreateCategoryDto) (w : World) → IsTree w → IsTree (CategoriesService.create dto w).1
  unfolding CategoriesService.create CategoriesRepository.exists_by_name
      CategoriesRepository.exists_by_slug new_category
  create-IsTree dto w tree =
      let by_name = is_taken none (b.category.find_first (λ c. c.name == dto.name) w.categories) in
      let by_slug = is_taken none (b.category.find_first (λ c. c.slug == dto.slug) w.categories) in
      let c = new_category (b.uuid w.readings) (b.date (suc w.readings)) dto in
      elim (Bool-cases by_name) [
        | inl name_taken ↦ rw name_taken tree
        | inr name_free ↦ elim (Bool-cases by_slug) [
          | inl slug_taken ↦ rw (name_free, slug_taken) tree
          | inr slug_free ↦ elim (check_given_parent_cases (if_truthy dto.parent_id) w) [
            | inr (e, refused) ↦ rw (name_free, slug_free, refused) tree
            | inl (passes, parent) ↦
                elim (Option-cases (b.category.find_first (category_conflicts c) w.categories)) [
                  | inr (x, taken) ↦
                      rw
                        (
                          name_free,
                          slug_free,
                          passes,
                          b.category.create_taken c x w.categories taken,
                        )
                        tree
                  | inl free ↦
                      rw (name_free, slug_free, passes)
                        (stored-IsTree c (suc (suc w.readings)) w free parent tree)
                ]
          ]
        ]
      ]
