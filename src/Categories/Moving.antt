-- ===== src/Categories/Moving.antt =====
-- What `update` of src/modules/categories/categories.service.ts does to the tree of categories.
use secondhand_api.Prelude.{
  ℕ, String, Bool, true, false, Option, none, some, ◌≡◌, refl, ap, ◌∙◌, ◌⊎◌, inl, inr, ◌==◌,
  eq_self, eq_sym_false, Bool-cases, Option-cases, given,
}
use secondhand_api.Http.{Exception, Result-cases, ok, err, bad_request, conflict, not_found}
use secondhand_api.Exec.{Exec}
use secondhand_api.Schema.{Category}
use secondhand_api.World.{Backend, World, category_at}
use secondhand_api.Categories.CategoriesService.{
  UpdateCategoryDto, update_data, check_free, check_parent, check_move, check_new_parent,
  is_descendant,
}
use secondhand_api.Categories.Forest.{
  Below, IsForest, AgreeOff, IsForest-moves, IsForest-roots, IsForest-stays,
}
use secondhand_api.Categories.Descent.{is_descendant-keeps, is_descendant-false}

module _ ⦃b : Backend⦄ where
  abbrev pub IsTree : World → Type 0
  IsTree w = IsForest (category_at w)

  -- A new parent is there, is another category, and does not stand under the one that moves.
  pub record MayMove (w : World) (id parent_id : String) : Type 0 where
    pub parent : Category
    pub there : category_at w parent_id ≡ some parent
    pub other : (id == parent_id) ≡ false
    pub above : ¬ Below (category_at w) id parent_id

  check_move_cases :
      (fuel : ℕ) (id parent_id : String) (w : World)
      → ((check_move fuel id parent_id w ≡ (ok tt, w)) × MayMove w id parent_id)
        ⊎ ((e : Exception) × (check_move fuel id parent_id w ≡ (err e, w)))
  unfolding check_move check_parent
  check_move_cases fuel id parent_id w = elim (Bool-cases (parent_id == id)) [
    | inl self ↦ inr (bad_request "자기 자신을 부모 카테고리로 설정할 수 없습니다", rw self refl)
    | inr other ↦ elim (Option-cases (category_at w parent_id)) [
      | inl gone ↦ inr (not_found "부모 카테고리를 찾을 수 없습니다", rw (other, gone) refl)
      | inr (p, found) ↦ elim (Bool-cases p.is_active) [
        | inr idle ↦
            inr (bad_request "비활성화된 부모 카테고리에는 자식을 추가할 수 없습니다", rw (other, found, idle) refl)
        | inl alive ↦
            let keeps = is_descendant-keeps fuel id parent_id w in
            elim (Result-cases (is_descendant fuel id parent_id w).0) [
              | inr (e, hangs) ↦ inr (e, rw (other, found, alive, hangs, keeps) refl)
              | inl (below, run) ↦ elim (Bool-cases below) [
                | inl under ↦ inr (
                  bad_request "하위 카테고리를 부모로 설정할 수 없습니다 (순환 참조)",
                  rw (other, found, alive, run, keeps, under) refl,
                )
                | inr apart ↦ inl (
                  rw (other, found, alive, run, keeps, apart) refl,
                  record {
                    parent = p;
                    there = found;
                    other = eq_sym_false parent_id id other;
                    above = is_descendant-false fuel id parent_id w (run ∙ ap ok apart);
                  },
                )
              ]
            ]
      ]
    ]
  ]

  -- The check of a name or a slug changes nothing.
  pub check_free_cases :
      (test taken : Bool) (exists : Exec World Bool) (message : String) (w : World)
      → exists w ≡ (ok taken, w)
      → (check_free test exists message w ≡ (ok tt, w))
        ⊎ ((e : Exception) × (check_free test exists message w ≡ (err e, w)))
  check_free_cases false taken exists message w run = inl refl
  check_free_cases true true exists message w run = inr (conflict message, rw run refl)
  check_free_cases true false exists message w run = inl (rw run refl)

  -- The parent that a category is to have: as it was, none, or one it may move under.
  pub data NewParent (w : World) (id : String) : Option (Option String) → Type 0 where
    kept : NewParent w id none
    unset : NewParent w id (some none)
    moved : (parent_id : String) → MayMove w id parent_id → NewParent w id (some (some parent_id))

  pub check_new_parent_cases :
      (fuel : ℕ) (id : String) (parent : Option (Option String)) (w : World)
      → ((check_new_parent fuel id parent w ≡ (ok tt, w)) × NewParent w id parent)
        ⊎ ((e : Exception) × (check_new_parent fuel id parent w ≡ (err e, w)))
  check_new_parent_cases fuel id none w = inl (refl, kept)
  check_new_parent_cases fuel id (some none) w = inl (refl, unset)
  check_new_parent_cases fuel id (some (some p)) w = elim (check_move_cases fuel id p w) [
    | inl (run, may) ↦ inl (run, moved p may)
    | inr refused ↦ inr refused
  ]

  module _ (id : String) (dto : UpdateCategoryDto) (c : Category) (w : World)
      (found : category_at w id ≡ some c) where
    abbrev updated_state : World
    updated_state = record w {
      categories = (b.category.update id (update_data dto) w.categories).1;
    }

    updated-off : AgreeOff id (category_at w) (category_at updated_state)
    unfolding update_data
    updated-off k away =
        rw (b.category.find-update id k (update_data dto) w.categories (λ r. refl), away) refl

    updated-at : category_at updated_state id ≡ some (update_data dto c)
    unfolding update_data
    updated-at =
        rw
          (
            b.category.find-update id id (update_data dto) w.categories (λ r. refl),
            eq_self id,
            found,
          )
          refl

    new_parent :
        (parent : Option (Option String))
        → dto.parent_id ≡ parent
        → (update_data dto c).parent_id ≡ given parent c.parent_id
    unfolding update_data
    new_parent parent e = ap (λ q. given q c.parent_id) e

    pub updated-IsTree :
        (parent : Option (Option String))
        → dto.parent_id ≡ parent
        → NewParent w id parent
        → IsTree w
        → IsTree updated_state
    updated-IsTree _ e kept tree =
        IsForest-stays id updated-off c (update_data dto c) tree found updated-at
          (new_parent none e)
    updated-IsTree _ e unset tree =
        IsForest-roots id updated-off (update_data dto c) tree updated-at (new_parent (some none) e)
    updated-IsTree _ e (moved p may) tree =
        IsForest-moves id updated-off (update_data dto c) may.parent p tree updated-at
          (new_parent (some (some p)) e) may.there may.other may.above
