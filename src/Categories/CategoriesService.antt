-- ===== src/Categories/CategoriesService.antt =====
-- src/modules/categories/categories.service.ts, with the DTOs of src/modules/categories/dto, less
-- `findTree`. A field of a DTO that is absent is `none`; a parent that is null is `some none`. `fuel`
-- bounds the depth to which descendants are followed.
use secondhand_api.Prelude.{
  if_truthy, text_or_kept, ℕ, zero, suc, String, Bool, true, false, not, ◌&&◌, Option, none, some,
  List, [], ◌∷◌, ◌==◌, ltb, length, if◌then◌else◌, given, given_or_kept,
}
use secondhand_api.Http.{bad_request, conflict, not_found, exhausted}
use secondhand_api.Exec.{Exec, pure, throw, or_throw, throw_if, ◌>>=◌, ◌>>◌}
use secondhand_api.Schema.{Category}
use secondhand_api.World.{Backend, World, new_date, new_id}
use secondhand_api.Categories.CategoriesRepository

pub record CreateCategoryDto : Type 0 where
  pub name : String
  pub slug : String
  pub icon : Option String
  pub parent_id : Option String
  pub order : Option ℕ
  pub is_active : Option Bool

pub record UpdateCategoryDto : Type 0 where
  pub name : Option String
  pub slug : Option String
  pub icon : Option String
  pub parent_id : Option (Option String)
  pub order : Option ℕ
  pub is_active : Option Bool

-- The row that `create` stores.
unfoldable pub new_category : String → ℕ → CreateCategoryDto → Category
new_category id now dto = record {
  id = id;
  name = dto.name;
  slug = dto.slug;
  icon = dto.icon;
  order = given dto.order 0;
  is_active = given dto.is_active true;
  parent_id = if_truthy dto.parent_id;
  created_at = now;
}

-- `updateData`
unfoldable pub update_data : UpdateCategoryDto → Category → Category
update_data dto c = record c {
  name = text_or_kept dto.name c.name;
  slug = text_or_kept dto.slug c.slug;
  icon = given_or_kept dto.icon c.icon;
  order = given dto.order c.order;
  is_active = given dto.is_active c.is_active;
  parent_id = given dto.parent_id c.parent_id;
}

-- A new text that is given and differs.
abbrev pub renames : Option String → String → Bool
renames none old = false
renames (some t) old = not (t == "") && not (t == old)

module _ ⦃b : Backend⦄ where
  -- The loop over the children of a category, with the call for each given.
  abbrev pub any_descendant : (String → Exec World Bool) → String → List Category → Exec World Bool
  any_descendant below target_id [] = pure false
  any_descendant below target_id (child ∷ rest) = if child.id == target_id then pure true else do
    is_child_descendant ← below child.id
    if is_child_descendant then pure true else any_descendant below target_id rest

  unfoldable pub is_descendant : ℕ → String → String → Exec World Bool
  unfolding CategoriesRepository.find_children
  is_descendant zero category_id target_id = throw exhausted
  is_descendant (suc fuel) category_id target_id = do
    children ← CategoriesRepository.find_children category_id none
    any_descendant (λ id. is_descendant fuel id target_id) target_id children

  -- `if (await exists) throw`, where the name or slug changes
  abbrev pub check_free : Bool → Exec World Bool → String → Exec World (Unit {0})
  check_free false exists message = pure tt
  check_free true exists message = do taken ← exists; throw_if taken (conflict message)

  -- The checks of a parent: that it is there and active.
  unfoldable pub check_parent : String → Exec World (Unit {0})
  unfolding CategoriesRepository.find_by_id
  check_parent parent_id = do
    found ← CategoriesRepository.find_by_id parent_id
    parent ← or_throw (not_found "부모 카테고리를 찾을 수 없습니다") found
    throw_if (not parent.is_active) (bad_request "비활성화된 부모 카테고리에는 자식을 추가할 수 없습니다")

  -- A parent that is given, in `create`.
  abbrev pub check_given_parent : Option String → Exec World (Unit {0})
  check_given_parent none = pure tt
  check_given_parent (some p) = check_parent p

  unfoldable pub create : CreateCategoryDto → Exec World Category
  unfolding CategoriesRepository.exists_by_name CategoriesRepository.exists_by_slug
      CategoriesRepository.create check_parent new_category new_id new_date
  create dto = do
    existing_name ← CategoriesRepository.exists_by_name dto.name none
    throw_if existing_name (conflict "이미 존재하는 카테고리 이름입니다")
    existing_slug ← CategoriesRepository.exists_by_slug dto.slug none
    throw_if existing_slug (conflict "이미 사용 중인 슬러그입니다")
    check_given_parent (if_truthy dto.parent_id)
    id ← new_id
    now ← new_date
    CategoriesRepository.create (new_category id now dto)

  unfoldable pub find_one : String → Exec World Category
  unfolding CategoriesRepository.find_by_id
  find_one id = do
    found ← CategoriesRepository.find_by_id id
    or_throw (not_found "카테고리를 찾을 수 없습니다") found

  unfoldable pub find_by_slug : String → Exec World Category
  unfolding CategoriesRepository.find_by_slug
  find_by_slug slug = do
    found ← CategoriesRepository.find_by_slug slug
    or_throw (not_found "카테고리를 찾을 수 없습니다") found

  unfoldable pub find_all : Option Bool → Exec World (List Category)
  unfolding CategoriesRepository.find_all
  find_all = CategoriesRepository.find_all

  unfoldable pub find_root_categories : Option Bool → Exec World (List Category)
  unfolding CategoriesRepository.find_root_categories
  find_root_categories = CategoriesRepository.find_root_categories

  unfoldable pub find_children : String → Option Bool → Exec World (List Category)
  unfolding CategoriesRepository.find_by_id CategoriesRepository.find_children
  find_children parent_id is_active = do
    found ← CategoriesRepository.find_by_id parent_id
    parent ← or_throw (not_found "부모 카테고리를 찾을 수 없습니다") found
    CategoriesRepository.find_children parent_id is_active

  -- The checks of a new parent, in `update`.
  unfoldable pub check_move : ℕ → String → String → Exec World (Unit {0})
  unfolding check_parent is_descendant
  check_move fuel id parent_id = do
    throw_if (parent_id == id) (bad_request "자기 자신을 부모 카테고리로 설정할 수 없습니다")
    check_parent parent_id
    below ← is_descendant fuel id parent_id
    throw_if below (bad_request "하위 카테고리를 부모로 설정할 수 없습니다 (순환 참조)")

  abbrev pub check_new_parent : ℕ → String → Option (Option String) → Exec World (Unit {0})
  check_new_parent fuel id none = pure tt
  check_new_parent fuel id (some none) = pure tt
  check_new_parent fuel id (some (some parent_id)) = check_move fuel id parent_id

  unfoldable pub update : ℕ → String → UpdateCategoryDto → Exec World Category
  unfolding CategoriesRepository.find_by_id CategoriesRepository.exists_by_name
      CategoriesRepository.exists_by_slug CategoriesRepository.update check_move update_data
  update fuel id dto = do
    found ← CategoriesRepository.find_by_id id
    existing ← or_throw (not_found "카테고리를 찾을 수 없습니다") found
    check_free (renames dto.name existing.name)
        (CategoriesRepository.exists_by_name (given dto.name "") (some id)) "이미 존재하는 카테고리 이름입니다"
    check_free (renames dto.slug existing.slug)
        (CategoriesRepository.exists_by_slug (given dto.slug "") (some id)) "이미 사용 중인 슬러그입니다"
    check_new_parent fuel id dto.parent_id
    CategoriesRepository.update id (update_data dto)

  unfoldable pub remove : String → Exec World (Unit {0})
  unfolding CategoriesRepository.find_by_id CategoriesRepository.children_of
      CategoriesRepository.count_products CategoriesRepository.delete
  remove id = do
    found ← CategoriesRepository.find_by_id id
    category ← or_throw (not_found "카테고리를 찾을 수 없습니다") found
    children ← CategoriesRepository.children_of id
    throw_if (ltb 0 (length children)) (bad_request "하위 카테고리가 있는 카테고리는 삭제할 수 없습니다")
    products ← CategoriesRepository.count_products id
    throw_if (ltb 0 products) (bad_request "상품이 등록된 카테고리는 삭제할 수 없습니다")
    deleted ← CategoriesRepository.delete id
    pure tt

  unfoldable pub update_order : String → ℕ → Exec World Category
  unfolding CategoriesRepository.find_by_id CategoriesRepository.update_order
  update_order id order = do
    found ← CategoriesRepository.find_by_id id
    category ← or_throw (not_found "카테고리를 찾을 수 없습니다") found
    CategoriesRepository.update_order id order
