-- ===== src/Categories/CategoriesRepository.antt =====
-- src/modules/categories/repositories/categories.repository.ts, as in Products/ProductsRepository,
-- less `findTree` (TreeQuery). The children and the number of products that `findById` includes are
-- calls of their own.
use secondhand_api.Prelude.{
  ℕ, String, Bool, true, false, not, ◌&&◌, ◌||◌, Option, none, some, List, ◌==◌, ltb, eqb, length,
}
use secondhand_api.Http.{ok}
use secondhand_api.Exec.{Exec, pure, ◌>>=◌}
use secondhand_api.Prisma.Delegate.{update_unique}
use secondhand_api.Schema.{Category, same_given}
use secondhand_api.World.{Backend, World, category_at, or_reject}

-- orderBy: [{ order: 'asc' }, { createdAt: 'asc' }]
abbrev pub in_order : Category → Category → Bool
in_order c d = ltb c.order d.order || eqb c.order d.order && ltb c.created_at d.created_at

-- `...(isActive !== undefined ? { isActive } : {})`
abbrev pub if_active : Option Bool → Category → Bool
if_active none c = true
if_active (some true) c = c.is_active
if_active (some false) c = not c.is_active

abbrev pub is_child_of : String → Category → Bool
is_child_of parent_id c = same_given c.parent_id (some parent_id)

abbrev pub is_root : Category → Bool
is_root c = elim c.parent_id [ none ↦ true | some _ ↦ false ]

-- `excludeId && category.id === excludeId`, of a category that was found
abbrev pub is_taken : Option String → Option Category → Bool
is_taken exclude_id none = false
is_taken none (some c) = true
is_taken (some k) (some c) = not (not (k == "") && c.id == k)

module _ ⦃b : Backend⦄ where
  unfoldable pub create : Category → Exec World Category
  create c w =
      let (r, t) = b.category.create c w.categories in
      (or_reject "P2002" r, record w { categories = t })

  unfoldable pub find_by_id : String → Exec World (Option Category)
  find_by_id id w = (ok (category_at w id), w)

  unfoldable pub find_by_slug : String → Exec World (Option Category)
  find_by_slug slug w = (ok (b.category.find_first (λ c. c.slug == slug) w.categories), w)

  unfoldable pub find_by_name : String → Exec World (Option Category)
  find_by_name name w = (ok (b.category.find_first (λ c. c.name == name) w.categories), w)

  unfoldable pub find_all : Option Bool → Exec World (List Category)
  find_all is_active w =
      (ok (b.category.find_sorted (if_active is_active) in_order w.categories), w)

  unfoldable pub find_root_categories : Option Bool → Exec World (List Category)
  find_root_categories is_active w = (
    ok (b.category.find_sorted (λ c. is_root c && if_active is_active c) in_order w.categories),
    w,
  )

  unfoldable pub find_children : String → Option Bool → Exec World (List Category)
  find_children parent_id is_active w = (
    ok (
        b.category.find_sorted (λ c. is_child_of parent_id c && if_active is_active c) in_order
          w.categories),
    w,
  )

  -- `category.children` and `category._count.products`
  unfoldable pub children_of : String → Exec World (List Category)
  children_of id w = (ok (b.category.find_many (is_child_of id) w.categories), w)

  unfoldable pub count_products : String → Exec World ℕ
  count_products id w = (ok (length (b.product.find_many (λ p. p.category_id == id) w.products)), w)

  -- `update`, for data that may name the unique name or slug.
  unfoldable pub update : String → (Category → Category) → Exec World Category
  update id f w =
      let (r, t) = update_unique b.category id f w.categories in (r, record w { categories = t })

  unfoldable pub delete : String → Exec World Category
  delete id w =
      let (r, t) = b.category.delete id w.categories in
      (or_reject "P2025" r, record w { categories = t })

  unfoldable pub soft_delete : String → Exec World Category
  unfolding update
  soft_delete id = update id (λ c. record c { is_active = false })

  unfoldable pub update_order : String → ℕ → Exec World Category
  unfolding update
  update_order id order = update id (λ c. record c { order = order })

  -- The parent to count under: any, none, or one.
  abbrev pub if_parent : Option (Option String) → Category → Bool
  if_parent none c = true
  if_parent (some none) c = is_root c
  if_parent (some (some p)) c = is_child_of p c

  unfoldable pub count : Option Bool → Option (Option String) → Exec World ℕ
  count is_active parent_id w = (
    ok (
        length (
          b.category.find_many (λ c. if_active is_active c && if_parent parent_id c) w.categories)),
    w,
  )

  unfoldable pub exists_by_slug : String → Option String → Exec World Bool
  unfolding find_by_slug
  exists_by_slug slug exclude_id = do
    category ← find_by_slug slug
    pure (is_taken exclude_id category)

  unfoldable pub exists_by_name : String → Option String → Exec World Bool
  unfolding find_by_name
  exists_by_name name exclude_id = do
    category ← find_by_name name
    pure (is_taken exclude_id category)
