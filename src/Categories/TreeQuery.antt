-- ===== src/Categories/TreeQuery.antt =====
-- `findTree` of src/modules/categories/repositories/categories.repository.ts. It calls itself for
-- the children of children without a bound, so it takes fuel; the calls that `Promise.all` makes
-- only read, and are made in order.
use secondhand_api.Prelude.{ℕ, zero, suc, String, Bool, Option, none, some, List, [], ◌∷◌}
use secondhand_api.Http.{exhausted}
use secondhand_api.Exec.{Exec, pure, throw, ◌>>=◌}
use secondhand_api.Schema.{Category}
use secondhand_api.World.{Backend, World}
use secondhand_api.Categories.CategoriesRepository.{find_by_id, find_children, find_root_categories}

-- A category with its `children`, each a tree or null.
mutual
  pub data CategoryTree : Type 0 where
    node : Category → Trees → CategoryTree

  pub data Trees : Type 0 where
    empty : Trees
    missing : Trees → Trees
    more : CategoryTree → Trees → Trees

abbrev pub join : Option CategoryTree → Trees → Trees
join none rest = missing rest
join (some tree) rest = more tree rest

module _ ⦃b : Backend⦄ where
  -- The calls for some categories, with the call for each given.
  abbrev pub load_all :
      (String → Exec World (Option CategoryTree)) → List Category → Exec World Trees
  load_all load [] = pure empty
  load_all load (child ∷ rest) = do
    tree ← load child.id
    trees ← load_all load rest
    pure (join tree trees)

  abbrev pub with_children :
      Exec World (List Category)
      → (String → Exec World (Option CategoryTree))
      → Option Category
      → Exec World (Option CategoryTree)
  with_children find load none = pure none
  with_children find load (some category) = do
    children ← find
    children_with_sub_children ← load_all load children
    pure (some (node category children_with_sub_children))

  unfoldable pub load_category_with_all_children :
      ℕ → String → Option Bool → Exec World (Option CategoryTree)
  unfolding find_by_id find_children
  load_category_with_all_children zero category_id is_active = throw exhausted
  load_category_with_all_children (suc fuel) category_id is_active = do
    category ← find_by_id category_id
    with_children (find_children category_id is_active)
        (λ k. load_category_with_all_children fuel k is_active) category

  unfoldable pub find_tree : ℕ → Option Bool → Exec World Trees
  unfolding find_root_categories load_category_with_all_children
  find_tree fuel is_active = do
    root_categories ← find_root_categories is_active
    load_all (λ k. load_category_with_all_children fuel k is_active) root_categories
