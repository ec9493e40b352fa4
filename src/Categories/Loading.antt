-- ===== src/Categories/Loading.antt =====
-- What `findTree` of src/modules/categories/repositories/categories.repository.ts returns.
use secondhand_api.Prelude.{
  ℕ, zero, suc, String, Bool, true, false, not, ◌&&◌, ◌||◌, Option, none, some, List, [], ◌∷◌, ◌≡◌,
  refl, sym, ◌∙◌, inl, inr, any, arith, eq_iff, Bool-cases, Option-cases,
}
use secondhand_api.Http.{ok}
use secondhand_api.Exec.{Exec}
use secondhand_api.Schema.{Category}
use secondhand_api.World.{Backend, World, category_at}
use secondhand_api.Categories.CategoriesRepository.{
  find_by_id, find_children, find_root_categories, is_child_of, is_root, if_active, in_order,
}
use secondhand_api.Categories.Descent.{IsShallow}
use secondhand_api.Categories.TreeQuery.{
  CategoryTree, Trees, node, empty, missing, more, load_all, load_category_with_all_children,
  find_tree,
}

-- A row that is not there, or that the filter does not take.
abbrev is_stray : (Category → Bool) → Option Category → Bool
is_stray p none = true
is_stray p (some c) = not (p c)

taken_of :
    (p : Category → Bool) (o : Option Category)
    → is_stray p o ≡ false
    → (c : Category) × (o ≡ some c) × (p c ≡ true)
taken_of p none h = cc
taken_of p (some c) h = (c, refl, ground (arith, h))

both_false : (x y : Bool) → (x || y) ≡ false → (x ≡ false) × (y ≡ false)
both_false x y h = (ground arith, ground arith)

both_true : (x y : Bool) → (x && y) ≡ true → x ≡ true
both_true x y h = ground arith

parent_of : (id : String) (c : Category) → is_child_of id c ≡ true → c.parent_id ≡ some id
parent_of id c h = elim (Option-cases c.parent_id) [
  | inl gone ↦ ground (arith, h, gone)
  | inr (p, up) ↦ ground (arith, h, up, eq_iff p id)
]

module _ ⦃b : Backend⦄ where
  module _ (is_active : Option Bool) (w : World) where
    abbrev pub children_of : String → List Category
    children_of k =
        b.category.find_sorted (λ c. is_child_of k c && if_active is_active c) in_order w.categories

    abbrev pub roots : List Category
    roots = b.category.find_sorted (λ c. is_root c && if_active is_active c) in_order w.categories

    -- The stored category, with the trees of all of its children, in their order, and of nothing
    -- else.
    abbrev mutual
      pub IsTreeOf : String → CategoryTree → Type 0
      IsTreeOf k (node category trees) =
          (category_at w k ≡ some category) × AreTreesOf (children_of k) trees

      pub AreTreesOf : List Category → Trees → Type 0
      AreTreesOf [] empty = Unit
      AreTreesOf (c ∷ cs) (more tree trees) = IsTreeOf c.id tree × AreTreesOf cs trees
      AreTreesOf [] (missing trees) = ⊥
      AreTreesOf [] (more tree trees) = ⊥
      AreTreesOf (c ∷ cs) empty = ⊥
      AreTreesOf (c ∷ cs) (missing trees) = ⊥

    abbrev stray : (Category → Bool) → Category → Bool
    stray p c = is_stray p (category_at w c.id)

    none_stray :
        (p : Category → Bool)
        → any (stray p) (b.category.find_sorted p in_order w.categories) ≡ false
    none_stray p =
        elim (Bool-cases (any (stray p) (b.category.find_sorted p in_order w.categories))) [
          | inr none_ ↦ none_
          | inl some_ ↦
              let (c, at, taken, strays) =
                b.category.some_many p (stray p) w.categories
                  (sym (b.category.any_sorted p in_order (stray p) w.categories) ∙ some_) in
              absurd (ground (arith, at, taken, strays))
        ]

    -- What is loaded for each of the rows that the filter takes.
    abbrev Loads : (String → Exec World (Option CategoryTree)) → (Category → Bool) → Type 0
    Loads load p =
        (k : String) (c : Category)
        → category_at w k ≡ some c
        → p c ≡ true
        → (t : CategoryTree) × (load k w ≡ (ok (some t), w)) × IsTreeOf k t

    load_all-AreTreesOf :
        (load : String → Exec World (Option CategoryTree)) (p : Category → Bool)
        → Loads load p
        → (cs : List Category) → any (stray p) cs ≡ false
        → (ts : Trees) × (load_all load cs w ≡ (ok ts, w)) × AreTreesOf cs ts
    load_all-AreTreesOf load p loads [] h = (empty, refl, tt)
    load_all-AreTreesOf load p loads (c ∷ cs) h =
        let (here, rest) = both_false (stray p c) (any (stray p) cs) h in
        let (x, there, taken) = taken_of p (category_at w c.id) here in
        let (t, run, is_tree) = loads c.id x there taken in
        let (ts, runs, are_trees) = load_all-AreTreesOf load p loads cs rest in
        (more t ts, rw (run, runs) refl, (is_tree, are_trees))

    load_category-IsTreeOf :
        (fuel : ℕ) (k : String) (c : Category)
        → IsShallow w fuel k
        → category_at w k ≡ some c
        → (t : CategoryTree) × (load_category_with_all_children fuel k is_active w
            ≡ (ok (some t), w))
          × IsTreeOf k t
    unfolding load_category_with_all_children find_by_id find_children
    load_category-IsTreeOf zero k c low there = absurd (low tt)
    load_category-IsTreeOf (suc fuel) k c low there =
        let p = λ (x : Category). is_child_of k x && if_active is_active x in
        let load = λ (j : String). load_category_with_all_children fuel j is_active in
        let loads : Loads load p = λ j x at taken.
          load_category-IsTreeOf fuel j x
            (low j x at (parent_of k x (both_true (is_child_of k x) _ taken))) at in
        let (ts, runs, are_trees) =
          load_all-AreTreesOf load p loads (children_of k) (none_stray p) in
        (node c ts, rw (there, runs) refl, (there, are_trees))

    -- With fuel for the levels under each category, `findTree` ends, and changes nothing: it
    -- returns the trees of the categories without a parent, each with the trees of all of its
    -- children, and so on, all in their order and with nothing else; where it is asked for some
    -- activity, of those with that.
    pub find_tree-AreTreesOf :
        (fuel : ℕ)
        → ((k : String) (c : Category) → category_at w k ≡ some c → IsShallow w fuel k)
        → (ts : Trees) × (find_tree fuel is_active w ≡ (ok ts, w)) × AreTreesOf roots ts
    unfolding find_tree find_root_categories
    find_tree-AreTreesOf fuel low =
        let p = λ (x : Category). is_root x && if_active is_active x in
        load_all-AreTreesOf (λ j. load_category_with_all_children fuel j is_active) p
          (λ k c there taken. load_category-IsTreeOf fuel k c (low k c there) there) roots
          (none_stray p)
