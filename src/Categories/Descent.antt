-- ===== src/Categories/Descent.antt =====
-- `isDescendant` of src/modules/categories/categories.service.ts: what it finds, and that it ends.
use secondhand_api.Prelude.{
  ℕ, zero, suc, String, Bool, true, false, ◌||◌, ◌&&◌, none, some, List, [], ◌∷◌, ◌≡◌, refl, ap,
  sym, subst, ◌∙◌, inl, inr, ◌==◌, any, arith, eq_iff, eq_self, Bool-cases, Option-cases,
}
use secondhand_api.Http.{Result, Result-cases, ok, err}
use secondhand_api.Exec.{Exec}
use secondhand_api.Schema.{Category, same_given}
use secondhand_api.World.{Backend, World, category_at}
use secondhand_api.Categories.CategoriesRepository.{find_children, is_child_of, if_active, in_order}
use secondhand_api.Categories.CategoriesService.{any_descendant, is_descendant}
use secondhand_api.Categories.Forest.{Below, Below-child}

abbrev is_hit : Result Bool → Bool
is_hit (ok found) = found
is_hit (err e) = true

abbrev is_failed : Result Bool → Bool
is_failed (ok found) = false
is_failed (err e) = true

or-eq-false : (x y : Bool) → (x || y) ≡ false → (x ≡ false) × (y ≡ false)
or-eq-false x y h = (ground arith, ground arith)

not_hit : (r : Result Bool) → is_hit r ≡ false → r ≡ ok false
not_hit (ok found) h = ap ok h
not_hit (err e) h = cc

module _ ⦃b : Backend⦄ where
  module _ (below : String → Exec World Bool) (target : String) (w : World) where
    -- A child that is the target or may be above it.
    abbrev hit : Category → Bool
    hit c = c.id == target || is_hit (below c.id w).0

    any_descendant-keeps :
        (children : List Category)
        → ((k : String) → (below k w).1 ≡ w)
        → (any_descendant below target children w).1 ≡ w
    any_descendant-keeps [] keeps = refl
    any_descendant-keeps (c ∷ cs) keeps = elim (Bool-cases (c.id == target)) [
      | inl here ↦ rw here refl
      | inr away ↦ elim (Result-cases (below c.id w).0) [
        | inr (e, fails) ↦ rw (away, fails) (keeps c.id)
        | inl (found, run) ↦ elim (Bool-cases found) [
          | inl yes_ ↦ rw (away, run, yes_) (keeps c.id)
          | inr no_ ↦ rw (away, run, no_, keeps c.id) (any_descendant-keeps cs keeps)
        ]
      ]
    ]

    any_descendant-none :
        (children : List Category)
        → ((k : String) → (below k w).1 ≡ w)
        → (any_descendant below target children w).0 ≡ ok false
        → any hit children ≡ false
    any_descendant-none [] keeps h = refl
    any_descendant-none (c ∷ cs) keeps h = elim (Bool-cases (c.id == target)) [
      | inl here ↦ absurd (ground (arith, h, here))
      | inr away ↦ elim (Result-cases (below c.id w).0) [
        | inr (e, fails) ↦ absurd (let x = rw (away, fails) at h in cc)
        | inl (found, run) ↦ elim (Bool-cases found) [
          | inl yes_ ↦ absurd (let x = rw (away, run, yes_) at h in cc)
          | inr no_ ↦
              rw (away, run, no_)
                (any_descendant-none cs keeps (rw (away, run, no_, keeps c.id) at h))
        ]
      ]
    ]

    -- Where each call for a child returns, so does the loop.
    any_descendant-returns :
        (children : List Category)
        → ((k : String) → (below k w).1 ≡ w)
        → any (λ c. is_failed (below c.id w).0) children ≡ false
        → (found : Bool) × ((any_descendant below target children w).0 ≡ ok found)
    any_descendant-returns [] keeps h = (false, refl)
    any_descendant-returns (c ∷ cs) keeps h = elim (Bool-cases (c.id == target)) [
      | inl here ↦ (true, rw here refl)
      | inr away ↦ elim (Result-cases (below c.id w).0) [
        | inr (e, fails) ↦ absurd (let x = rw fails at h in cc)
        | inl (found, run) ↦ elim (Bool-cases found) [
          | inl yes_ ↦ (true, rw (away, run, yes_) refl)
          | inr no_ ↦
              let (rest, ends) = any_descendant-returns cs keeps (rw run at h) in
              (rest, rw (away, run, no_, keeps c.id) ends)
        ]
      ]
    ]

  pub is_descendant-keeps :
      (fuel : ℕ) (id target : String) (w : World) → (is_descendant fuel id target w).1 ≡ w
  unfolding is_descendant find_children
  is_descendant-keeps zero id target w = refl
  is_descendant-keeps (suc fuel) id target w =
      any_descendant-keeps (λ k. is_descendant fuel k target) target w _
        (λ k. is_descendant-keeps fuel k target w)

  is_child :
      (id : String) (c : Category) → c.parent_id ≡ some id → same_given c.parent_id (some id) ≡ true
  is_child id c up = rw up (eq_self id)

  -- A search that returns `false` is right: the target stands nowhere under the category.
  pub is_descendant-false :
      (fuel : ℕ) (id target : String) (w : World)
      → (is_descendant fuel id target w).0 ≡ ok false
      → ¬ Below (category_at w) id target
  unfolding is_descendant find_children
  is_descendant-false zero id target w h below = cc
  is_descendant-false (suc fuel) id target w h below =
      let (j, c, at, up, rest) = Below-child target below in
      let hits = hit (λ k. is_descendant fuel k target) target w in
      let none_sorted =
        any_descendant-none (λ k. is_descendant fuel k target) target w _
          (λ k. is_descendant-keeps fuel k target w) h in
      let none_many = sym (b.category.any_sorted _ _ hits w.categories) ∙ none_sorted in
      let missed =
        b.category.none_many _ hits w.categories none_many j c at (rw (is_child id c up) refl) in
      let same = b.category.key_of_found j w.categories c at in
      let (away, safe) = or-eq-false (c.id == target) _ missed in
      let run : (is_descendant fuel j target w).0 ≡ ok false =
        subst (λ k. (is_descendant fuel k target w).0 ≡ ok false) same (not_hit _ safe) in
      elim rest [
        | inl e ↦ absurd (ground (arith, away, same, e, eq_iff c.id target))
        | inr lower ↦ is_descendant-false fuel j target w run lower
      ]

  -- The categories under one are at most so many levels deep.
  abbrev pub IsShallow : World → ℕ → String → Type 0
  IsShallow w zero id = ¬ (Unit {0})
  IsShallow w (suc n) id =
      (k : String) (c : Category)
      → category_at w k ≡ some c
      → c.parent_id ≡ some id
      → IsShallow w n k

  parent_of_child :
      (id : String) (c : Category)
      → (same_given c.parent_id (some id) && true) ≡ true
      → c.parent_id ≡ some id
  parent_of_child id c h = elim (Option-cases c.parent_id) [
    | inl gone ↦ ground (arith, h, gone)
    | inr (p, up) ↦ ground (arith, h, up, eq_iff p id)
  ]

  pair_eq :
      {A : Type 0} (r : Result A × World) {a : Result A} {w : World}
      → r.0 ≡ a
      → r.1 ≡ w
      → r ≡ (a, w)
  pair_eq r e e' = cc

  abbrev children_in_order : String → World → List Category
  children_in_order id w =
      b.category.find_sorted (λ c. is_child_of id c && if_active none c) in_order w.categories

  -- With as much fuel as the categories under one have levels, the search ends with an answer, and
  -- changes nothing.
  pub is_descendant-total :
      (fuel : ℕ) (id target : String) (w : World)
      → IsShallow w fuel id
      → (found : Bool) × (is_descendant fuel id target w ≡ (ok found, w))
  unfolding is_descendant find_children
  is_descendant-total zero id target w low = absurd (low tt)
  is_descendant-total (suc fuel) id target w low =
      let below = λ (k : String). is_descendant fuel k target in
      let fails = λ (c : Category). is_failed (below c.id w).0 in
      let keeps = λ (k : String). is_descendant-keeps fuel k target w in
      elim (Bool-cases (any fails (children_in_order id w))) [
        | inl failure ↦
            let (c, at, child, failed) =
              b.category.some_many _ fails w.categories
                (sym (b.category.any_sorted _ _ fails w.categories) ∙ failure) in
            let (found, run) =
              is_descendant-total fuel c.id target w (low c.id c at (parent_of_child id c child)) in
            let answered : fails c ≡ false = ap (λ r. is_failed r.0) run in
            absurd (let x = sym answered ∙ failed in cc)
        | inr all_end ↦
            let (found, run) = any_descendant-returns below target w _ keeps all_end in
            (found, pair_eq _ run (any_descendant-keeps below target w _ keeps))
      ]
