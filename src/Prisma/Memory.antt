-- ===== src/Prisma/Memory.antt =====
-- A table in memory that meets the laws of a delegate: it shows that they can hold.
mod Rows
mod Sorting
unfoldable pub use Rows.*
unfoldable pub use Sorting.*
use mathlib.Core.Option
use secondhand_api.Prelude.{
  String, Bool, true, false, Option, none, some, List, [], ◌∷◌, ◌≡◌, refl, ◌==◌, if◌then◌else◌, any,
  select, map, arith, eq_iff, Option-cases, Bool-cases, inl, inr, length, suc, ◌||◌, ap, ◌∙◌,
}
use secondhand_api.Prisma.Delegate.{Delegate, keep_unless}

-- The delegate over such a table.
module _ {Row : Type 0} (key : Row → String) (conflicts : Row → Row → Bool) where
  unfoldable pub insert : Row → List Row → Option Row × List Row
  insert r t = elim (first_row key (conflicts r) (rows_of key t t)) [
    | none ↦ (some r, r ∷ t)
    | some _ ↦ (none, t)
  ]

  pub insert-free :
      (r : Row) (t : List Row)
      → first_row key (conflicts r) (rows_of key t t) ≡ none
      → ((insert r t).0 ≡ some r)
        × ((k : String) → find key k (insert r t).1 ≡ (if key r == k then some r else find key k t))
  unfolding insert find
  insert-free r t h = rw (h, insert) (refl, λ k. refl)

  pub insert-taken :
      (r x : Row) (t : List Row)
      → first_row key (conflicts r) (rows_of key t t) ≡ some x
      → insert r t ≡ (none, t)
  unfolding insert
  insert-taken r x t h = rw (h, insert) refl

  pub none-first :
      (p : Row → Bool) (t : List Row)
      → first_row key p (rows_of key t t) ≡ none
      → (k : String) (r : Row) → find key k t ≡ some r
      → p r ≡ false
  none-first p t h k r found =
      any_of_find key p t k r found (first_row-none key p (rows_of key t t) h)

  pub find-map_if :
      (p : Row → Bool) (f : Row → Row) (t : List Row)
      → ((r : Row) → key (f r) ≡ key r)
      → (j : String)
      → find key j (map (λ r. if p r then f r else r) t)
        ≡ Option.map (λ r. if p r then f r else r) (find key j t)
  find-map_if p f t same j = find-map key _ t j (λ r. ground (arith, same r))

  abbrev pub memory : Delegate Row key conflicts
  memory = record {
    Table = List Row;
    find_unique = find key;
    find_first = λ p t. first_row key p (rows_of key t t);
    find_many = λ p t. select p (rows_of key t t);
    find_sorted = λ p before t. sort before (select p (rows_of key t t));
    create = insert;
    update = λ k f t. (Option.map f (find key k t), change key k f t);
    update_many = λ p f t. map (λ r. if p r then f r else r) t;
    delete = λ k t. (find key k t, without key k t);
    delete_many = λ p t. sweep key p t t;
    key_of_found = λ k t r h. key-find key k t r h;
    found_first = λ p t r h. first_row-rows_of key p t t r h;
    none_first = none-first;
    none_many = none-many key;
    some_many = any-many key;
    length_sorted = λ p before t. length-sort before (select p (rows_of key t t));
    sorted = λ p before t asym. is_sorted-sort before asym (select p (rows_of key t t));
    any_sorted = λ p before q t. any-sort before q (select p (rows_of key t t));
    create_free = insert-free;
    create_taken = insert-taken;
    update_row = λ k f t. refl;
    find-update = find-change key;
    find-update_many = find-map_if;
    delete_row = λ k t. refl;
    find-delete = find-without key;
    find-delete_many = λ p j t. find-sweep key p t j;
  }
