-- ===== src/Prisma/Delegate.antt =====
-- One delegate for each model of prisma/schema.prisma, with the documented behaviour of its calls
-- as laws. A filter (`where`) is a Boolean test on a row, a change (`data`) is a function on rows.
-- The laws speak of a table through `find_unique`, and say nothing of the order of the rows but for
-- sorted ones. Rows with equal sort keys come in the same order in every query with the same filter,
-- as long as the table stays: the database does not promise it, and the pages of a list rest on it. A
-- collection of MongoDB is such a delegate too, its documents known by `_id`.
use secondhand_api.Prelude.{
  String, Bool, true, false, Option, none, some, List, [], ◌∷◌, ◌≡◌, ◌==◌, if◌then◌else◌, any,
  length, not, ◌&&◌, ◌⊎◌, inl, inr, Option-cases, refl,
}
use secondhand_api.Http.{Result, ok, err, prisma_error}
use mathlib.Core.Option

-- What `deleteMany` leaves of a row.
abbrev pub keep_unless {ℓ} : {A : Type ℓ} → (A → Bool) → Option A → Option A
keep_unless p none = none
keep_unless p (some r) = if p r then none else some r

-- No row stands before the one that it follows.
abbrev pub is_after {ℓ} : {A : Type ℓ} → (A → A → Bool) → A → List A → Bool
is_after before r [] = true
is_after before r (x ∷ xs) = not (before x r)

abbrev pub is_sorted {ℓ} : {A : Type ℓ} → (A → A → Bool) → List A → Bool
is_sorted before [] = true
is_sorted before (r ∷ rs) = let rest = is_sorted before rs in is_after before r rs && rest

-- `key` reads the primary key; `conflicts r x` says that rows r and x agree on a unique column.
pub record Delegate (Row : Type 0) (key : Row → String) (conflicts : Row → Row → Bool)
    : Type 1 where
  pub Table : Type 0
  -- findUnique({ where: { id } })
  pub find_unique : String → Table → Option Row
  -- findFirst({ where }), and findUnique on another unique column
  pub find_first : (Row → Bool) → Table → Option Row
  -- findMany({ where }); count({ where }) is the number of these rows
  pub find_many : (Row → Bool) → Table → List Row
  -- findMany({ where, orderBy }); `before r x` says that row r stands before row x
  pub find_sorted : (Row → Bool) → (before : Row → Row → Bool) → Table → List Row
  -- create({ data }): `none` is the rejection P2002, a unique constraint failed
  pub create : Row → Table → Option Row × Table
  -- update({ where: { id }, data }), for data that names no unique column: `none` is the rejection
  -- P2025, no such record
  pub update : String → (Row → Row) → Table → Option Row × Table
  -- updateMany({ where, data })
  pub update_many : (Row → Bool) → (Row → Row) → Table → Table
  -- delete({ where: { id } }): `none` is the rejection P2025
  pub delete : String → Table → Option Row × Table
  -- deleteMany({ where })
  pub delete_many : (Row → Bool) → Table → Table
  pub key_of_found : (k : String) (t : Table) (r : Row) → find_unique k t ≡ some r → key r ≡ k
  pub found_first :
      (p : Row → Bool) (t : Table) (r : Row)
      → find_first p t ≡ some r
      → (find_unique (key r) t ≡ some r) × (p r ≡ true)
  pub none_first :
      (p : Row → Bool) (t : Table)
      → find_first p t ≡ none
      → (k : String) (r : Row) → find_unique k t ≡ some r
      → p r ≡ false
  pub none_many :
      (p q : Row → Bool) (t : Table)
      → any q (find_many p t) ≡ false
      → (k : String) (r : Row) → find_unique k t ≡ some r
      → p r ≡ true
      → q r ≡ false
  pub some_many :
      (p q : Row → Bool) (t : Table)
      → any q (find_many p t) ≡ true
      → (r : Row) × (find_unique (key r) t ≡ some r) × (p r ≡ true) × (q r ≡ true)
  -- Sorting neither adds nor drops a row.
  pub length_sorted :
      (p : Row → Bool) (before : Row → Row → Bool) (t : Table)
      → length (find_sorted p before t) ≡ length (find_many p t)
  pub sorted :
      (p : Row → Bool) (before : Row → Row → Bool) (t : Table)
      → ((r x : Row) → before r x ≡ true → before x r ≡ false)
      → is_sorted before (find_sorted p before t) ≡ true
  pub any_sorted :
      (p : Row → Bool) (before : Row → Row → Bool) (q : Row → Bool) (t : Table)
      → any q (find_sorted p before t) ≡ any q (find_many p t)
  pub create_free :
      (r : Row) (t : Table)
      → find_first (conflicts r) t ≡ none
      → ((create r t).0 ≡ some r)
        × ((k : String)
            → find_unique k (create r t).1 ≡ (if key r == k then some r else find_unique k t))
  pub create_taken :
      (r x : Row) (t : Table) → find_first (conflicts r) t ≡ some x → create r t ≡ (none, t)
  pub update_row :
      (k : String) (f : Row → Row) (t : Table) → (update k f t).0 ≡ Option.map f (find_unique k t)
  pub find-update :
      (k j : String) (f : Row → Row) (t : Table)
      → ((r : Row) → key (f r) ≡ key r)
      → find_unique j (update k f t).1
        ≡ (if k == j then Option.map f (find_unique j t) else find_unique j t)
  pub find-update_many :
      (p : Row → Bool) (f : Row → Row) (t : Table)
      → ((r : Row) → key (f r) ≡ key r)
      → (j : String)
      → find_unique j (update_many p f t)
        ≡ Option.map (λ r. if p r then f r else r) (find_unique j t)
  pub delete_row : (k : String) (t : Table) → (delete k t).0 ≡ find_unique k t
  pub find-delete :
      (k j : String) (t : Table)
      → find_unique j (delete k t).1 ≡ (if k == j then none else find_unique j t)
  pub find-delete_many :
      (p : Row → Bool) (j : String) (t : Table)
      → find_unique j (delete_many p t) ≡ keep_unless p (find_unique j t)

module _ {Row : Type 0} {key : Row → String} {conflicts : Row → Row → Bool}
    (d : Delegate Row key conflicts) where
  -- A row other than that under k that has a unique value of r.
  abbrev pub rival : String → Row → d.Table → Option Row
  rival k r t = d.find_first (λ x. not (key x == k) && conflicts r x) t

  abbrev write_unless : String → (Row → Row) → d.Table → Row → Option Row → Result Row × d.Table
  write_unless k f t r none = (ok r, (d.update k f t).1)
  write_unless k f t r (some _) = (err (prisma_error "P2002"), t)

  abbrev update_found : String → (Row → Row) → d.Table → Option Row → Result Row × d.Table
  update_found k f t none = (err (prisma_error "P2025"), t)
  update_found k f t (some r) = write_unless k f t (f r) (rival k (f r) t)

  -- update({ where: { id }, data }) where the data names a unique column.
  unfoldable pub update_unique : String → (Row → Row) → d.Table → Result Row × d.Table
  update_unique k f t = update_found k f t (d.find_unique k t)

  pub update_unique-free :
      (k : String) (f : Row → Row) (t : d.Table) (r : Row)
      → d.find_unique k t ≡ some r
      → rival k (f r) t ≡ none
      → update_unique k f t ≡ (ok (f r), (d.update k f t).1)
  unfolding update_unique
  update_unique-free k f t r found free = rw (found, free) refl

  -- The two ways in which the update of a row that is there ends.
  pub update_unique_cases :
      (k : String) (f : Row → Row) (t : d.Table) (r : Row)
      → d.find_unique k t ≡ some r
      → (update_unique k f t ≡ (ok (f r), (d.update k f t).1))
        ⊎ (update_unique k f t ≡ (err (prisma_error "P2002"), t))
  unfolding update_unique
  update_unique_cases k f t r found = elim (Option-cases (rival k (f r) t)) [
    | inl free ↦ inl (update_unique-free k f t r found free)
    | inr (x, taken) ↦ inr (rw (found, taken) refl)
  ]
