-- ===== src/Prisma/Writing.antt =====
-- What `create` leaves of the rows.
use secondhand_api.Prelude.{
  String, Bool, true, none, some, ◌≡◌, refl, sym, ap, ◌∙◌, ◌⊎◌, inl, inr, ◌==◌, eq_true, Bool-cases,
  Option-cases, if◌then◌else◌,
}
use secondhand_api.Prisma.Delegate.{Delegate}

module _ {Row : Type 0} {key : Row → String} {conflicts : Row → Row → Bool}
    (d : Delegate Row key conflicts) (r : Row) (t : d.Table) where
  -- A row afterwards is the new one or was there.
  pub row_of_create :
      (k : String) (x : Row)
      → d.find_unique k (d.create r t).1 ≡ some x
      → (x ≡ r) ⊎ (d.find_unique k t ≡ some x)
  row_of_create k x h = elim (Option-cases (d.find_first (conflicts r) t)) [
    | inr (y, taken) ↦ inr (sym (ap (λ c. d.find_unique k c.1) (d.create_taken r y t taken)) ∙ h)
    | inl free ↦
        let found : (if key r == k then some r else d.find_unique k t) ≡ some x =
          sym ((d.create_free r t free).1 k) ∙ h in
        elim (Bool-cases (key r == k)) [
          | inl same ↦
              let new : some r ≡ some x =
                ap (λ c. if c then some r else d.find_unique k t) (sym same) ∙ found in
              inl (cc)
          | inr other ↦ inr (ap (λ c. if c then some r else d.find_unique k t) (sym other) ∙ found)
        ]
  ]

  -- What was there stays, where equal keys clash.
  pub kept_by_create :
      ((x : Row) → (key r == key x) ≡ true → conflicts r x ≡ true)
      → (k : String) (x : Row) → d.find_unique k t ≡ some x
      → d.find_unique k (d.create r t).1 ≡ some x
  kept_by_create clash k x there = elim (Option-cases (d.find_first (conflicts r) t)) [
    | inr (y, taken) ↦ ap (λ c. d.find_unique k c.1) (d.create_taken r y t taken) ∙ there
    | inl free ↦ elim (Bool-cases (key r == k)) [
      | inr other ↦ (d.create_free r t free).1 k ∙ rw other there
      | inl same ↦
          let fits = clash x (ap (λ j. key r == j) (d.key_of_found k t x there) ∙ same) in
          absurd (let e = sym (d.none_first _ t free k x there) ∙ fits in cc)
    ]
  ]

  -- Where the call returned, the row is there.
  pub stored_by_create :
      (x : Row)
      → (d.create r t).0 ≡ some x
      → (x ≡ r) × ((k : String) → (key r == k) ≡ true → d.find_unique k (d.create r t).1 ≡ some r)
  stored_by_create x returned = elim (Option-cases (d.find_first (conflicts r) t)) [
    | inr (y, taken) ↦
        absurd (let e = sym (ap (λ c. c.0) (d.create_taken r y t taken)) ∙ returned in cc)
    | inl free ↦
        let (row, stored) = d.create_free r t free in
        ((let e = sym returned ∙ row in cc), λ k same. stored k ∙ rw same refl)
  ]

  pub own_row_stored : (x : Row) → (d.create r t).0 ≡ some x → (d.create r t).0 ≡ some r
  own_row_stored x returned = returned ∙ ap some (stored_by_create x returned).0

  -- Where only equal keys clash, a new key clashes with none.
  pub free_of_new :
      ((x : Row) → conflicts r x ≡ true → (key r == key x) ≡ true)
      → d.find_unique (key r) t ≡ none
      → d.find_first (conflicts r) t ≡ none
  free_of_new clash fresh = elim (Option-cases (d.find_first (conflicts r) t)) [
    | inl free ↦ free
    | inr (x, taken) ↦
        let (there, fits) = d.found_first _ t x taken in
        absurd
          (let e = sym fresh ∙ ap (λ k. d.find_unique k t) (eq_true (clash x fits)) ∙ there in cc)
  ]
