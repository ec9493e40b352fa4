-- ===== src/Categories/Forest.antt =====
-- Categories under their parents: chains that end at a root, and what changes of the table keep them.
use secondhand_api.Prelude.{
  String, false, Option, none, some, ◌≡◌, refl, ap, sym, subst, ◌∙◌, ◌==◌, eq_true, Bool-cases, ◌⊎◌,
  inl, inr,
}
use secondhand_api.Schema.{Category}

-- The categories by id.
abbrev pub Table : Type 0
Table = String → Option Category

-- The parents of a category lead up to one without a parent.
pub data Rooted (f : Table) : String → Type 0 where
  root : (k : String) (c : Category) → f k ≡ some c → c.parent_id ≡ none → Rooted f k
  child :
      (k p : String) (c : Category) → f k ≡ some c → c.parent_id ≡ some p → Rooted f p → Rooted f k

-- A category stands somewhere under another.
pub data Below (f : Table) (top : String) : String → Type 0 where
  direct : (k : String) (c : Category) → f k ≡ some c → c.parent_id ≡ some top → Below f top k
  deeper :
      (k p : String) (c : Category)
      → f k ≡ some c
      → c.parent_id ≡ some p
      → Below f top p
      → Below f top k

-- No category goes round in a circle.
abbrev pub IsForest : Table → Type 0
IsForest f = (k : String) (c : Category) → f k ≡ some c → Rooted f k

-- The two tables agree except at one id.
abbrev pub AgreeOff : String → Table → Table → Type 0
AgreeOff id f g = (k : String) → (id == k) ≡ false → g k ≡ f k

module _ {f g : Table} (id : String) (off : AgreeOff id f g) where
  -- A chain that avoids the id stands in both.
  Rooted-avoids : (t : String) → Rooted f t → (id == t) ≡ false → ¬ Below f id t → Rooted g t
  Rooted-avoids t (root k c at top) other above = root t c (off t other ∙ at) top
  Rooted-avoids t (child k p c at up rooted) other above = elim (Bool-cases (id == p)) [
    | inl here ↦ absurd (above (direct t c at (up ∙ ap some (sym (eq_true here)))))
    | inr away ↦
        child t p c (off t other ∙ at) up
          (Rooted-avoids p rooted away (λ below. above (deeper t p c at up below)))
  ]

  -- Where the id itself is rooted, so is everything else.
  Rooted-rebuilds : Rooted g id → (k : String) → Rooted f k → Rooted g k
  Rooted-rebuilds there k (root _ c at top) = elim (Bool-cases (id == k)) [
    | inl here ↦ subst (Rooted g) (eq_true here) there
    | inr away ↦ root k c (off k away ∙ at) top
  ]
  Rooted-rebuilds there k (child _ p c at up rooted) = elim (Bool-cases (id == k)) [
    | inl here ↦ subst (Rooted g) (eq_true here) there
    | inr away ↦ child k p c (off k away ∙ at) up (Rooted-rebuilds there p rooted)
  ]

  IsForest-rebuilds : Rooted g id → IsForest f → IsForest g
  IsForest-rebuilds there forest k c at = elim (Bool-cases (id == k)) [
    | inl here ↦ subst (Rooted g) (eq_true here) there
    | inr away ↦ Rooted-rebuilds there k (forest k c (sym (off k away) ∙ at))
  ]

  -- A category moves under one that does not stand under it.
  pub IsForest-moves :
      (c t : Category) (target : String)
      → IsForest f
      → g id ≡ some c
      → c.parent_id ≡ some target
      → f target ≡ some t
      → (id == target) ≡ false
      → ¬ Below f id target
      → IsForest g
  IsForest-moves c t target forest at up there other above =
      IsForest-rebuilds
        (child id target c at up (Rooted-avoids target (forest target t there) other above)) forest

  -- A category becomes a root.
  pub IsForest-roots : (c : Category) → IsForest f → g id ≡ some c → c.parent_id ≡ none → IsForest g
  IsForest-roots c forest at top = IsForest-rebuilds (root id c at top) forest

  -- What stands at the id has the parent that it had.
  kept_parent :
      (c d x : Category) (k : String)
      → f id ≡ some c
      → g id ≡ some d
      → d.parent_id ≡ c.parent_id
      → id ≡ k
      → f k ≡ some x
      → (g k ≡ some d) × (d.parent_id ≡ x.parent_id)
  kept_parent c d x k was now same e at =
      let one : some c ≡ some x = sym was ∙ ap f e ∙ at in
      let c_x : c ≡ x = cc in (ap g (sym e) ∙ now, same ∙ ap (λ (r : Category). r.parent_id) c_x)

  -- A category keeps its parent.
  Rooted-stays :
      (c d : Category)
      → f id ≡ some c
      → g id ≡ some d
      → d.parent_id ≡ c.parent_id
      → (k : String) → Rooted f k
      → Rooted g k
  Rooted-stays c d was now same k (root _ x at top) = elim (Bool-cases (id == k)) [
    | inl here ↦
        let (now', up) = kept_parent c d x k was now same (eq_true here) at in
        root k d now' (up ∙ top)
    | inr away ↦ root k x (off k away ∙ at) top
  ]
  Rooted-stays c d was now same k (child _ p x at up rooted) = elim (Bool-cases (id == k)) [
    | inl here ↦
        let (now', up') = kept_parent c d x k was now same (eq_true here) at in
        child k p d now' (up' ∙ up) (Rooted-stays c d was now same p rooted)
    | inr away ↦ child k p x (off k away ∙ at) up (Rooted-stays c d was now same p rooted)
  ]

  pub IsForest-stays :
      (c d : Category)
      → IsForest f
      → f id ≡ some c
      → g id ≡ some d
      → d.parent_id ≡ c.parent_id
      → IsForest g
  IsForest-stays c d forest was now same k x at = elim (Bool-cases (id == k)) [
    | inl here ↦
        subst (Rooted g) (eq_true here) (Rooted-stays c d was now same id (forest id c was))
    | inr away ↦ Rooted-stays c d was now same k (forest k x (sym (off k away) ∙ at))
  ]

module _ {f g : Table} (id : String) (off : AgreeOff id f g)
    (childless : (k : String) (c : Category) → f k ≡ some c → ¬ (c.parent_id ≡ some id)) where
  Rooted-removes : (k : String) → Rooted f k → (id == k) ≡ false → Rooted g k
  Rooted-removes k (root _ c at top) away = root k c (off k away ∙ at) top
  Rooted-removes k (child _ p c at up rooted) away = elim (Bool-cases (id == p)) [
    | inl here ↦ absurd (childless k c at (up ∙ ap some (sym (eq_true here))))
    | inr other ↦ child k p c (off k away ∙ at) up (Rooted-removes p rooted other)
  ]

  -- A category that is the parent of none goes.
  pub IsForest-removes : IsForest f → g id ≡ none → IsForest g
  IsForest-removes forest gone k c at = elim (Bool-cases (id == k)) [
    | inl here ↦ absurd (let e = sym gone ∙ ap g (eq_true here) ∙ at in cc)
    | inr away ↦ Rooted-removes k (forest k c (sym (off k away) ∙ at)) away
  ]

module _ {f g : Table} (id : String) (off : AgreeOff id f g) (fresh : f id ≡ none) where
  other_than_fresh : (k : String) (c : Category) → f k ≡ some c → (id == k) ≡ false
  other_than_fresh k c at = elim (Bool-cases (id == k)) [
    | inl here ↦ absurd (let e = sym fresh ∙ ap f (eq_true here) ∙ at in cc)
    | inr away ↦ away
  ]

  Rooted-grows : (k : String) → Rooted f k → Rooted g k
  Rooted-grows k (root _ c at top) = root k c (off k (other_than_fresh k c at) ∙ at) top
  Rooted-grows k (child _ p c at up rooted) =
      child k p c (off k (other_than_fresh k c at) ∙ at) up (Rooted-grows p rooted)

  -- A new category comes, a root or under one that is there.
  pub IsForest-grows :
      (c : Category)
      → IsForest f
      → g id ≡ some c
      → (c.parent_id ≡ none)
        ⊎ ((p : String) × (t : Category) × (c.parent_id ≡ some p) × (f p ≡ some t))
      → IsForest g
  IsForest-grows c forest now parent k x at = elim (Bool-cases (id == k)) [
    | inr away ↦ Rooted-grows k (forest k x (sym (off k away) ∙ at))
    | inl here ↦ subst (Rooted g) (eq_true here) (elim parent [
      | inl top ↦ root id c now top
      | inr (p, t, up, there) ↦ child id p c now up (Rooted-grows p (forest p t there))
    ])
  ]

-- Below, from above: some child of the top is the one in question or above it.
pub Below-child :
    {f : Table} {top : String} (t : String)
    → Below f top t
    → (j : String) × (c : Category) × (f j ≡ some c)
      × (c.parent_id ≡ some top)
      × ((j ≡ t) ⊎ Below f j t)
Below-child t (direct _ c at up) = (t, c, at, up, inl refl)
Below-child t (deeper _ p c at up below) =
    let (j, d, at', up', rest) = Below-child p below in
    (
      j,
      d,
      at',
      up',
      inr (elim rest [
        | inl e ↦ direct t c at (up ∙ ap some (sym e))
        | inr lower ↦ deeper t p c at up lower
      ]),
    )
