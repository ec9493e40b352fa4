-- ===== src/Prelude/Tests.antt =====
-- Boolean tests on the native numbers, the conditional, and splits on computed values.
use Prim.Native.Nat.{ℕ, ◌+◌, ◌-◌, ◌/◌, ◌≤◌, ◌<◌, compare, Ordering}
use Prim.Native.String.{String}
use mathlib.Core.Path.{◌≡◌, refl}
use mathlib.Core.Logic.{◌⊎◌, inl, inr}
use mathlib.Core.Bool.{Bool, true, false, not}
use mathlib.Core.Option
use mathlib.Core.Option.{Option, none, some}
use native.Mathlib.Omega.{arith}
use text.Mathlib.Text.{◌==◌}
use text.Mathlib.TextEquality.{eq_iff}

abbrev pub ltb : ℕ → ℕ → Bool
ltb a b = elim (compare a b) [ Ordering.lt ↦ true | _ ↦ false ]

abbrev pub leb : ℕ → ℕ → Bool
leb a b = elim (compare a b) [ Ordering.gt ↦ false | _ ↦ true ]

abbrev pub eqb : ℕ → ℕ → Bool
eqb a b = elim (compare a b) [ Ordering.eq ↦ true | _ ↦ false ]

infix 1 if◌then◌else◌
abbrev pub if◌then◌else◌ {ℓ} : {A : Type ℓ} → Bool → A → A → A
if true then x else y = x
if false then x else y = y

pub ltb→lt : (a b : ℕ) → ltb a b ≡ true → a < b
ltb→lt a b h = ground arith

pub leb→le : (a b : ℕ) → leb a b ≡ true → a ≤ b
leb→le a b h = ground arith

pub Bool-cases : (b : Bool) → (b ≡ true) ⊎ (b ≡ false)
Bool-cases true = inl refl
Bool-cases false = inr refl

pub Option-cases {ℓ} : {A : Type ℓ} (o : Option A) → (o ≡ none) ⊎ ((a : A) × (o ≡ some a))
Option-cases none = inl refl
Option-cases (some a) = inr (a, refl)

-- `===` on two strings that are one, and on two that are not.
pub eq_self : (k : String) → (k == k) ≡ true
eq_self k = (eq_iff k k).1 refl

pub eq_true : {a b : String} → (a == b) ≡ true → a ≡ b
eq_true {a} {b} h = (eq_iff a b).0 h

pub eq_sym_false : (a b : String) → (a == b) ≡ false → (b == a) ≡ false
eq_sym_false a b h = ground (arith, eq_iff a b, eq_iff b a)

-- `Math.ceil(a / b)`, for a positive b.
abbrev pub ceil_div : ℕ → ℕ → ℕ
ceil_div a b = (a + (b - 1)) / b

module _ {ℓ} {A : Type ℓ} where
  -- A value of a DTO that is given, or else what was there.
  abbrev pub given : Option A → A → A
  given none old = old
  given (some new) old = new

  -- The same for a column that may be empty.
  abbrev pub given_or_kept : Option A → Option A → Option A
  given_or_kept none old = old
  given_or_kept (some new) old = some new

-- A mapped option that is present comes from one that is.
pub map-eq-some {ℓ κ} :
    {A : Type ℓ} {B : Type κ} (f : A → B) (o : Option A) (y : B)
    → Option.map f o ≡ some y
    → (x : A) × (o ≡ some x) × (f x ≡ y)
map-eq-some f none y h = cc
map-eq-some f (some x) y h = (x, refl, cc)

-- A text that is given and not empty, as JavaScript takes it for true.
abbrev pub truthy_text : Option String → Bool
truthy_text none = false
truthy_text (some t) = not (t == "")

-- `...(x && { column: x })` for a text: in a new row, and over an old value.
abbrev pub if_truthy : Option String → Option String
if_truthy none = none
if_truthy (some t) = if t == "" then none else some t

abbrev pub text_or_kept : Option String → String → String
text_or_kept none kept = kept
text_or_kept (some t) kept = if t == "" then kept else t
