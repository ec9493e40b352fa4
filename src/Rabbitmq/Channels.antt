-- ===== src/Rabbitmq/Channels.antt =====
-- Arrays and sets of channel wrappers. A wrapper is an object: the n-th that the connection creates
-- is known by n.
use secondhand_api.Prelude.{
  ℕ, suc, ◌+◌, ◌-◌, ◌<◌, Bool, true, false, Option, none, some, List, [], ◌∷◌, ◌++◌, ◌≡◌, eqb, ltb,
  arith, if◌then◌else◌,
}

-- How often a channel stands in a list.
abbrev pub count : ℕ → List ℕ → ℕ
count c [] = 0
count c (x ∷ xs) = let rest = count c xs in if eqb x c then suc rest else rest

-- `set.has(c)`
abbrev pub has : ℕ → List ℕ → Bool
has c xs = ltb 0 (count c xs)

-- `set.add(c)`
unfoldable pub add : ℕ → List ℕ → List ℕ
add c xs = if has c xs then xs else c ∷ xs

-- `set.delete(c)`
unfoldable pub remove : ℕ → List ℕ → List ℕ
remove c [] = []
remove c (x ∷ xs) = let rest = remove c xs in if eqb x c then xs else x ∷ rest

-- `array.find(test)`
unfoldable pub find : (ℕ → Bool) → List ℕ → Option ℕ
find test [] = none
find test (x ∷ xs) = let rest = find test xs in if test x then some x else rest

pub count-add :
    (c d : ℕ) (xs : List ℕ)
    → count d (add c xs) ≡ (if has c xs then count d xs else count d (c ∷ xs))
unfolding add
count-add c d xs = ground arith

pub count-remove :
    (c d : ℕ) (xs : List ℕ)
    → count d (remove c xs) ≡ (if eqb c d then count d xs - 1 else count d xs)
unfolding remove
count-remove c d [] = ground arith
count-remove c d (x ∷ xs) = ground (arith, count-remove c d xs)

pub count-append : (c : ℕ) (xs ys : List ℕ) → count c (xs ++ ys) ≡ count c xs + count c ys
count-append c [] ys = omega arith
count-append c (x ∷ xs) ys = ground (arith, count-append c xs ys)

-- What `find` finds is in the list and passes the test.
pub find-some :
    (test : ℕ → Bool) (xs : List ℕ) (c : ℕ)
    → find test xs ≡ some c
    → (test c ≡ true) × (0 < count c xs)
unfolding find
find-some test [] c h = cc
find-some test (x ∷ xs) c h = ground (arith, find-some test xs c)

pub find-none :
    (test : ℕ → Bool) (xs : List ℕ) (c : ℕ) → find test xs ≡ none → 0 < count c xs → test c ≡ false
unfolding find
find-none test [] c h m = absurd (omega arith)
find-none test (x ∷ xs) c h m = ground (arith, find-none test xs c)
