-- ===== src/Crypto/Text.antt =====
-- `text.split(':')`, as src/common/utils/crypto.util.ts uses it.
use secondhand_api.Prelude.{
  String, Bool, true, not, ◌&&◌, List, [], ◌∷◌, ◌≡◌, refl, ap, ◌∙◌, eqb, arith, if◌then◌else◌,
}
use Prim.Native.Char.{Char, code}
use Prim.Native.String.{◌++◌}
use text.Mathlib.TextLemmas.{nil-append, cons-append}

-- A character before the first part.
abbrev glue : Char → List String → List String
glue c [] = String.◌∷◌ c "" ∷ []
glue c (part ∷ parts) = String.◌∷◌ c part ∷ parts

abbrev pub split : String → List String
split String.[] = "" ∷ []
split (String.◌∷◌ c s) = let rest = split s in if eqb (code c) b':' then "" ∷ rest else glue c rest

-- Free of `:`.
abbrev pub is_plain : String → Bool
is_plain String.[] = true
is_plain (String.◌∷◌ c s) = not (eqb (code c) b':') && is_plain s

colon : Char
colon = ":"

pub split-plain : (a : String) → is_plain a ≡ true → split a ≡ a ∷ []
split-plain String.[] plain = refl
split-plain (String.◌∷◌ c s) plain = ground (arith, split-plain s, plain)

pub split-append : (a s : String) → is_plain a ≡ true → split (a ++ (":" ++ s)) ≡ a ∷ split s
unfolding colon
split-append String.[] s plain =
    ap split (nil-append (":" ++ s))
    ∙ ap split (cons-append colon "" s)
    ∙ ap (λ t. "" ∷ split t) (nil-append s)
split-append (String.◌∷◌ c a) s plain =
    ap split (cons-append c a (":" ++ s)) ∙ ground (arith, split-append a s, plain)
