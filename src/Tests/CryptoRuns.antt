-- ===== src/Tests/CryptoRuns.antt =====
-- The theorem on src/common/utils/crypto.util.ts, applied to a buffer that is a text and a cipher
-- that hides nothing: it shows that the laws of NodeCrypto can hold.
use Prim.Native.Char.{Char, code}
use text.Mathlib.TextEquality.{Char-path}
use secondhand_api.Prelude.{
  ℕ, String, true, false, ◌≡◌, ◌⊎◌, refl, sym, ap, ◌∙◌, eqb, arith, if◌then◌else◌, Bool-cases, inl,
  inr,
}
use secondhand_api.Http.{ok, err, Exception}
use secondhand_api.Crypto.Text.{is_plain}
use secondhand_api.Crypto.CryptoUtil.{NodeCrypto, encrypt, decrypt}
use secondhand_api.Crypto.Secrets.{decrypt-encrypt}

abbrev colon : Char
colon = ":"

abbrev mark : Char
mark = "a"

abbrev plain_mark : Char
plain_mark = "b"

-- Each character after a mark, which says whether it was `:`.
abbrev escape : String → String
escape String.[] = ""
escape (String.◌∷◌ c s) =
    let rest = escape s in
    if eqb (code c) b':'
    then String.◌∷◌ mark (String.◌∷◌ mark rest)
    else String.◌∷◌ plain_mark (String.◌∷◌ c rest)

abbrev unescape : String → String
unescape String.[] = ""
unescape (String.◌∷◌ t String.[]) = ""
unescape (String.◌∷◌ t (String.◌∷◌ c s)) =
    let rest = unescape s in String.◌∷◌ (if eqb (code t) b'a' then colon else c) rest

escape-plain : (s : String) → is_plain (escape s) ≡ true
escape-plain String.[] = refl
escape-plain (String.◌∷◌ c s) = elim (Bool-cases (eqb (code c) b':')) [
  | inl is_colon ↦ rw is_colon (escape-plain s)
  | inr other ↦ rw (other, other) (escape-plain s)
]

same_code : (n : ℕ) → eqb n b':' ≡ true → n ≡ b':'
same_code n h = ground (arith, h)

unescape-escape : (s : String) → unescape (escape s) ≡ s
unescape-escape String.[] = refl
unescape-escape (String.◌∷◌ c s) = elim (Bool-cases (eqb (code c) b':')) [
  | inl is_colon ↦ rw is_colon (
      ap (λ t. String.◌∷◌ colon t) (unescape-escape s)
      ∙ ap (λ d. String.◌∷◌ d s) (sym (Char-path c colon (same_code (code c) is_colon))))
  | inr other ↦ rw other (ap (λ t. String.◌∷◌ c t) (unescape-escape s))
]

instance abbrev example_node : NodeCrypto
example_node = record {
  Buffer = String;
  from_hex = unescape;
  to_hex = escape;
  byte_length = λ x. 32;
  random_bytes = λ length n. "iv";
  seal = λ key iv text. (text, "tag");
  unseal = λ key iv auth_tag encrypted. ok encrypted;
  from-to = unescape-escape;
  hex_plain = escape-plain;
  unseal-seal = λ key iv text long. refl;
}

decrypt-encrypt_example :
    ((example_node.byte_length (example_node.from_hex "key") ≡ 32)
      × (data_ : String) × (encrypt "a:b" "key" 0 ≡ (ok data_, 1))
      × ((m : ℕ) → decrypt data_ "key" m ≡ (ok "a:b", m)))
    ⊎ ((eqb (example_node.byte_length (example_node.from_hex "key")) 32 ≡ false)
        × ((e : Exception) × ((encrypt "a:b" "key" 0).0 ≡ err e))
        × ((data_ : String) (m : ℕ) → (e : Exception) × ((decrypt data_ "key" m).0 ≡ err e)))
decrypt-encrypt_example = decrypt-encrypt "a:b" "key" 0
