-- ===== src/Crypto/Secrets.antt =====
-- What `encrypt` of src/common/utils/crypto.util.ts makes, `decrypt` reads.
use Prim.Native.String.{◌++◌}
use secondhand_api.Prelude.{
  ℕ, suc, String, true, false, List, [], ◌∷◌, ◌≡◌, refl, ap, ◌∙◌, ◌⊎◌, inl, inr, eqb, arith,
  Bool-cases,
}
use secondhand_api.Http.{ok, err, Exception, failure, message_of}
use secondhand_api.Crypto.Text.{split, split-plain, split-append}
use secondhand_api.Crypto.CryptoUtil.{NodeCrypto, encrypt, decrypt, open_parts, key_size}

module _ ⦃node : NodeCrypto⦄ where
  split_three :
      (x y z : node.Buffer)
      → split (node.to_hex x ++ (":" ++ (node.to_hex y ++ (":" ++ node.to_hex z))))
        ≡ node.to_hex x ∷ node.to_hex y ∷ node.to_hex z ∷ []
  split_three x y z =
      split-append (node.to_hex x) _ (node.hex_plain x)
      ∙ ap (λ t. node.to_hex x ∷ t) (split-append (node.to_hex y) _ (node.hex_plain y))
      ∙ ap (λ t. node.to_hex x ∷ node.to_hex y ∷ t) (split-plain (node.to_hex z) (node.hex_plain z))

  length_test : (n : ℕ) → eqb n 32 ≡ true → n ≡ 32
  length_test n h = ground (arith, h)

  refused :
      (key : String) (parts : List String) (n : ℕ)
      → eqb (node.byte_length (node.from_hex key)) 32 ≡ false
      → (e : Exception) × ((open_parts key parts n).0 ≡ err e)
  refused key [] n other = (_, refl)
  refused key (x ∷ []) n other = (_, refl)
  refused key (x ∷ y ∷ []) n other = (_, refl)
  refused key (x ∷ y ∷ z ∷ []) n other = (key_size, rw other refl)
  refused key (x ∷ y ∷ z ∷ u ∷ us) n other = (_, refl)

  -- With a key of 32 bytes any text is encrypted, and what comes of it is decrypted to that text
  -- again; with any other key both throw, whatever is to be decrypted.
  pub decrypt-encrypt :
      (text key : String) (n : ℕ)
      → ((node.byte_length (node.from_hex key) ≡ 32)
          × (data_ : String) × (encrypt text key n ≡ (ok data_, suc n))
          × ((m : ℕ) → decrypt data_ key m ≡ (ok text, m)))
        ⊎ ((eqb (node.byte_length (node.from_hex key)) 32 ≡ false)
            × ((e : Exception) × ((encrypt text key n).0 ≡ err e))
            × ((data_ : String) (m : ℕ) → (e : Exception) × ((decrypt data_ key m).0 ≡ err e)))
  unfolding encrypt decrypt
  decrypt-encrypt text key n = elim (Bool-cases (eqb (node.byte_length (node.from_hex key)) 32)) [
    | inl fits ↦
        let k = node.from_hex key in
        let iv = node.random_bytes 16 n in
        let (sealed, tag) = node.seal k iv text in
        let long = length_test (node.byte_length k) fits in
        inl (
          long,
          node.to_hex iv ++ (":" ++ (node.to_hex tag ++ (":" ++ node.to_hex sealed))),
          rw fits refl,
          λ m.
              rw
                (
                  split_three iv tag sealed,
                  fits,
                  node.from-to iv,
                  node.from-to tag,
                  node.from-to sealed,
                  node.unseal-seal k iv text long,
                )
                refl,
        )
    | inr other ↦ inr (
      other,
      (failure ("Encryption failed: " ++ message_of key_size), rw other refl),
      λ data_ m.
          let (e, thrown) = refused key (split data_) m other in
          (failure ("Decryption failed: " ++ message_of e), rw thrown refl),
    )
  ]
