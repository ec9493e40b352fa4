-- ===== src/Crypto/CryptoUtil.antt =====
-- src/common/utils/crypto.util.ts. Buffers and ciphers of node are parameters; the state counts the
-- readings of random bytes.
use Prim.Native.String.{◌++◌}
use secondhand_api.Prelude.{ℕ, suc, String, not, List, [], ◌∷◌, ◌≡◌, eqb, true}
use secondhand_api.Http.{Result, ok, err, Exception, failure, message_of}
use secondhand_api.Exec.{Exec, pure, throw, throw_if, ◌>>=◌, ◌>>◌}
use secondhand_api.Crypto.Text.{split, is_plain}

-- Buffer and node:crypto, with the documented behaviour that the code relies on: what a key seals
-- with aes-256-gcm, it opens; and bytes are written in hexadecimal digits.
pub record NodeCrypto : Type 1 where
  pub Buffer : Type 0
  pub from_hex : String → Buffer
  pub to_hex : Buffer → String
  pub byte_length : Buffer → ℕ
  -- randomBytes(length), by the number of the reading
  pub random_bytes : ℕ → ℕ → Buffer
  -- createCipheriv, update and final, and getAuthTag
  pub seal : (key iv : Buffer) → (text : String) → Buffer × Buffer
  -- createDecipheriv, setAuthTag, update and final, any of which may throw
  pub unseal : (key iv auth_tag encrypted : Buffer) → Result String
  pub from-to : (x : Buffer) → from_hex (to_hex x) ≡ x
  pub hex_plain : (x : Buffer) → is_plain (to_hex x) ≡ true
  pub unseal-seal :
      (key iv : Buffer) (text : String)
      → byte_length key ≡ 32
      → unseal key iv (seal key iv text).1 (seal key iv text).0 ≡ ok text

abbrev pub key_size : Exception
key_size = failure "Secret key must be 32 bytes (64 hex characters)"

abbrev pub wrapped : String → Result String → Result String
wrapped reason (ok text) = ok text
wrapped reason (err e) = err (failure (reason ++ message_of e))

-- try { … } catch (error) { throw new Error(`…: ${error.message}`); }
abbrev pub rethrow : String → Exec ℕ String → Exec ℕ String
rethrow reason m s = let (r, s') = m s in (wrapped reason r, s')

module _ ⦃node : NodeCrypto⦄ where
  unfoldable pub encrypt : (text secret_key : String) → Exec ℕ String
  encrypt text secret_key = rethrow "Encryption failed: " (do
    iv ← λ n. (ok (node.random_bytes 16 n), suc n)
    let key = node.from_hex secret_key
    throw_if (not (eqb (node.byte_length key) 32)) key_size
    let (encrypted, auth_tag) = node.seal key iv text
    pure (node.to_hex iv ++ (":" ++ (node.to_hex auth_tag ++ (":" ++ node.to_hex encrypted)))))

  -- The three parts of the text, if there are three.
  abbrev pub open_parts : (secret_key : String) → List String → Exec ℕ String
  open_parts secret_key (iv_hex ∷ auth_tag_hex ∷ encrypted ∷ []) = do
    let key = node.from_hex secret_key
    throw_if (not (eqb (node.byte_length key) 32)) key_size
    λ n. (
      node.unseal key (node.from_hex iv_hex) (node.from_hex auth_tag_hex) (node.from_hex encrypted),
      n,
    )
  open_parts secret_key _ = throw (failure "Invalid encrypted data format")

  unfoldable pub decrypt : (encrypted_data secret_key : String) → Exec ℕ String
  decrypt encrypted_data secret_key =
      rethrow "Decryption failed: " (open_parts secret_key (split encrypted_data))
