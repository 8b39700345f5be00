-- ===== src/Crypto.antt =====
-- relay/social/crypto.py: access tokens are stored encrypted. Fernet and the setting
-- TOKEN_ENCRYPTION_KEY are arguments.
pub mod Stored
pub mod Flow
use aleyacloud_relay.Base.{Bool, true, not, String, Option, none, some, ◌≡◌, if◌then◌else◌}
use aleyacloud_relay.Store.{Result, ok, raise, token_encryption_error}

-- `cryptography.fernet.Fernet` on texts: whether a key is accepted, its encryption, and its decryption,
-- where `none` is InvalidToken. `is_utf8` is whether `str.encode` accepts a text.
pub record Fernet : Type 0 where
  pub is_key : String → Bool
  pub is_utf8 : String → Bool
  pub encrypt : (key token : String) → String
  pub decrypt : (key ciphertext : String) → Option String

-- What Fernet documents: a ciphertext is a URL-safe text, and decrypts to what was encrypted.
pub record IsFernet (f : Fernet) : Type 0 where
  pub encrypt-is_utf8 : (key token : String) → f.is_utf8 (f.encrypt key token) ≡ true
  pub decrypt-encrypt :
      (key token : String) → f.is_key key ≡ true → f.decrypt key (f.encrypt key token) ≡ some token

-- `_cipher` raises where the key is not accepted.
unfoldable pub cipher : Fernet → (key : String) → Result String
cipher f key = if f.is_key key then ok key else raise token_encryption_error

unfoldable pub encrypt_token : Fernet → (key token : String) → Result String
encrypt_token f key token = elim (cipher f key) [
  | raise e ↦ raise e
  | ok k ↦ if f.is_utf8 token then ok (f.encrypt k token) else raise token_encryption_error
]

unfoldable pub decrypt_token : Fernet → (key ciphertext : String) → Result String
decrypt_token f key ciphertext = elim (cipher f key) [
  | raise e ↦ raise e
  | ok k ↦
      if not (f.is_utf8 ciphertext)
      then raise token_encryption_error
      else elim (f.decrypt k ciphertext) [ none ↦ raise token_encryption_error | some t ↦ ok t ]
]
