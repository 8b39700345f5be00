-- ===== src/Crypto/Stored.antt =====
-- The encryption of a token against its decryption (relay/social/crypto.py), and the row that
-- `persist_meta_connections` (relay/social/services.py) stores against the query that it uses.
use aleyacloud_relay.Base.{ℕ, true, String, ◌≡◌, refl, arith, eq_refl}
use aleyacloud_relay.Models.Social.{Channel}
use aleyacloud_relay.Store.{ok}
use aleyacloud_relay.Oauth.{MetaToken, MetaConnection, same_channel, is_connection, connection_row}
use aleyacloud_relay.Crypto.{Fernet, IsFernet, cipher, encrypt_token, decrypt_token}

pub same_channel_refl : (channel : Channel) → same_channel channel channel ≡ true
same_channel_refl Channel.meta_facebook_page = refl
same_channel_refl Channel.meta_instagram_business_account = refl

pub is_connection-connection_row :
    (account : ℕ) (token : MetaToken) (c : MetaConnection) (encrypted : String) (id : ℕ)
    → is_connection account c (connection_row account token c encrypted id) ≡ true
is_connection-connection_row account token c encrypted id =
    ground (arith, same_channel_refl c.channel, eq_refl c.provider_channel_id)

module _ (f : Fernet) (laws : IsFernet f) where
  pub decrypt-encrypt_token :
      (key token : String) {ciphertext : String}
      → encrypt_token f key token ≡ ok ciphertext
      → decrypt_token f key ciphertext ≡ ok token
  unfolding encrypt_token decrypt_token cipher
  decrypt-encrypt_token key token {ciphertext} h =
      ground (arith, laws.encrypt-is_utf8 key token, laws.decrypt-encrypt key token)
