-- ===== src/Delivery/Live.antt =====
-- The worker of relay/publications/services.py with what it calls in production: `get_meta_settings` of
-- relay/social/meta.py, `decrypt_token` of relay/social/crypto.py, `publishable_image_url` of
-- relay/content/delivery.py and `MetaPublishingClient` of relay/social/publishing.py.
pub mod Sent
use aleyacloud_relay.Base.{ℕ, String, List, [], Option, none, some, map}
use aleyacloud_relay.Models.Content.{MediaAsset}
use aleyacloud_relay.Models.Social.{ChannelConnection}
use aleyacloud_relay.Store.{Error, Result, ok, raise}
use aleyacloud_relay.Storage.{Settings, Signer, publishable_image_url}
use aleyacloud_relay.Crypto.{Fernet, decrypt_token}
use aleyacloud_relay.Discovery.{MetaSettings, get_meta_settings}
use aleyacloud_relay.Meta
use aleyacloud_relay.Meta.{Server, Attempt, publish_images}
use aleyacloud_relay.Delivery.{Failure, Delivered, done, transient, permanent, Provider}

-- The settings, the parameters and the servers. `text` is a list of code points as a text, and
-- `describe` is `str(error)` of the errors whose text the model of their module leaves out.
pub record Production : Type 0 where
  pub meta : MetaSettings
  pub server : Server
  pub fernet : Fernet
  pub key : String
  pub storage : Settings
  pub signer : Signer
  pub quote : List ℕ → List ℕ
  pub text : List ℕ → String
  pub describe : Error → String

-- An exception whose class is one of the four that the worker takes as permanent.
abbrev pub or_permanent :
    {A B : Type 0}
    → (code : String) (describe : Error → String) (f : A → B) → Result A
    → Delivered B
or_permanent code describe f (ok a) = done (f a)
or_permanent code describe f (raise e) = permanent (record { code = code; message = describe e })

unfoldable pub url_of : Option (List ℕ) → Delivered (List ℕ)
url_of (some url) = done url
url_of none =
    permanent
      (record { code = "MediaDeliveryUnavailable"; message = "Media delivery is not configured." })

unfoldable pub delivered : Attempt String → Delivered String
delivered (Meta.done id) = done id
delivered (Meta.transient message) =
    transient (record { code = "MetaPublishTransientError"; message = message })
delivered (Meta.permanent message) =
    permanent (record { code = "MetaPublishPermanentError"; message = message })

-- `publish_images` of the client for a connection.
unfoldable pub publish_connection :
    Production
    → ChannelConnection
    → (access_token body : String) (image_urls : List (List ℕ)) → Meta.Http String
publish_connection w c token body image_urls =
    publish_images w.server c.provider_channel_id token body c.channel (map w.text image_urls)

unfoldable pub live : Production → Provider
live w = record {
  client = or_permanent "MetaConfigurationError" w.describe (λ s. tt) (get_meta_settings w.meta);
  decrypt_token =
      λ s. or_permanent "TokenEncryptionError" w.describe (λ t. t) (decrypt_token w.fernet w.key s);
  publishable_image_url = λ a. url_of (publishable_image_url w.storage w.signer w.quote a);
  publish_images = λ c token body urls. delivered (publish_connection w c token body urls []).0;
}
