-- ===== src/Tests/Discovering.antt =====
-- Runs of `MetaOAuthClient` of relay/social/meta.py, and of the storage of the tokens that it brings.
use aleyacloud_relay.Base.{
  ℕ, pos, ◌+◌, count, true, not, String, str_eq, List, [], ◌∷◌, ◌++◌, Option, none, some, ◌≡◌, refl,
  arith, codes, find, exists, save,
}
use aleyacloud_relay.Models.Social.{Channel}
use aleyacloud_relay.Store.{Db, ok}
use aleyacloud_relay.Oauth.{
  MetaToken, MetaConnection, scopes, start_meta_oauth, update_or_create_connection, MetaIdentity,
  update_or_create_account, persist_connections, persist_meta_connections,
}
use aleyacloud_relay.Urls.{utf8}
use aleyacloud_relay.Urls.Read.{read_query}
use aleyacloud_relay.Discovery.{
  MetaSettings, Instagram, Page, Body, Server, seconds, get_meta_settings, join_comma, dialog_url,
  authorization_url, client_url, page_connections, list_connections, request, request_token,
  discover_identity, expiry, connect,
}
use aleyacloud_relay.Discovery.Query.{start_meta_oauth-read_query}
use aleyacloud_relay.Crypto.{Fernet, IsFernet, cipher, encrypt_token}
use aleyacloud_relay.Crypto.Flow.{HasUniqueRows, last_token}
use aleyacloud_relay.Crypto.Flow.Loop.{HoldsAll, persist_meta_connections-HoldsAll}
use aleyacloud_relay.Tests.{digest, start_db, account}

abbrev settings : MetaSettings
settings = record {
  app_id = "app";
  app_secret = "key";
  redirect_uri = "https://relay.test/callback";
  graph_version = "v1";
}

-- A state whose characters have to be quoted.
abbrev spiced : List ℕ
spiced = codes "a b&c=é"

started :
    (start_meta_oauth digest (client_url settings) 1 10 "ana" spiced 900 1000 start_db).0
    ≡ ok (authorization_url settings spiced)
unfolding start_meta_oauth client_url get_meta_settings exists find
started = refl

start_meta_oauth-read_query_example :
    (query : List ℕ) × (authorization_url settings spiced ≡ dialog_url settings ++ query)
    × (read_query query
        ≡ (utf8 (codes "client_id"), utf8 (codes settings.app_id))
          ∷ (utf8 (codes "redirect_uri"), utf8 (codes settings.redirect_uri))
          ∷ (utf8 (codes "state"), utf8 spiced)
          ∷ (utf8 (codes "response_type"), utf8 (codes "code"))
          ∷ (utf8 (codes "scope"), utf8 (join_comma scopes))
          ∷ [])
start_meta_oauth-read_query_example =
    start_meta_oauth-read_query digest settings 1 10 "ana" spiced 900 1000 start_db
      {url = authorization_url settings spiced} (omega arith) started

abbrev empty_body : Body
empty_body = record { access_token = none; expires_in = none; id = none; name = none; items = none }

abbrev page : String → Option String → Option Instagram → Page
page id token instagram = record {
  id = some id;
  name = some "Page";
  access_token = token;
  instagram_business_account = instagram;
}

-- One page with an Instagram account, one without, and one without a token.
abbrev pages : List Page
pages =
    page "p1" (some "t1") (some (record { id = some "i1"; username = none }))
    ∷ page "p2" (some "t2") none
    ∷ page "p3" none none
    ∷ []

abbrev answers : Server
answers url params = some (record {
  access_token = some "user";
  expires_in = some (seconds (pos 60));
  id = some "me";
  name = none;
  items = some pages;
})

connected :
    connect settings answers 1000 (codes "code")
    ≡ ok (
      record { access_token = "user"; expires_at = some 1060 },
      record {
        provider_account_id = "me";
        display_name = "";
        connections =
            record {
              channel = Channel.meta_facebook_page;
              provider_channel_id = "p1";
              display_name = "Page";
              access_token = "t1";
            }
            ∷ record {
              channel = Channel.meta_instagram_business_account;
              provider_channel_id = "i1";
              display_name = "Page";
              access_token = "t1";
            }
            ∷ record {
              channel = Channel.meta_facebook_page;
              provider_channel_id = "p2";
              display_name = "Page";
              access_token = "t2";
            }
            ∷ [];
      },
    )
unfolding connect request_token request discover_identity list_connections page_connections expiry
connected = refl

-- A cipher that puts a sign before what it hides.
abbrev hide : String → String
hide token = String.◌∷◌ "#" token

abbrev show : String → Option String
show String.[] = none
show (String.◌∷◌ c s) = some s

abbrev marking : Fernet
marking = record {
  is_key = λ key. not (str_eq key "");
  is_utf8 = λ token. true;
  encrypt = λ key token. hide token;
  decrypt = λ key ciphertext. show ciphertext;
}

abbrev marking-IsFernet : IsFernet marking
marking-IsFernet = record {
  encrypt-is_utf8 = λ key token. refl;
  decrypt-encrypt = λ key token h. refl;
}

abbrev meta_token : MetaToken
meta_token = record { access_token = "user"; expires_at = some 1060 }

-- The connection that the data has already.
abbrev again : MetaConnection
again = record {
  channel = Channel.meta_facebook_page;
  provider_channel_id = "page";
  display_name = "New name";
  access_token = "t1";
}

-- An identity that lists the page twice, with another channel in between.
abbrev twice : MetaIdentity
twice = record {
  provider_account_id = "me";
  display_name = "Me";
  connections =
      again
      ∷ record again {
        channel = Channel.meta_instagram_business_account;
        provider_channel_id = "ig";
      }
      ∷ record again { access_token = "t3" }
      ∷ [];
}

abbrev persisted_db : Db
persisted_db =
    (persist_meta_connections (encrypt_token marking "key") 1 10 "ana" meta_token twice 501
      (λ n. 600 + n) start_db).1

persisted :
    persist_meta_connections
      (encrypt_token marking "key")
      1
      10
      "ana"
      meta_token
      twice
      501
      (λ n. 600 + n)
      start_db
    ≡ (ok account, persisted_db)
unfolding persist_meta_connections update_or_create_account persist_connections
    update_or_create_connection encrypt_token cipher find exists save
persisted = refl

last : last_token again (record again { access_token = "t3" } ∷ []) "t1" ≡ "t3"
unfolding last_token
last = refl

start_unique : HasUniqueRows start_db.connections
unfolding count
start_unique j = ground arith

persist_meta_connections-HoldsAll_example :
    HoldsAll marking marking-IsFernet "key" 500 meta_token persisted_db.connections
      twice.connections
persist_meta_connections-HoldsAll_example =
    persist_meta_connections-HoldsAll marking marking-IsFernet "key" 1 10 "ana" meta_token twice 501
      (λ n. 600 + n) start_db persisted_db start_unique persisted
