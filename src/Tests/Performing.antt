-- ===== src/Tests/Performing.antt =====
-- Runs of several operations on the test data, and of the publishing client against a server that never
-- processes an image.
use aleyacloud_relay.Base.{
  ℕ, ◌+◌, ◌≤◌, ◌<◌, ◌⊎◌, true, List, [], ◌∷◌, none, some, ◌≡◌, arith, ◌==◌, find, count, length,
  codes,
}
use aleyacloud_relay.Models.Content.{Post}
use aleyacloud_relay.Models.Social.{Channel}
use aleyacloud_relay.Store.{ok, raise, meta_provider_error}
use aleyacloud_relay.Meta.{Request, Reply, Server, Trace, publish_images}
use aleyacloud_relay.Meta.Requests.{publish_images-most_requests}
use aleyacloud_relay.System.{Outside, Operation, perform_all}
use aleyacloud_relay.System.Trail.{Extends, perform_all-Extends}
use aleyacloud_relay.System.Moves.{HasUniqueIds, Reaches, by_id, perform_all-Reaches}
use aleyacloud_relay.Storage.{Settings, Signer}
use aleyacloud_relay.Tests.{digest, payload_digest, post_payload, start_db}

abbrev storage : Settings
storage = record {
  endpoint_url = "https://b2.test";
  region = "eu";
  application_key_id = "id";
  application_key = "key";
  bucket = "relay";
  media_public_base_url = [];
  media_url_ttl_seconds = 900;
}

abbrev signer : Signer
signer = record {
  get_object = λ client bucket key ttl. key;
  put_object = λ client bucket key type sum ttl. key;
}

abbrev outside : Outside
outside = record {
  token_digest = digest;
  payload_digest = payload_digest;
  max_attempts = 3;
  base_url = codes "https://relay.test/";
  isalnum = λ c. true;
  isspace = λ c. c == b' ';
  uuid_text = λ id. id ∷ [];
  storage = storage;
  signer = signer;
  head_object = λ key. none;
  authorization_url = λ state. ok state;
  connect = λ code. raise meta_provider_error;
  encrypt_token = λ token. ok token;
  jwt_encode = λ payload. [];
  jwt_settings = record { issuer = "relay"; audience = "api" };
  owner_of = λ username. none;
}

-- The post of the data is submitted and sent back, and a second one is created and approved.
abbrev operations : List Operation
operations =
    Operation.requests_approval 1 10 100 "ana" 7 (codes "link") 600 1000
    ∷ Operation.decides (codes "link") "CHANGES_REQUESTED" "Shorter" "Client" 1001 1002
    ∷ Operation.creates_post 1 10 "ana" "key-9" (post_payload "Second") 101 301
    ∷ Operation.approves_post 101 1 10 "ana"
    ∷ Operation.provisions "studio" "Studio" ("north:North" ∷ []) none 2 3 (λ n. 20 + n)
    ∷ []

perform_all-Extends_example : Extends start_db.audit (perform_all outside operations start_db).audit
perform_all-Extends_example = perform_all-Extends outside operations start_db

start_db-HasUniqueIds : HasUniqueIds start_db.posts
unfolding count
start_db-HasUniqueIds j = ground arith

perform_all-Reaches_example :
    HasUniqueIds (perform_all outside operations start_db).posts
    × ((j : ℕ) (p : Post)
        → find (by_id j) start_db.posts ≡ some p
        → (p' : Post) × (find (by_id j) (perform_all outside operations start_db).posts ≡ some p')
          × (p' ≡ record p { state = p'.state })
          × Reaches p.state p'.state)
perform_all-Reaches_example = perform_all-Reaches outside operations start_db start_db-HasUniqueIds

-- Every post is answered, and no container is ever finished.
abbrev stuck : Server
stuck trace (Request.post account edge fields token) =
    Reply.response 200 (some (record { id = some "1"; status_code = "" }))
stuck trace (Request.status creation_id token) =
    Reply.response 200 (some (record { id = none; status_code = "IN_PROGRESS" }))

abbrev stuck_trace : Trace
stuck_trace =
    (publish_images stuck "account" "token" "Hello" Channel.meta_instagram_business_account
      ("a" ∷ "b" ∷ []) []).1

publish_images-most_requests_example :
    (length stuck_trace ≤ 19)
    × (length stuck_trace ≤ 67)
    × ((◌≡◌ {A = ℕ} 2 0) ⊎ (10 < 2) → length stuck_trace ≡ 0)
publish_images-most_requests_example =
    publish_images-most_requests stuck "account" "token" "Hello"
      Channel.meta_instagram_business_account ("a" ∷ "b" ∷ [])
