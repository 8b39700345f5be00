-- ===== src/Tests/Production.antt =====
-- A run of relay/publications/services.py with the clients of production, on an Instagram account.
use aleyacloud_relay.Base.{
  true, String, [], ◌∷◌, some, ◌≡◌, refl, find, exists, save, count, select, elem,
}
use aleyacloud_relay.Models.Lifecycle.{LifecycleState}
use aleyacloud_relay.Models.Social.{Channel}
use aleyacloud_relay.Models.Publications.{Publication}
use aleyacloud_relay.Store.{Db, ok}
use aleyacloud_relay.Scheduling.{new_publication}
use aleyacloud_relay.Storage.{b2_missing, b2_client, presigned_download_url, publishable_image_url}
use aleyacloud_relay.Crypto.{Fernet, cipher, decrypt_token}
use aleyacloud_relay.Discovery.{get_meta_settings}
use aleyacloud_relay.Meta.{
  Reply, Server, publish_images, publish_on, publish_container, post_to, id_of, read_post,
  read_status, on_status, wait_for_instagram_container, wait_rounds,
}
use aleyacloud_relay.Media.{
  variant_assets, in_author_order, pick, sort_assets, insert_asset, ordered_media_assets,
}
use aleyacloud_relay.Delivery.{
  PublishResult, Run, publish_due_publication, claim, deliver, urls, after_claim, settle,
  finish_success,
}
use aleyacloud_relay.Delivery.Outcomes.{by_id}
use aleyacloud_relay.Delivery.Live.{Production, url_of, delivered, publish_connection, live}
use aleyacloud_relay.Delivery.Live.Sent.{Sent, publish_due_publication-Sent}
use aleyacloud_relay.Tests.{connection, approved_db, schedule_request}

-- A server that makes containers, reports them as FINISHED, and publishes them.
abbrev ready_server : Server
ready_server t request =
    Reply.response 200 (some (record { id = some "container"; status_code = "FINISHED" }))

abbrev open_fernet : Fernet
open_fernet = record {
  is_key = λ key. true;
  is_utf8 = λ token. true;
  encrypt = λ key token. token;
  decrypt = λ key ciphertext. some ciphertext;
}

abbrev production : Production
production = record {
  meta = record {
    app_id = "app";
    app_secret = "key";
    redirect_uri = "https://relay.test/callback";
    graph_version = "v1";
  };
  server = ready_server;
  fernet = open_fernet;
  key = "key";
  storage = record {
    endpoint_url = "https://b2.test";
    region = "eu";
    application_key_id = "id";
    application_key = "key";
    bucket = "relay";
    media_public_base_url = [];
    media_url_ttl_seconds = 900;
  };
  signer = record {
    get_object = λ client bucket key ttl. key;
    put_object = λ client bucket key type sum ttl. key;
  };
  quote = λ url. url;
  text = λ url. "https://b2.test/a.png";
  describe = λ e. "";
}

abbrev due_publication : Publication
due_publication = new_publication 750 schedule_request 700

abbrev due_db : Db
due_db = record approved_db {
  connections = record connection { channel = Channel.meta_instagram_business_account } ∷ [];
  publications = due_publication ∷ [];
}

abbrev quiet_run : Run
quiet_run = record { now = 60; new_id = 800; completed = 61; later = 62; others = λ db. db }

sent :
    (publish_due_publication 5 (live production) quiet_run 700 due_db).0
    ≡ ok PublishResult.published
unfolding publish_due_publication claim after_claim deliver settle finish_success live find exists
    count save select elem ordered_media_assets variant_assets in_author_order pick sort_assets
    insert_asset get_meta_settings decrypt_token cipher urls url_of publishable_image_url
    presigned_download_url b2_client b2_missing delivered publish_connection publish_images
    publish_on publish_container post_to id_of read_post read_status on_status
    wait_for_instagram_container wait_rounds
sent = refl

publish_due_publication-Sent_example :
    (id : String) × Sent production due_db due_publication id
    × (find
          (by_id 700)
          (publish_due_publication 5 (live production) quiet_run 700 due_db).1.publications
        ≡ some (record due_publication {
          state = LifecycleState.published;
          provider_publication_id = id;
          last_error_code = "";
          last_error_message = "";
        }))
unfolding find exists count
publish_due_publication-Sent_example =
    publish_due_publication-Sent production 5 quiet_run due_db due_publication refl refl refl
      (λ x. refl) (λ x. refl) sent
