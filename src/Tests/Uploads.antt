-- ===== src/Tests/Uploads.antt =====
-- Runs of relay/content/services.py on the test data.
use aleyacloud_relay.Base.{
  ℕ, ◌≤◌, Bool, true, false, not, List, [], ◌∷◌, Option, none, some, map, ◌≡◌, refl, codes,
  is_empty, leb, length, find, select, any, elem, from_keys, get_all, All, ◌==◌,
}
use aleyacloud_relay.Models.Lifecycle.{LifecycleState}
use aleyacloud_relay.Models.Content.{MediaAsset, UploadState}
use aleyacloud_relay.Store.{Db}
use aleyacloud_relay.Storage.{Settings, Signer}
use aleyacloud_relay.Media.{
  max_post_images, asset_id, is_usable, ready_assets_for_post, ordered_media_assets,
}
use aleyacloud_relay.Media.Ready.{ready_assets_for_post-ok}
use aleyacloud_relay.Media.Order.{ids, ordered_media_assets-order}
use aleyacloud_relay.Media.Upload.{ObjectMetadata, is_safe, safe_filename, confirm_media_upload}
use aleyacloud_relay.Media.Confirm.{
  ConfirmOutcome, is_failed, confirm_media_upload-outcome, confirm_media_upload-failed,
}
use aleyacloud_relay.Media.Filenames.{safe_filename-safe}
use aleyacloud_relay.Media.Intent.{IntentOutcome, create_media_upload_intent-outcome}
use aleyacloud_relay.Tests.{image_in, variant, db_in, start_db}

ready_assets_for_post-ok_example :
    (map asset_id (image_in UploadState.ready ∷ []) ≡ from_keys (200 ∷ 200 ∷ []))
    × All
        (λ a. is_usable 1 10 (from_keys (200 ∷ 200 ∷ [])) a ≡ true)
        (image_in UploadState.ready ∷ [])
    × (length (from_keys (200 ∷ 200 ∷ [])) ≤ max_post_images)
    × (start_db ≡ start_db)
    × ((i : ℕ)
        → elem i (from_keys (200 ∷ 200 ∷ [])) ≡ true
        → elem i (map asset_id start_db.assets) ≡ true)
unfolding ready_assets_for_post from_keys select elem get_all find
ready_assets_for_post-ok_example =
    ready_assets_for_post-ok 1 10 (200 ∷ 200 ∷ []) start_db start_db
      (image_in UploadState.ready ∷ []) refl

known_image : (i : ℕ) → elem i (200 ∷ []) ≡ true → elem i (ids start_db.assets) ≡ true
known_image i h = h

ordered_media_assets-order_example : ids (ordered_media_assets variant start_db) ≡ 200 ∷ []
unfolding find
ordered_media_assets-order_example =
    ordered_media_assets-order variant variant start_db refl refl known_image

-- The upload waits, and the object store has another type for its key.
abbrev pending_db : Db
pending_db = db_in LifecycleState.draft UploadState.pending

abbrev wrong_type : List ℕ → Option ObjectMetadata
wrong_type key =
    some (record { content_length = some 5; content_type = codes "image/gif"; sha256 = [] })

abbrev right_type : List ℕ → Option ObjectMetadata
right_type key =
    some (record { content_length = some 5; content_type = codes "IMAGE/PNG; q=1"; sha256 = [] })

confirm_media_upload-outcome_example : ConfirmOutcome right_type 200 1 "ana" pending_db
confirm_media_upload-outcome_example =
    confirm_media_upload-outcome right_type 200 1 "ana" pending_db

confirm_media_upload-failed_example :
    find
      (λ (a : MediaAsset). is_failed a.upload_state)
      (confirm_media_upload wrong_type 200 1 "ana" pending_db).1.assets
    ≡ none
unfolding find
confirm_media_upload-failed_example =
    confirm_media_upload-failed wrong_type 200 1 "ana" pending_db refl

-- The ASCII letters, and the space.
abbrev is_letter : ℕ → Bool
is_letter c = leb b'a' c

abbrev is_space : ℕ → Bool
is_space c = c == b' '

letters : (c : ℕ) → leb b'a' c ≡ true → leb c b'z' ≡ true → is_letter c ≡ true
letters c low high = low

safe_filename-safe_example :
    (any
        (λ c. not (is_safe is_letter c))
        (safe_filename is_letter is_space (codes "a/../my photo.png"))
      ≡ false)
    × (is_empty (safe_filename is_letter is_space (codes "a/../my photo.png")) ≡ false)
    × (leb (length (safe_filename is_letter is_space (codes "a/../my photo.png"))) 120 ≡ true)
safe_filename-safe_example =
    safe_filename-safe is_letter is_space (codes "a/../my photo.png") letters

abbrev settings : Settings
settings = record {
  endpoint_url = "https://s3";
  region = "eu";
  application_key_id = "id";
  application_key = "key";
  bucket = "relay";
  media_public_base_url = [];
  media_url_ttl_seconds = 900;
}

abbrev signer : Signer
signer = record {
  get_object = λ client bucket key ttl. key;
  put_object = λ client bucket key content_type sha256 ttl. key;
}

abbrev id_text : ℕ → List ℕ
id_text id = id ∷ []

create_media_upload_intent-outcome_example :
    IntentOutcome settings signer is_letter is_space id_text 1 10 "ana"
      (codes "a.png")
      "image/png"
      5
      []
      201
      70
      start_db
create_media_upload_intent-outcome_example =
    create_media_upload_intent-outcome settings signer is_letter is_space id_text 1 10 "ana"
      (codes "a.png") "image/png" 5 [] 201 70 start_db
