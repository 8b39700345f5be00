-- ===== src/Views/Uploading.antt =====
-- relay/api/views.py: the handlers that upload an image. `head_object` is the object store, and
-- `isalnum`, `isspace` and `uuid_text` are Python's.
use aleyacloud_relay.Base.{
  ℕ, Bool, not, ◌&&◌, ◌||◌, String, List, [], ◌∷◌, Option, none, some, ltb, leb, ◌==◌,
  if◌then◌else◌, find, any, elem, length, codes, is_empty, lower,
}
use aleyacloud_relay.Models.Content.{MediaAsset}
use aleyacloud_relay.Store.{Db, Error, invalid_media_asset, media_upload_unavailable}
use aleyacloud_relay.Access.{RelayPrincipal, Requirement, has_permission, get_tenant, get_brand}
use aleyacloud_relay.Storage.{Settings, Signer}
use aleyacloud_relay.Media.{max_image_bytes}
use aleyacloud_relay.Media.Upload.{
  is_hex, is_supported, MediaUploadIntent, ObjectMetadata, create_media_upload_intent,
  confirm_media_upload,
}
use aleyacloud_relay.Views.{Answer, reply, refused, crashed, editors, answer, ◌>>=◌}
use aleyacloud_relay.Views.Data.{Timestamps, MediaAssetData, media_asset_data}

abbrev pub media_write : Requirement
media_write = record { required_scope = some "media:write"; required_roles = some editors }

-- The data of MediaUploadIntentSerializer, trimmed; a checksum that is not given is empty, as is the
-- default of the service.
pub record UploadBody : Type 0 where
  pub brand_id : ℕ
  pub filename : List ℕ
  pub content_type : String
  pub size_bytes : ℕ
  pub checksum : List ℕ

-- What the serializer refuses.
unfoldable pub bad_upload : UploadBody → Bool
bad_upload body =
    (is_empty body.filename || ltb 255 (length body.filename))
    || (not (is_supported body.content_type)
        || (not (leb 1 body.size_bytes && leb body.size_bytes max_image_bytes)
            || (not (is_empty body.checksum)
                && (not (length body.checksum == 64)
                    || any (λ c. not (is_hex c)) (lower body.checksum)))))

pub record UploadReply : Type 0 where
  pub asset : MediaAssetData
  pub upload_url : List ℕ
  pub upload_headers : List (String × List ℕ)

abbrev pub upload_headers : MediaAsset → List (String × List ℕ)
upload_headers a =
    ("Content-Type", codes a.content_type)
    ∷ (if is_empty a.checksum then [] else ("x-amz-meta-sha256", a.checksum) ∷ [])

abbrev pub upload_errors : Error → Option ℕ
upload_errors invalid_media_asset = some 400
upload_errors media_upload_unavailable = some 503
upload_errors _ = none

-- The body of a reply.
abbrev pub map_answer : {A B : Type 0} → (A → B) → Answer A × Db → Answer B × Db
map_answer f (reply s a, db) = (reply s (f a), db)
map_answer f (refused s, db) = (refused s, db)
map_answer f (crashed e, db) = (crashed e, db)

module _ (times : Timestamps) where
  abbrev pub upload_reply : MediaUploadIntent → UploadReply
  upload_reply intent = record {
    asset = media_asset_data times intent.asset;
    upload_url = intent.upload_url;
    upload_headers = upload_headers intent.asset;
  }

  -- `MediaUploadIntentView.post`
  unfoldable pub create_upload_intent :
      (isalnum isspace : ℕ → Bool) (uuid_text : ℕ → List ℕ)
      → Settings
      → Signer
      → RelayPrincipal
      → UploadBody
      → (asset_id now : ℕ) → Db
      → Answer UploadReply × Db
  create_upload_intent isalnum isspace uuid_text settings signer p body asset_id now db =
      if not (has_permission media_write (some p) db)
      then (refused 403, db)
      else if bad_upload body
      then (refused 400, db)
      else elim (get_brand p body.brand_id db) [
        | none ↦ (refused 404, db)
        | some brand ↦ map_answer upload_reply (
            answer upload_errors (λ r. 201)
              (create_media_upload_intent isalnum isspace uuid_text settings signer p.workspace_id
                brand.id p.subject body.filename body.content_type body.size_bytes body.checksum
                asset_id now db))
      ]

  -- `MediaUploadConfirmView.post`
  unfoldable pub confirm_upload :
      (head_object : List ℕ → Option ObjectMetadata)
      → RelayPrincipal
      → (media_asset_id : ℕ) → Db
      → Answer MediaAssetData × Db
  confirm_upload head_object p media_asset_id db =
      if not (has_permission media_write (some p) db)
      then (refused 403, db)
      else elim (get_tenant p db >>= λ tenant.
          find
            (λ (a : MediaAsset).
              a.id == media_asset_id && (a.tenant == tenant.id && elem a.brand p.brand_ids))
            db.assets) [
              | none ↦ (refused 404, db)
              | some a ↦ map_answer (media_asset_data times) (
                  answer upload_errors (λ r. 200)
                    (confirm_media_upload head_object a.id p.workspace_id p.subject db))
            ]
