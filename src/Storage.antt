-- ===== src/Storage.antt =====
-- relay/content/storage.py and relay/content/delivery.py: signed URLs of the private object store.
-- What boto3 signs and `urllib.parse.quote` are arguments.
use aleyacloud_relay.Base.{
  ℕ, Bool, ◌||◌, String, str_eq, List, ◌++◌, Option, none, some, if◌then◌else◌, codes, is_empty,
  rstrip_slash,
}
use aleyacloud_relay.Models.Content.{MediaAsset}

-- The B2_* settings, RELAY_MEDIA_PUBLIC_BASE_URL and RELAY_MEDIA_URL_TTL_SECONDS.
pub record Settings : Type 0 where
  pub endpoint_url : String
  pub region : String
  pub application_key_id : String
  pub application_key : String
  pub bucket : String
  pub media_public_base_url : List ℕ
  pub media_url_ttl_seconds : ℕ

-- Whether a setting of `b2_client` is missing.
unfoldable pub b2_missing : Settings → Bool
b2_missing s =
    str_eq s.endpoint_url ""
    || (str_eq s.region ""
        || (str_eq s.application_key_id "" || (str_eq s.application_key "" || str_eq s.bucket "")))

-- The options of `boto3.client`.
pub record Client : Type 0 where
  pub service : String
  pub endpoint_url : String
  pub region_name : String
  pub aws_access_key_id : String
  pub aws_secret_access_key : String
  pub signature_version : String

-- `none` is ObjectStorageNotConfigured.
unfoldable pub b2_client : Settings → Option Client
b2_client s =
    if b2_missing s
    then none
    else some (record {
      service = "s3";
      endpoint_url = s.endpoint_url;
      region_name = s.region;
      aws_access_key_id = s.application_key_id;
      aws_secret_access_key = s.application_key;
      signature_version = "s3v4";
    })

-- `generate_presigned_url` of a client, for each of the two calls.
pub record Signer : Type 0 where
  pub get_object : Client → (bucket : String) (key : List ℕ) (expires_in : ℕ) → List ℕ
  pub put_object :
      Client
      → (bucket : String) (key : List ℕ) (content_type : String) (sha256 : Option (List ℕ))
        (expires_in : ℕ)
      → List ℕ

unfoldable pub presigned_download_url : Settings → Signer → List ℕ → Option (List ℕ)
presigned_download_url s signer key = elim (b2_client s) [
  | none ↦ none
  | some client ↦ some (signer.get_object client s.bucket key s.media_url_ttl_seconds)
]

unfoldable pub presigned_upload_url : Settings → Signer → List ℕ → String → List ℕ → Option (List ℕ)
presigned_upload_url s signer key content_type checksum = elim (b2_client s) [
  | none ↦ none
  | some client ↦ some (
      signer.put_object client s.bucket key content_type
        (if is_empty checksum then none else some checksum) s.media_url_ttl_seconds)
]

-- `none` is MediaDeliveryUnavailable.
unfoldable pub publishable_image_url :
    Settings → Signer → (quote : List ℕ → List ℕ) → MediaAsset → Option (List ℕ)
publishable_image_url s signer quote asset =
    elim (presigned_download_url s signer asset.storage_key) [
      | some url ↦ some url
      | none ↦
          let base : List ℕ = rstrip_slash s.media_public_base_url in
          if is_empty base then none else some (base ++ (codes "/" ++ quote asset.storage_key))
    ]
