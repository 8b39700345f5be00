-- ===== src/Media/Upload.antt =====
-- relay/content/services.py: `create_media_upload_intent` and `confirm_media_upload`.
use aleyacloud_relay.Base.{
  ℕ, Bool, true, false, not, ◌&&◌, ◌||◌, String, str_eq, List, [], ◌∷◌, ◌++◌, Option, none, some,
  ltb, leb, ◌==◌, if◌then◌else◌, find, select, any, exists, save, length, codes, is_empty,
  same_text, lower, before, split_slash, strip,
}
use aleyacloud_relay.Models.Content.{MediaAsset, UploadState, is_ready}
use aleyacloud_relay.Models.Audit.{Value, AuditLog}
use aleyacloud_relay.Store.{
  Db, Result, does_not_exist, invalid_media_asset, media_upload_unavailable, Tx, pure, ◌>>=◌, ◌>>◌,
  raise_if, get, write, insert, atomic, log,
}
use aleyacloud_relay.Storage.{Settings, Signer, presigned_upload_url}
use aleyacloud_relay.Media.{max_image_bytes}

-- `PurePath(filename).name`: the last part of the path that is neither empty nor a dot.
unfoldable pub is_part : List ℕ → Bool
is_part part = not (is_empty part || same_text part (codes "."))

unfoldable pub last_part : List (List ℕ) → List ℕ
last_part [] = []
last_part (part ∷ parts) =
    let rest = last_part parts in if is_empty rest && is_part part then part else rest

unfoldable pub take_text : ℕ → List ℕ → List ℕ
take_text ℕ.zero s = []
take_text (ℕ.suc n) [] = []
take_text (ℕ.suc n) (c ∷ s) = c ∷ take_text n s

abbrev pub image_name : List ℕ
image_name = codes "image"

-- `isalnum` and `isspace` are Python's tests of one character.
unfoldable pub is_safe : (isalnum : ℕ → Bool) → ℕ → Bool
is_safe isalnum c = isalnum c || (c == b'.' || (c == b'-' || c == b'_'))

unfoldable pub safe_filename : (isalnum isspace : ℕ → Bool) → List ℕ → List ℕ
safe_filename isalnum isspace filename =
    let name : List ℕ = strip isspace (last_part (split_slash filename)) in
    let kept : List ℕ = take_text 120 (select (is_safe isalnum) name) in
    if is_empty name then image_name else if is_empty kept then image_name else kept

-- `char not in "0123456789abcdef"`
abbrev pub is_hex : ℕ → Bool
is_hex c = leb b'0' c && leb c b'9' || leb b'a' c && leb c b'f'

unfoldable pub bad_checksum : List ℕ → Bool
bad_checksum checksum =
    not (is_empty checksum)
    && (not (length checksum == 64) || any (λ c. not (is_hex c)) (lower checksum))

abbrev pub is_supported : String → Bool
is_supported content_type = str_eq content_type "image/jpeg" || str_eq content_type "image/png"

pub record MediaUploadIntent : Type 0 where
  pub asset : MediaAsset
  pub upload_url : List ℕ

-- `uuid_text` is `str` of a UUID.
unfoldable pub storage_key : (uuid_text : ℕ → List ℕ) (tenant brand asset : ℕ) → List ℕ → List ℕ
storage_key uuid_text tenant brand asset name =
    codes "relay/workspaces/"
    ++ (uuid_text tenant
        ++ (codes "/brands/"
            ++ (uuid_text brand ++ (codes "/assets/" ++ (uuid_text asset ++ (codes "/" ++ name))))))

abbrev pub asset_clash : MediaAsset → Db → Bool
asset_clash asset db =
    exists (λ (a : MediaAsset). a.id == asset.id || same_text a.storage_key asset.storage_key)
      db.assets

abbrev pub asset_log : (tenant brand : ℕ) (subject event : String) → MediaAsset → AuditLog
asset_log tenant brand subject event asset = record {
  tenant = tenant;
  brand = some brand;
  actor_type = "service";
  actor_id = Value.text subject;
  event_type = event;
  subject_type = "media_asset";
  subject_id = asset.id;
  metadata =
      ("content_type", Value.text asset.content_type)
      ∷ ("size_bytes", Value.number asset.size_bytes)
      ∷ [];
}

abbrev pub save_asset : MediaAsset → Db → Db
save_asset a db = record db { assets = save (λ (x : MediaAsset). x.id) a db.assets }

abbrev pub delete_asset : ℕ → Db → Db
delete_asset id db = record db { assets = select (λ (x : MediaAsset). not (x.id == id)) db.assets }

-- The row of a new upload. `now` is its `created_at`.
unfoldable pub pending_asset :
    (isalnum isspace : ℕ → Bool) (uuid_text : ℕ → List ℕ) (tenant brand : ℕ) (filename : List ℕ)
    (content_type : String) (size_bytes : ℕ) (checksum : List ℕ) (asset_id now : ℕ)
    → MediaAsset
pending_asset isalnum isspace uuid_text tenant brand filename content_type size checksum asset_id
      now =
    record {
      id = asset_id;
      created_at = now;
      tenant = tenant;
      brand = brand;
      storage_key =
          storage_key uuid_text tenant brand asset_id (safe_filename isalnum isspace filename);
      content_type = content_type;
      size_bytes = size;
      checksum = lower checksum;
      upload_state = UploadState.pending;
    }

-- The guards and what follows them, on the row that is to be stored.
unfoldable pub issue_intent :
    Settings
    → Signer
    → MediaAsset
    → (raw_checksum : List ℕ) (subject : String) → Tx MediaUploadIntent
issue_intent settings signer asset raw_checksum subject = do
  raise_if
      (not (is_supported asset.content_type)
        || not (ltb 0 asset.size_bytes && leb asset.size_bytes max_image_bytes))
      invalid_media_asset
  raise_if (bad_checksum raw_checksum) invalid_media_asset
  insert (asset_clash asset) (λ db. record db { assets = asset ∷ db.assets })
  elim (presigned_upload_url settings signer asset.storage_key asset.content_type asset.checksum) [
    | none ↦
        write (delete_asset asset.id)
        >> raise_if true media_upload_unavailable
        >> pure (record { asset = asset; upload_url = [] })
    | some url ↦ (do
      log (asset_log asset.tenant asset.brand subject "media.upload_intent_created" asset)
      pure (record { asset = asset; upload_url = url }))
  ]

unfoldable pub create_media_upload_intent :
    (isalnum isspace : ℕ → Bool) (uuid_text : ℕ → List ℕ)
    → Settings
    → Signer
    → (tenant brand : ℕ) (subject : String) (filename : List ℕ) (content_type : String)
      (size_bytes : ℕ) (checksum : List ℕ) (asset_id now : ℕ)
    → Db
    → Result MediaUploadIntent × Db
create_media_upload_intent isalnum isspace uuid_text settings signer tenant brand subject filename
      content_type size checksum asset_id now =
    atomic (
      issue_intent settings signer
        (pending_asset isalnum isspace uuid_text tenant brand filename content_type size checksum
          asset_id now)
        checksum subject)

-- What `head_object` reports.
pub record ObjectMetadata : Type 0 where
  pub content_length : Option ℕ
  pub content_type : List ℕ
  pub sha256 : List ℕ

abbrev pub same_size : Option ℕ → ℕ → Bool
same_size none n = false
same_size (some m) n = m == n

-- `remote_size != asset.size_bytes or remote_type != asset.content_type`
unfoldable pub mismatches : MediaAsset → ObjectMetadata → Bool
mismatches asset remote =
    not (same_size remote.content_length asset.size_bytes)
    || not (same_text (lower (before b';' remote.content_type)) (codes asset.content_type))

-- `asset.checksum` and the remote one are given, and differ.
unfoldable pub wrong_checksum : MediaAsset → ObjectMetadata → Bool
wrong_checksum asset remote =
    not (is_empty asset.checksum)
    && (not (is_empty (lower remote.sha256))
        && not (same_text (lower remote.sha256) asset.checksum))

abbrev pub with_state : UploadState → MediaAsset → MediaAsset
with_state state a = record a { upload_state = state }

-- Sets FAILED, saves, and raises where the test holds.
abbrev pub fail_if : Bool → MediaAsset → Tx (Unit {0})
fail_if test asset =
    if test
    then (write (save_asset (with_state UploadState.failed asset))
        >> raise_if true invalid_media_asset)
    else pure tt

abbrev pub is_pending_upload : UploadState → Bool
is_pending_upload UploadState.pending = true
is_pending_upload _ = false

-- The look-up, the guard and the checks; `head` is the answer of the object store to the key, where
-- `none` is an exception of it.
unfoldable pub confirm_pending :
    MediaAsset → (tenant : ℕ) (subject : String) → Option ObjectMetadata → Tx MediaAsset
confirm_pending asset tenant subject head = do
  raise_if (not (is_pending_upload asset.upload_state)) invalid_media_asset
  remote ← get (λ _. head) media_upload_unavailable
  fail_if (mismatches asset remote) asset
  fail_if (wrong_checksum asset remote) asset
  write (save_asset (with_state UploadState.ready asset))
  log (asset_log tenant asset.brand subject "media.upload_confirmed" asset)
  pure (with_state UploadState.ready asset)

unfoldable pub confirm_media_upload :
    (head_object : List ℕ → Option ObjectMetadata) (asset tenant : ℕ) (subject : String)
    → Db
    → Result MediaAsset × Db
confirm_media_upload head_object asset_id tenant subject = atomic (
    get (λ db. find (λ (a : MediaAsset). a.id == asset_id && a.tenant == tenant) db.assets)
      does_not_exist
    >>= λ asset.
        if is_ready asset.upload_state
        then pure asset
        else confirm_pending asset tenant subject (head_object asset.storage_key))
