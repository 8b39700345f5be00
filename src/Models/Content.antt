-- ===== src/Models/Content.antt =====
-- relay/content/models.py: posts, their variants and their images. Foreign keys are the ids of the
-- rows that they point to.
use aleyacloud_relay.Base.{ℕ, Bool, true, false, String, List}
use aleyacloud_relay.Models.Lifecycle.{LifecycleState}

pub record Post : Type 0 where
  pub id : ℕ
  pub tenant : ℕ
  pub brand : ℕ
  pub title : String
  pub body : String
  pub state : LifecycleState
  pub created_by_subject : String
  pub idempotency_key : String
  pub request_fingerprint : ℕ

pub data UploadState : Type 0 where
  pending ready failed : UploadState

abbrev pub is_ready : UploadState → Bool
is_ready UploadState.ready = true
is_ready _ = false

-- Texts whose characters the services read are lists of code points.
pub record MediaAsset : Type 0 where
  pub id : ℕ
  pub created_at : ℕ
  pub tenant : ℕ
  pub brand : ℕ
  pub storage_key : List ℕ
  pub content_type : String
  pub size_bytes : ℕ
  pub checksum : List ℕ
  pub upload_state : UploadState

-- `media_assets` is the many-to-many relation, `media_asset_order` the slide order beside it.
pub record PostVariant : Type 0 where
  pub id : ℕ
  pub post : ℕ
  pub body : String
  pub media_assets : List ℕ
  pub media_asset_order : List ℕ
  pub channel_hint : String
