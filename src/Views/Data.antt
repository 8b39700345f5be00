-- ===== src/Views/Data.antt =====
-- relay/api/serializers.py: what the views answer with. The rows leave out when they were created and
-- updated where no service reads it; here both are functions of a row's id.
use aleyacloud_relay.Base.{
  ℕ, Bool, ◌==◌, leb, String, List, [], ◌∷◌, map, Option, none, some, select, sort_by,
}
use aleyacloud_relay.Models.Lifecycle.{LifecycleState}
use aleyacloud_relay.Models.Content.{Post, PostVariant, MediaAsset, UploadState}
use aleyacloud_relay.Models.Social.{Provider, Channel, SocialAccount, ChannelConnection}
use aleyacloud_relay.Models.Approvals.{ApprovalDecision, ApprovalRequest, ApprovalComment}
use aleyacloud_relay.Models.Publications.{Publication}
use aleyacloud_relay.Store.{Db}
use aleyacloud_relay.Media.{ordered_media_assets}

pub record Timestamps : Type 0 where
  pub created_at : ℕ → ℕ
  pub updated_at : ℕ → ℕ

pub record MediaAssetData : Type 0 where
  pub id : ℕ
  pub brand_id : ℕ
  pub content_type : String
  pub size_bytes : ℕ
  pub checksum : List ℕ
  pub upload_state : UploadState
  pub created_at : ℕ
  pub updated_at : ℕ

pub record ChannelConnectionData : Type 0 where
  pub id : ℕ
  pub brand_id : ℕ
  pub provider : Provider
  pub channel : Channel
  pub provider_channel_id : String
  pub display_name : String
  pub token_expires_at : Option ℕ
  pub granted_scopes : List String
  pub is_active : Bool
  pub created_at : ℕ
  pub updated_at : ℕ

pub record PostData : Type 0 where
  pub id : ℕ
  pub title : String
  pub body : String
  pub state : LifecycleState
  pub default_variant_id : Option ℕ
  pub media_asset_ids : List ℕ
  pub created_at : ℕ
  pub updated_at : ℕ

pub record PublicationData : Type 0 where
  pub id : ℕ
  pub post_variant_id : ℕ
  pub channel_connection_id : ℕ
  pub scheduled_for : ℕ
  pub state : LifecycleState
  pub provider_publication_id : String
  pub last_error_code : String
  pub last_error_message : String
  pub created_at : ℕ
  pub updated_at : ℕ

pub record ApprovalCommentData : Type 0 where
  pub author_label : String
  pub body : String

pub record ApprovalRequestData : Type 0 where
  pub id : ℕ
  pub post_id : ℕ
  pub expires_at : ℕ
  pub decision : ApprovalDecision
  pub decided_at : Option ℕ
  pub comments : List ApprovalCommentData

abbrev pub comment_data : ApprovalComment → ApprovalCommentData
comment_data c = record { author_label = c.author_label; body = c.body }

-- `ApprovalRequestSerializer`
unfoldable pub approval_data : Db → ApprovalRequest → ApprovalRequestData
approval_data db r = record {
  id = r.id;
  post_id = r.post;
  expires_at = r.expires_at;
  decision = r.decision;
  decided_at = r.decided_at;
  comments =
      map comment_data (select (λ (c : ApprovalComment). c.approval_request == r.id) db.comments);
}

abbrev pub first : {A : Type 0} → List A → Option A
first [] = none
first (x ∷ xs) = some x

module _ (times : Timestamps) where
  -- `MediaAssetSerializer`
  unfoldable pub media_asset_data : MediaAsset → MediaAssetData
  media_asset_data a = record {
    id = a.id;
    brand_id = a.brand;
    content_type = a.content_type;
    size_bytes = a.size_bytes;
    checksum = a.checksum;
    upload_state = a.upload_state;
    created_at = a.created_at;
    updated_at = times.updated_at a.id;
  }

  -- `ChannelConnectionSerializer`
  unfoldable pub connection_data : ChannelConnection × SocialAccount → ChannelConnectionData
  connection_data (c, a) = record {
    id = c.id;
    brand_id = a.brand;
    provider = a.provider;
    channel = c.channel;
    provider_channel_id = c.provider_channel_id;
    display_name = c.display_name;
    token_expires_at = c.token_expires_at;
    granted_scopes = c.granted_scopes;
    is_active = c.is_active;
    created_at = times.created_at c.id;
    updated_at = times.updated_at c.id;
  }

  -- `PublicationSerializer`
  unfoldable pub publication_data : Publication → PublicationData
  publication_data p = record {
    id = p.id;
    post_variant_id = p.post_variant;
    channel_connection_id = p.channel_connection;
    scheduled_for = p.scheduled_for;
    state = p.state;
    provider_publication_id = p.provider_publication_id;
    last_error_code = p.last_error_code;
    last_error_message = p.last_error_message;
    created_at = times.created_at p.id;
    updated_at = times.updated_at p.id;
  }

  abbrev older : PostVariant → PostVariant → Bool
  older v w = leb (times.created_at v.id) (times.created_at w.id)

  -- `post.variants.order_by("created_at").first()`
  unfoldable pub default_variant : Db → Post → Option PostVariant
  default_variant db p =
      first (sort_by older (select (λ (v : PostVariant). v.post == p.id) db.variants))

  abbrev variant_id : Option PostVariant → Option ℕ
  variant_id none = none
  variant_id (some v) = some v.id

  abbrev slide_ids : Db → Option PostVariant → List ℕ
  slide_ids db none = []
  slide_ids db (some v) = map (λ (a : MediaAsset). a.id) (ordered_media_assets v db)

  -- `PostSerializer`
  unfoldable pub post_data : Db → Post → PostData
  post_data db p = record {
    id = p.id;
    title = p.title;
    body = p.body;
    state = p.state;
    default_variant_id = variant_id (default_variant db p);
    media_asset_ids = slide_ids db (default_variant db p);
    created_at = times.created_at p.id;
    updated_at = times.updated_at p.id;
  }
