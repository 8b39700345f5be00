-- ===== src/Tests.antt =====
-- One workspace with a brand, a member, a post with one image and a connection to a Facebook page, and
-- digests of texts and payloads: the data of the tests.
pub mod Delivering
pub mod Production
pub mod Provisioning
pub mod Requests
pub mod Approving
pub mod Uploads
pub mod Connecting
pub mod Reaching
pub mod Revoking
pub mod Handling
pub mod Discovering
pub mod Performing
pub mod Tokens
pub mod Viewing
use aleyacloud_relay.Base.{
  ℕ, ◌+◌, Bool, true, false, String, List, [], ◌∷◌, Option, none, some, length, codes,
}
use aleyacloud_relay.Models.Lifecycle.{LifecycleState}
use aleyacloud_relay.Models.Tenancy.{Tenant, Brand, Membership, MembershipRole}
use aleyacloud_relay.Models.Content.{Post, PostVariant, MediaAsset, UploadState}
use aleyacloud_relay.Models.Audit.{Value}
use aleyacloud_relay.Models.Social.{Provider, Channel, SocialAccount, ChannelConnection}
use aleyacloud_relay.Store.{Db}
use aleyacloud_relay.Posts.{Payload, PostPayload}
use aleyacloud_relay.Scheduling.{ScheduleRequest}

-- A digest of a token: how long it is.
abbrev pub digest : List ℕ → ℕ
digest = length

abbrev pub weight : Value → ℕ
weight (Value.text s) = length (codes s)
weight (Value.uuid id) = id
weight (Value.uuids ids) = length ids
weight (Value.number n) = n
weight (Value.moment t) = t

-- A digest of a payload: what it weighs.
abbrev pub payload_digest : Payload → ℕ
payload_digest [] = 0
payload_digest ((key, value) ∷ entries) = weight value + payload_digest entries

abbrev pub workspace : Tenant
workspace = record { id = 1; slug = "aleya"; name = "Aleya"; is_active = true }

abbrev pub brand : Brand
brand = record {
  id = 10;
  workspace = 1;
  slug = "cafe";
  name = "Cafe";
  timezone = "Europe/Paris";
  is_active = true;
}

abbrev pub member : Membership
member = record {
  id = 20;
  workspace = 1;
  subject = "ana";
  role = MembershipRole.manager;
  is_active = true;
}

abbrev pub post_in : LifecycleState → Post
post_in state = record {
  id = 100;
  tenant = 1;
  brand = 10;
  title = "";
  body = "Hello";
  state = state;
  created_by_subject = "ana";
  idempotency_key = "key-0";
  request_fingerprint = 7;
}

abbrev pub image_in : UploadState → MediaAsset
image_in state = record {
  id = 200;
  created_at = 3;
  tenant = 1;
  brand = 10;
  storage_key = codes "relay/a.png";
  content_type = "image/png";
  size_bytes = 5;
  checksum = [];
  upload_state = state;
}

abbrev pub variant : PostVariant
variant = record {
  id = 300;
  post = 100;
  body = "Hello";
  media_assets = 200 ∷ [];
  media_asset_order = 200 ∷ [];
  channel_hint = "";
}

abbrev pub account : SocialAccount
account = record {
  id = 500;
  tenant = 1;
  brand = 10;
  provider = Provider.meta;
  provider_account_id = "me";
  display_name = "Me";
}

abbrev pub connection : ChannelConnection
connection = record {
  id = 400;
  social_account = 500;
  channel = Channel.meta_facebook_page;
  provider_channel_id = "page";
  display_name = "Page";
  encrypted_access_token = "secret";
  token_expires_at = none;
  granted_scopes = [];
  is_active = true;
}

abbrev pub db_in : LifecycleState → UploadState → Db
db_in post_state upload_state = record {
  tenants = workspace ∷ [];
  brands = brand ∷ [];
  memberships = member ∷ [];
  posts = post_in post_state ∷ [];
  variants = variant ∷ [];
  assets = image_in upload_state ∷ [];
  approval_requests = [];
  comments = [];
  accounts = account ∷ [];
  connections = connection ∷ [];
  oauth_states = [];
  publications = [];
  attempts = [];
  audit = [];
}

abbrev pub start_db : Db
start_db = db_in LifecycleState.draft UploadState.ready

abbrev pub approved_db : Db
approved_db = db_in LifecycleState.approved UploadState.ready

abbrev pub schedule_request : ScheduleRequest
schedule_request = record {
  tenant = 1;
  brand = 10;
  subject = "ana";
  post_variant = variant;
  post = post_in LifecycleState.approved;
  channel_connection = connection;
  account = account;
  scheduled_for = 50;
  idempotency_key = "key-1";
}

abbrev pub post_payload : String → PostPayload
post_payload body = record {
  brand_id = 10;
  title = none;
  body = body;
  media_asset_ids = 200 ∷ 200 ∷ [];
}
