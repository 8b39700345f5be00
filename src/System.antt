-- ===== src/System.antt =====
-- The services together: every operation on the database that a request, a worker or a command can
-- start, as steps from one database to the next. What the operations take from outside is one record.
pub mod Trail
pub mod Frames
pub mod Edits
pub mod Moves
use aleyacloud_relay.Base.{ℕ, ℤ, Bool, String, List, [], ◌∷◌, Option, none, some}
use aleyacloud_relay.Models.Audit.{AuditLog}
use aleyacloud_relay.Store.{Db, Result}
use aleyacloud_relay.Storage.{Settings, Signer}
use aleyacloud_relay.Posts.{Payload, PostPayload, create_post_draft, approve_post}
use aleyacloud_relay.Approvals.{request_approval, decide_approval, revoke_approval}
use aleyacloud_relay.Scheduling.{ScheduleRequest, schedule_publication}
use aleyacloud_relay.Media.Upload.{ObjectMetadata, create_media_upload_intent, confirm_media_upload}
use aleyacloud_relay.Oauth.{MetaToken, MetaIdentity, start_meta_oauth, complete_meta_oauth}
use aleyacloud_relay.Delivery.{Delivered, Run, claim, settle}
use aleyacloud_relay.Commands.{revoke_promoted}
use aleyacloud_relay.Commands.Issue.{Purpose, TokenPayload, JwtSettings, issue_token}
use aleyacloud_relay.Commands.Provision.{provision}

-- The digests, the settings, Python's character tests, the object store, Meta, the cipher, the token
-- encoder and Django's users.
pub record Outside : Type 0 where
  pub token_digest : List ℕ → ℕ
  pub payload_digest : Payload → ℕ
  pub max_attempts : ℕ
  pub base_url : List ℕ
  pub isalnum : ℕ → Bool
  pub isspace : ℕ → Bool
  pub uuid_text : ℕ → List ℕ
  pub storage : Settings
  pub signer : Signer
  pub head_object : List ℕ → Option ObjectMetadata
  pub authorization_url : List ℕ → Result (List ℕ)
  pub connect : List ℕ → Result (MetaToken × MetaIdentity)
  pub encrypt_token : String → Result String
  pub jwt_encode : TokenPayload → List ℕ
  pub jwt_settings : JwtSettings
  pub owner_of : String → Option String

pub data Operation : Type 0 where
  creates_post :
      (tenant brand : ℕ) (subject key : String) → PostPayload → (post_id variant_id : ℕ) → Operation
  approves_post : (post tenant brand : ℕ) (subject : String) → Operation
  requests_approval :
      (tenant brand post : ℕ) (subject : String) (days : ℕ) (token : List ℕ) (request_id now : ℕ)
      → Operation
  decides :
      (token : List ℕ) (decision comment author_label : String) (checked decided : ℕ) → Operation
  revokes : (request tenant : ℕ) (subject : String) (now : ℕ) → Operation
  schedules : ScheduleRequest → (publication_id : ℕ) → Operation
  intends_upload :
      (tenant brand : ℕ) (subject : String) (filename : List ℕ) (content_type : String)
      (size_bytes : ℕ) (checksum : List ℕ) (asset_id now : ℕ)
      → Operation
  confirms_upload : (asset tenant : ℕ) (subject : String) → Operation
  starts_oauth :
      (tenant brand : ℕ) (subject : String) (raw_state : List ℕ) (state_id now : ℕ) → Operation
  completes_oauth :
      (code raw_state : List ℕ) (checked used account_id : ℕ) (new_ids : ℕ → ℕ) → Operation
  claims : (publication now attempt_id : ℕ) → Operation
  settles : Run → (publication attempt : ℕ) → Delivered String → Operation
  revokes_promoted : (workspace_slug brand_slug : String) (apply : Bool) → Operation
  issues_token :
      (workspace_slug brand_slug subject : String) (days : ℤ)
      → Purpose
      → (new_id now jti : ℕ) → Operation
  provisions :
      (workspace_slug workspace_name : String) (brands : List String)
      (owner_username : Option String) (workspace_id membership_id : ℕ) (brand_ids : ℕ → ℕ)
      → Operation

module _ (o : Outside) where
  unfoldable pub perform : Operation → Db → Db
  perform (Operation.creates_post tenant brand subject key payload post_id variant_id) db =
      (create_post_draft o.payload_digest tenant brand subject key payload post_id variant_id
        (λ x. x) db).1
  perform (Operation.approves_post post tenant brand subject) db =
      (approve_post post tenant brand subject db).1
  perform (Operation.requests_approval tenant brand post subject days token request_id now) db =
      (request_approval o.token_digest tenant brand post subject days o.base_url token request_id
        now db).1
  perform (Operation.decides token decision comment author_label checked decided) db =
      (decide_approval o.token_digest token decision comment author_label checked decided db).1
  perform (Operation.revokes request tenant subject now) db =
      (revoke_approval request tenant subject now db).1
  perform (Operation.schedules q publication_id) db =
      (schedule_publication o.payload_digest q publication_id (λ x. x) db).1
  perform
        (Operation.intends_upload tenant brand subject filename content_type size_bytes checksum
          asset_id now)
        db =
      (create_media_upload_intent o.isalnum o.isspace o.uuid_text o.storage o.signer tenant brand
        subject filename content_type size_bytes checksum asset_id now db).1
  perform (Operation.confirms_upload asset tenant subject) db =
      (confirm_media_upload o.head_object asset tenant subject db).1
  perform (Operation.starts_oauth tenant brand subject raw_state state_id now) db =
      (start_meta_oauth o.token_digest o.authorization_url tenant brand subject raw_state state_id
        now db).1
  perform (Operation.completes_oauth code raw_state checked used account_id new_ids) db =
      (complete_meta_oauth o.encrypt_token o.token_digest o.connect code raw_state checked used
        account_id new_ids db).1
  perform (Operation.claims publication now attempt_id) db = (claim publication now attempt_id db).1
  perform (Operation.settles run publication attempt outcome) db =
      (settle o.max_attempts run publication attempt outcome db).1
  perform (Operation.revokes_promoted workspace_slug brand_slug apply) db =
      (revoke_promoted workspace_slug brand_slug apply db).1
  perform (Operation.issues_token workspace_slug brand_slug subject days purpose new_id now jti)
        db =
      (issue_token o.jwt_encode o.jwt_settings workspace_slug brand_slug subject days purpose new_id
        now jti db).1
  perform
        (Operation.provisions workspace_slug workspace_name brands owner workspace_id membership_id
          brand_ids)
        db =
      (provision o.isspace o.owner_of workspace_slug workspace_name brands owner workspace_id
        membership_id brand_ids db).1

  -- Any operations, one after the other.
  unfoldable pub perform_all : List Operation → Db → Db
  perform_all [] db = db
  perform_all (op ∷ ops) db = perform_all ops (perform op db)
