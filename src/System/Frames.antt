-- ===== src/System/Frames.antt =====
-- The operations of the services that leave the posts alone.
use aleyacloud_relay.Base.{
  ℕ, Bool, String, List, [], ◌∷◌, Option, ◌≡◌, refl, inl, inr, ◌∙◌, ap, arith, find, select,
  Option-cases,
}
use aleyacloud_relay.Models.Tenancy.{Brand}
use aleyacloud_relay.Models.Social.{ChannelConnection}
use aleyacloud_relay.Store.{Db, Result}
use aleyacloud_relay.Storage.{Settings, Signer}
use aleyacloud_relay.Posts.{Payload}
use aleyacloud_relay.Approvals.{revoke_approval}
use aleyacloud_relay.Scheduling.{
  ScheduleRequest, schedule_publication, schedule_guards, insert_publication, replay_publication,
}
use aleyacloud_relay.Media.Upload.{
  ObjectMetadata, create_media_upload_intent, issue_intent, confirm_media_upload, confirm_pending,
}
use aleyacloud_relay.Oauth.{MetaToken, MetaIdentity, start_meta_oauth, complete_meta_oauth}
use aleyacloud_relay.Oauth.Writes.{complete_writes, consume_writes}
use aleyacloud_relay.Delivery.{
  Delivered, done, transient, permanent, uncaught, Run, claim, settle, finish_success,
  finish_failure,
}
use aleyacloud_relay.Commands.{
  revoke_promoted, deactivate, deactivate_all, is_active_brand, is_promoted,
}

pub schedule_posts :
    (sha256 : Payload → ℕ) (q : ScheduleRequest) (publication_id : ℕ) (db : Db)
    → (schedule_publication sha256 q publication_id (λ x. x) db).1.posts ≡ db.posts
unfolding schedule_publication schedule_guards insert_publication replay_publication
schedule_posts sha256 q publication_id db = ground arith

pub claim_posts :
    (publication now attempt_id : ℕ) (db : Db)
    → (claim publication now attempt_id db).1.posts ≡ db.posts
unfolding claim
claim_posts publication now attempt_id db = ground arith

pub settle_posts :
    (max_attempts : ℕ) (run : Run) (publication attempt : ℕ) (outcome : Delivered String) (db : Db)
    → (settle max_attempts run publication attempt outcome db).1.posts ≡ db.posts
unfolding settle finish_success finish_failure
settle_posts max_attempts run publication attempt (done x) db = ground arith
settle_posts max_attempts run publication attempt (transient x) db = ground arith
settle_posts max_attempts run publication attempt (permanent x) db = ground arith
settle_posts max_attempts run publication attempt (uncaught x) db = ground arith

pub confirm_posts :
    (head : List ℕ → Option ObjectMetadata) (asset tenant : ℕ) (subject : String) (db : Db)
    → (confirm_media_upload head asset tenant subject db).1.posts ≡ db.posts
unfolding confirm_media_upload confirm_pending
confirm_posts head asset tenant subject db = ground arith

pub revoke_posts :
    (request tenant : ℕ) (subject : String) (now : ℕ) (db : Db)
    → (revoke_approval request tenant subject now db).1.posts ≡ db.posts
unfolding revoke_approval
revoke_posts request tenant subject now db = ground arith

pub start_posts :
    (sha256 : List ℕ → ℕ) (authorization_url : List ℕ → Result (List ℕ)) (tenant brand : ℕ)
    (subject : String) (raw_state : List ℕ) (state_id now : ℕ) (db : Db)
    → (start_meta_oauth sha256 authorization_url tenant brand subject raw_state state_id now
        db).1.posts
      ≡ db.posts
unfolding start_meta_oauth
start_posts sha256 authorization_url tenant brand subject raw_state state_id now db = ground arith

pub intent_posts :
    (isalnum isspace : ℕ → Bool) (uuid_text : ℕ → List ℕ) (settings : Settings) (signer : Signer)
    (tenant brand : ℕ) (subject : String) (filename : List ℕ) (content_type : String) (size : ℕ)
    (checksum : List ℕ) (asset_id now : ℕ) (db : Db)
    → (create_media_upload_intent isalnum isspace uuid_text settings signer tenant brand subject
        filename content_type size checksum asset_id now db).1.posts
      ≡ db.posts
unfolding create_media_upload_intent issue_intent
intent_posts isalnum isspace uuid_text settings signer tenant brand subject filename content_type
      size checksum asset_id now db =
    ground arith

pub complete_posts :
    (encrypt_token : String → Result String) (sha256 : List ℕ → ℕ)
    (connect : List ℕ → Result (MetaToken × MetaIdentity)) (code raw_state : List ℕ)
    (checked used account_id : ℕ) (new_ids : ℕ → ℕ) (db : Db)
    → (complete_meta_oauth encrypt_token sha256 connect code raw_state checked used account_id
        new_ids db).1.posts
      ≡ db.posts
complete_posts encrypt_token sha256 connect code raw_state checked used account_id new_ids db =
    ap (λ (x : Db). x.posts)
      (complete_writes encrypt_token sha256 connect code raw_state checked used account_id new_ids
        db).0
    ∙ ap (λ (x : Db). x.posts) (consume_writes sha256 raw_state checked used db)

deactivate_all_posts :
    (b : Brand) (cs : List ChannelConnection) (db : Db) → (deactivate_all b cs db).posts ≡ db.posts
unfolding deactivate_all
deactivate_all_posts b [] db = refl
deactivate_all_posts b (c ∷ cs) db = deactivate_all_posts b cs (deactivate b c db)

pub revoke_promoted_posts :
    (workspace_slug brand_slug : String) (apply : Bool) (db : Db)
    → (revoke_promoted workspace_slug brand_slug apply db).1.posts ≡ db.posts
unfolding revoke_promoted
revoke_promoted_posts workspace_slug brand_slug apply db =
    elim (Option-cases (find (is_active_brand workspace_slug brand_slug db) db.brands)) [
      | inl missing ↦ ground arith
      | inr (b, found) ↦
          ground (arith, deactivate_all_posts b (select (is_promoted b db) db.connections) db)
    ]
