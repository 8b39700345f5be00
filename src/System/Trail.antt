-- ===== src/System/Trail.antt =====
-- The audit log under the operations of the services.
use aleyacloud_relay.Base.{
  ℕ, Bool, String, List, [], ◌∷◌, ◌++◌, Option, ◌≡◌, refl, inl, inr, sym, ap, ◌∙◌, arith, find,
  select, subst, Option-cases, Bool-cases,
}
use mathlib.Core.List.{append_assoc}
use aleyacloud_relay.Models.Tenancy.{Brand}
use aleyacloud_relay.Models.Social.{ChannelConnection}
use aleyacloud_relay.Models.Audit.{AuditLog}
use aleyacloud_relay.Store.{Db, Result}
use aleyacloud_relay.Store.Laws.{Logs}
use aleyacloud_relay.Storage.{Settings, Signer}
use aleyacloud_relay.Posts.{
  Payload, PostPayload, create_post_draft, insert_draft, replay_draft, approve_post,
}
use aleyacloud_relay.Approvals.{
  request_approval, decide_approval, decision_guards, record_decision, revoke_approval,
}
use aleyacloud_relay.Scheduling.{
  ScheduleRequest, schedule_publication, schedule_guards, insert_publication, replay_publication,
}
use aleyacloud_relay.Media.{ready_assets_for_post}
use aleyacloud_relay.Media.Upload.{
  ObjectMetadata, create_media_upload_intent, issue_intent, confirm_media_upload, confirm_pending,
}
use aleyacloud_relay.Oauth.{MetaToken, MetaIdentity, start_meta_oauth, complete_meta_oauth}
use aleyacloud_relay.Oauth.Writes.{complete_writes, consume_writes}
use aleyacloud_relay.Delivery.{
  Delivered, done, transient, permanent, uncaught, Run, claim, settle, finish_success,
  finish_failure,
}
use aleyacloud_relay.Commands.{
  revoke_promoted, deactivate, deactivate_all, is_active_brand, is_promoted,
}
use aleyacloud_relay.Commands.Writes.{issue_token-WritesTenancy, provision-WritesTenancy}
use aleyacloud_relay.System.{Outside, Operation, perform, perform_all}

approve_post-Logs :
    (post tenant brand : ℕ) (subject : String) (db : Db)
    → Logs db.audit (approve_post post tenant brand subject db).1.audit
unfolding approve_post
approve_post-Logs post tenant brand subject db = ground arith

schedule-Logs :
    (sha256 : Payload → ℕ) (q : ScheduleRequest) (publication_id : ℕ) (db : Db)
    → Logs db.audit (schedule_publication sha256 q publication_id (λ x. x) db).1.audit
unfolding schedule_publication schedule_guards insert_publication replay_publication
schedule-Logs sha256 q publication_id db = ground arith

claim-Logs :
    (publication now attempt_id : ℕ) (db : Db)
    → Logs db.audit (claim publication now attempt_id db).1.audit
unfolding claim
claim-Logs publication now attempt_id db = ground arith

settle-Logs :
    (max_attempts : ℕ) (run : Run) (publication attempt : ℕ) (outcome : Delivered String) (db : Db)
    → Logs db.audit (settle max_attempts run publication attempt outcome db).1.audit
unfolding settle finish_success finish_failure
settle-Logs max_attempts run publication attempt (done x) db = ground arith
settle-Logs max_attempts run publication attempt (transient x) db = ground arith
settle-Logs max_attempts run publication attempt (permanent x) db = ground arith
settle-Logs max_attempts run publication attempt (uncaught x) db = ground arith

confirm-Logs :
    (head : List ℕ → Option ObjectMetadata) (asset tenant : ℕ) (subject : String) (db : Db)
    → Logs db.audit (confirm_media_upload head asset tenant subject db).1.audit
unfolding confirm_media_upload confirm_pending
confirm-Logs head asset tenant subject db = ground arith

revoke-Logs :
    (request tenant : ℕ) (subject : String) (now : ℕ) (db : Db)
    → Logs db.audit (revoke_approval request tenant subject now db).1.audit
unfolding revoke_approval
revoke-Logs request tenant subject now db = ground arith

decide-Logs :
    (sha256 : List ℕ → ℕ) (token : List ℕ) (decision comment author_label : String)
    (checked decided : ℕ) (db : Db)
    → Logs db.audit
        (decide_approval sha256 token decision comment author_label checked decided db).1.audit
unfolding decide_approval decision_guards record_decision
decide-Logs sha256 token decision comment author_label checked decided db = ground arith

request-Logs :
    (sha256 : List ℕ → ℕ) (tenant brand post : ℕ) (subject : String) (days : ℕ)
    (base token : List ℕ) (request_id now : ℕ) (db : Db)
    → Logs db.audit
        (request_approval sha256 tenant brand post subject days base token request_id now
          db).1.audit
unfolding request_approval
request-Logs sha256 tenant brand post subject days base token request_id now db = ground arith

start-Logs :
    (sha256 : List ℕ → ℕ) (authorization_url : List ℕ → Result (List ℕ)) (tenant brand : ℕ)
    (subject : String) (raw_state : List ℕ) (state_id now : ℕ) (db : Db)
    → Logs db.audit
        (start_meta_oauth sha256 authorization_url tenant brand subject raw_state state_id now
          db).1.audit
unfolding start_meta_oauth
start-Logs sha256 authorization_url tenant brand subject raw_state state_id now db = ground arith

intent-Logs :
    (isalnum isspace : ℕ → Bool) (uuid_text : ℕ → List ℕ) (settings : Settings) (signer : Signer)
    (tenant brand : ℕ) (subject : String) (filename : List ℕ) (content_type : String) (size : ℕ)
    (checksum : List ℕ) (asset_id now : ℕ) (db : Db)
    → Logs db.audit
        (create_media_upload_intent isalnum isspace uuid_text settings signer tenant brand subject
          filename content_type size checksum asset_id now db).1.audit
unfolding create_media_upload_intent issue_intent
intent-Logs isalnum isspace uuid_text settings signer tenant brand subject filename content_type
      size checksum asset_id now db =
    ground arith

create-Logs :
    (sha256 : Payload → ℕ) (tenant brand : ℕ) (subject key : String) (payload : PostPayload)
    (post_id variant_id : ℕ) (db : Db)
    → Logs db.audit
        (create_post_draft sha256 tenant brand subject key payload post_id variant_id
          (λ x. x)
          db).1.audit
unfolding create_post_draft insert_draft replay_draft ready_assets_for_post
create-Logs sha256 tenant brand subject key payload post_id variant_id db = ground arith

complete-Logs :
    (encrypt_token : String → Result String) (sha256 : List ℕ → ℕ)
    (connect : List ℕ → Result (MetaToken × MetaIdentity)) (code raw_state : List ℕ)
    (checked used account_id : ℕ) (new_ids : ℕ → ℕ) (db : Db)
    → Logs db.audit
        (complete_meta_oauth encrypt_token sha256 connect code raw_state checked used account_id
          new_ids db).1.audit
complete-Logs encrypt_token sha256 connect code raw_state checked used account_id new_ids db =
    subst
      (λ (a : List AuditLog).
        Logs a
          (complete_meta_oauth encrypt_token sha256 connect code raw_state checked used account_id
            new_ids db).1.audit)
      (ap (λ (x : Db). x.audit) (consume_writes sha256 raw_state checked used db))
      (complete_writes encrypt_token sha256 connect code raw_state checked used account_id new_ids
        db).1

-- Entries have been written on top of the others, and none is gone or changed.
abbrev pub Extends : (old new : List AuditLog) → Type 0
Extends old new = (entries : List AuditLog) × (new ≡ entries ++ old)

Extends-trans : {a b c : List AuditLog} → Extends a b → Extends b c → Extends a c
Extends-trans {a} (es, e) (fs, f) =
    (fs ++ es, f ∙ ap (λ (x : List AuditLog). fs ++ x) e ∙ sym (append_assoc fs es a))

Logs→Extends : (old new : List AuditLog) → Logs old new → Extends old new
Logs→Extends old new (inl e) = ([], e)
Logs→Extends old [] (inr e) = ([], e)
Logs→Extends old (x ∷ xs) (inr e) = (x ∷ [], ap (λ (y : List AuditLog). x ∷ y) e)

deactivate_all-Extends :
    (b : Brand) (cs : List ChannelConnection) (db : Db)
    → Extends db.audit (deactivate_all b cs db).audit
unfolding deactivate_all
deactivate_all-Extends b [] db = ([], refl)
deactivate_all-Extends b (c ∷ cs) db =
    let one : Extends db.audit (deactivate b c db).audit =
      Logs→Extends db.audit (deactivate b c db).audit (inr refl) in
    Extends-trans one (deactivate_all-Extends b cs (deactivate b c db))

revoke_promoted-Extends :
    (workspace_slug brand_slug : String) (apply : Bool) (db : Db)
    → Extends db.audit (revoke_promoted workspace_slug brand_slug apply db).1.audit
unfolding revoke_promoted
revoke_promoted-Extends workspace_slug brand_slug apply db =
    let after = (revoke_promoted workspace_slug brand_slug apply db).1 in
    elim (Option-cases (find (is_active_brand workspace_slug brand_slug db) db.brands)) [
      | inl missing ↦ let same : after ≡ db = ground arith in rw same ([], refl)
      | inr (b, found) ↦ elim (Bool-cases apply) [
        | inr listed ↦ let same : after ≡ db = ground arith in rw same ([], refl)
        | inl applied ↦
            let cs = select (is_promoted b db) db.connections in
            let same : after ≡ deactivate_all b cs db = ground arith in
            rw same (deactivate_all-Extends b cs db)
      ]
    ]

module _ (o : Outside) where
  perform-Extends : (op : Operation) (db : Db) → Extends db.audit (perform o op db).audit
  unfolding perform
  perform-Extends (Operation.creates_post tenant brand subject key payload post_id variant_id) db =
      Logs→Extends _ _
        (create-Logs o.payload_digest tenant brand subject key payload post_id variant_id db)
  perform-Extends (Operation.approves_post post tenant brand subject) db =
      Logs→Extends _ _ (approve_post-Logs post tenant brand subject db)
  perform-Extends (Operation.requests_approval tenant brand post subject days token request_id now)
        db =
      Logs→Extends _ _ (
        request-Logs o.token_digest tenant brand post subject days o.base_url token request_id now
          db)
  perform-Extends (Operation.decides token decision comment author_label checked decided) db =
      Logs→Extends _ _
        (decide-Logs o.token_digest token decision comment author_label checked decided db)
  perform-Extends (Operation.revokes request tenant subject now) db =
      Logs→Extends _ _ (revoke-Logs request tenant subject now db)
  perform-Extends (Operation.schedules q publication_id) db =
      Logs→Extends _ _ (schedule-Logs o.payload_digest q publication_id db)
  perform-Extends
        (Operation.intends_upload tenant brand subject filename content_type size checksum asset_id
          now)
        db =
      Logs→Extends _ _ (
        intent-Logs o.isalnum o.isspace o.uuid_text o.storage o.signer tenant brand subject filename
          content_type size checksum asset_id now db)
  perform-Extends (Operation.confirms_upload asset tenant subject) db =
      Logs→Extends _ _ (confirm-Logs o.head_object asset tenant subject db)
  perform-Extends (Operation.starts_oauth tenant brand subject raw_state state_id now) db =
      Logs→Extends _ _ (
        start-Logs o.token_digest o.authorization_url tenant brand subject raw_state state_id now
          db)
  perform-Extends (Operation.completes_oauth code raw_state checked used account_id new_ids) db =
      Logs→Extends _ _ (
        complete-Logs o.encrypt_token o.token_digest o.connect code raw_state checked used
          account_id new_ids db)
  perform-Extends (Operation.claims publication now attempt_id) db =
      Logs→Extends _ _ (claim-Logs publication now attempt_id db)
  perform-Extends (Operation.settles run publication attempt outcome) db =
      Logs→Extends _ _ (settle-Logs o.max_attempts run publication attempt outcome db)
  perform-Extends (Operation.revokes_promoted workspace_slug brand_slug apply) db =
      revoke_promoted-Extends workspace_slug brand_slug apply db
  perform-Extends
        (Operation.issues_token workspace_slug brand_slug subject days purpose new_id now jti) db =
      (
        [],
        ap (λ (x : Db). x.audit)
            (issue_token-WritesTenancy o.jwt_encode o.jwt_settings workspace_slug brand_slug subject
              days purpose new_id now jti db),
      )
  perform-Extends
        (Operation.provisions workspace_slug workspace_name brands owner workspace_id membership_id
          brand_ids)
        db =
      (
        [],
        ap (λ (x : Db). x.audit)
            (provision-WritesTenancy o.isspace o.owner_of workspace_slug workspace_name brands owner
              workspace_id membership_id brand_ids db),
      )

  -- The audit log is append-only: whatever operations run, in whatever order and with whatever result, the
  -- log afterwards is the log before with entries on top.
  pub perform_all-Extends :
      (ops : List Operation) (db : Db) → Extends db.audit (perform_all o ops db).audit
  unfolding perform_all
  perform_all-Extends [] db = ([], refl)
  perform_all-Extends (op ∷ ops) db =
      Extends-trans (perform-Extends op db) (perform_all-Extends ops (perform o op db))
