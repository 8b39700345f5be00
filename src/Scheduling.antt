-- ===== src/Scheduling.antt =====
-- relay/api/services.py, `schedule_publication`. The view hands over the variant and the connection
-- with the rows that they point to, as it has read them: `post` is `post_variant.post`, and
-- `account` is `channel_connection.social_account`.
pub mod Effects
pub mod Idempotency
use aleyacloud_relay.Base.{
  ℕ, Bool, true, false, not, ◌&&◌, ◌||◌, String, str_eq, List, [], ◌∷◌, none, some, leb, ◌==◌,
  if◌then◌else◌, find, exists, any, length,
}
use aleyacloud_relay.Models.Lifecycle.{LifecycleState, is_approved}
use aleyacloud_relay.Models.Content.{Post, PostVariant, MediaAsset, is_ready}
use aleyacloud_relay.Models.Audit.{Value, AuditLog}
use aleyacloud_relay.Models.Social.{SocialAccount, ChannelConnection}
use aleyacloud_relay.Models.Publications.{Publication}
use aleyacloud_relay.Store.{
  Db, Result, ok, raise, does_not_exist, idempotency_conflict, invalid_schedule,
  invalid_state_transition, Tx, pure, ◌>>=◌, ◌>>◌, raise_if, query, get, insert,
  except_integrity_error, atomic, log,
}
use aleyacloud_relay.Media.{variant_assets}
use aleyacloud_relay.Posts.{Payload, request_fingerprint}

pub record SchedulePublicationResult : Type 0 where
  pub publication : Publication
  pub created : Bool

-- The arguments of the command.
pub record ScheduleRequest : Type 0 where
  pub tenant : ℕ
  pub brand : ℕ
  pub subject : String
  pub post_variant : PostVariant
  pub post : Post
  pub channel_connection : ChannelConnection
  pub account : SocialAccount
  pub scheduled_for : ℕ
  pub idempotency_key : String

abbrev pub schedule_entries : ScheduleRequest → Payload
schedule_entries q =
    ("post_variant_id", Value.uuid q.post_variant.id)
    ∷ ("channel_connection_id", Value.uuid q.channel_connection.id)
    ∷ ("scheduled_for", Value.moment q.scheduled_for)
    ∷ []

abbrev pub has_publication_key : ℕ → String → Publication → Bool
has_publication_key tenant key p = p.tenant == tenant && str_eq p.idempotency_key key

abbrev pub publication_clash : Publication → Db → Bool
publication_clash publication db =
    exists
      (λ (p : Publication).
        p.id == publication.id
        || has_publication_key publication.tenant publication.idempotency_key p)
      db.publications

abbrev pub new_publication : (fingerprint : ℕ) → ScheduleRequest → ℕ → Publication
new_publication fingerprint q publication_id = record {
  id = publication_id;
  tenant = q.tenant;
  brand = q.brand;
  post_variant = q.post_variant.id;
  channel_connection = q.channel_connection.id;
  scheduled_for = q.scheduled_for;
  state = LifecycleState.scheduled;
  idempotency_key = q.idempotency_key;
  request_fingerprint = fingerprint;
  provider_publication_id = "";
  last_error_code = "";
  last_error_message = "";
}

-- `not 1 <= len(media_assets) <= 10 or any(asset.upload_state != READY ...)`
unfoldable pub unfit_media : List MediaAsset → Bool
unfit_media assets =
    not (leb 1 (length assets) && leb (length assets) 10)
    || any (λ (a : MediaAsset). not (is_ready a.upload_state)) assets

-- The guards between the look-up of the key and the insert.
unfoldable pub schedule_guards : ScheduleRequest → Tx (Unit {0})
schedule_guards q = do
  raise_if (not (q.post.tenant == q.tenant) || not (q.post.brand == q.brand)) invalid_schedule
  raise_if
      (not (q.account.tenant == q.tenant)
        || (not (q.account.brand == q.brand) || not q.channel_connection.is_active))
      invalid_schedule
  raise_if (not (is_approved q.post.state)) invalid_state_transition
  assets ← query (variant_assets q.post_variant.id)
  raise_if (unfit_media assets) invalid_schedule

abbrev pub scheduled_log : Publication → (subject : String) → AuditLog
scheduled_log publication subject = record {
  tenant = publication.tenant;
  brand = some publication.brand;
  actor_type = "service";
  actor_id = Value.text subject;
  event_type = "publication.scheduled";
  subject_type = "publication";
  subject_id = publication.id;
  metadata = ("idempotency_key", Value.text publication.idempotency_key) ∷ [];
}

-- The body of the `try`.
unfoldable pub insert_publication : Publication → (subject : String) → Tx SchedulePublicationResult
insert_publication publication subject = do
  insert (publication_clash publication)
      (λ db. record db { publications = publication ∷ db.publications })
  log (scheduled_log publication subject)
  pure (record { publication = publication; created = true })

-- The handler of the `except IntegrityError`.
unfoldable pub replay_publication :
    (tenant : ℕ) (key : String) (fingerprint : ℕ) → Tx SchedulePublicationResult
replay_publication tenant key fingerprint = do
  existing ← get (λ db. find (has_publication_key tenant key) db.publications) does_not_exist
  raise_if (not (existing.request_fingerprint == fingerprint)) idempotency_conflict
  pure (record { publication = existing; created = false })

-- `others` is what other transactions commit after the look-up of the key.
unfoldable pub schedule_publication :
    (sha256 : Payload → ℕ)
    → ScheduleRequest
    → (publication_id : ℕ) (others : Db → Db) → Db
    → Result SchedulePublicationResult × Db
schedule_publication sha256 q publication_id others db =
    let fingerprint : ℕ = request_fingerprint sha256 (schedule_entries q) in
    elim (find (has_publication_key q.tenant q.idempotency_key) db.publications) [
      | some existing ↦
          if existing.request_fingerprint == fingerprint
          then (ok (record { publication = existing; created = false }), db)
          else (raise idempotency_conflict, db)
      | none ↦
          atomic
            (schedule_guards q
              >> except_integrity_error
                  (insert_publication (new_publication fingerprint q publication_id) q.subject)
                  (replay_publication q.tenant q.idempotency_key fingerprint))
            (others db)
    ]
