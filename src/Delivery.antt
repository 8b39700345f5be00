-- ===== src/Delivery.antt =====
-- relay/publications/services.py: a worker claims one due
-- publication, hands it to the publisher, and records how the attempt ended.
-- The publisher, `decrypt_token` and `publishable_image_url` are arguments here: they answer with a
-- value or with an exception. What `timezone.now` and `uuid4` return is an argument too.
pub mod Claim
pub mod Workers
pub mod Saves
pub mod Exclusion
pub mod Attempts
pub mod LastAttempt
pub mod Bound
pub mod Outcomes
pub mod Retry
pub mod Dispatch
pub mod Live
use aleyacloud_relay.Base.{
  ℕ, ◌+◌, ◌*◌, ◌^◌, min, Bool, true, false, ◌&&◌, ◌||◌, String, List, [], ◌∷◌, map, Option, none,
  some, ltb, leb, ◌==◌, if◌then◌else◌, find, select, exists, count, save, length, codes,
}
use aleyacloud_relay.Models.Lifecycle.{LifecycleState, is_scheduled}
use aleyacloud_relay.Models.Content.{PostVariant, MediaAsset}
use aleyacloud_relay.Models.Audit.{Value, AuditLog}
use aleyacloud_relay.Models.Social.{ChannelConnection}
use aleyacloud_relay.Models.Publications.{Publication, PublicationAttempt, Outcome}
use aleyacloud_relay.Store.{
  Db, Error, Result, ok, raise, does_not_exist, pure, ◌>>=◌, ◌>>◌, query, get, write, insert,
  raise_if, data_error, atomic, log,
}
use aleyacloud_relay.Media.{ordered_media_assets}

pub data PublishResult : Type 0 where
  not_due_or_claimed published retry_scheduled failed : PublishResult

-- An exception's class name and its text.
pub record Failure : Type 0 where
  pub code : String
  pub message : String

-- How the delivery ends: `MetaPublishTransientError`, one of the four permanent errors, or an
-- exception that nothing catches.
pub data Delivered (A : Type 0) : Type 0 where
  done : A → Delivered A
  transient : Failure → Delivered A
  permanent : Failure → Delivered A
  uncaught : Error → Delivered A

infixl 5 ◌>>=ᵈ◌
abbrev pub ◌>>=ᵈ◌ : {A B : Type 0} → Delivered A → (A → Delivered B) → Delivered B
done a >>=ᵈ f = f a
transient e >>=ᵈ f = transient e
permanent e >>=ᵈ f = permanent e
uncaught e >>=ᵈ f = uncaught e

-- `[publishable_image_url(asset) for asset in media]`
unfoldable pub urls :
    (MediaAsset → Delivered (List ℕ)) → List MediaAsset → Delivered (List (List ℕ))
urls url [] = done []
urls url (a ∷ as') = url a >>=ᵈ λ u. urls url as' >>=ᵈ λ us. done (u ∷ us)

-- What the worker calls: the constructor `MetaPublishingClient()`, the token cipher, the URLs of the
-- images and `publish_images`.
pub record Provider : Type 0 where
  pub client : Delivered (Unit {0})
  pub decrypt_token : String → Delivered String
  pub publishable_image_url : MediaAsset → Delivered (List ℕ)
  pub publish_images : ChannelConnection → String → String → List (List ℕ) → Delivered String

-- `_retry_delay`, in seconds.
unfoldable pub retry_delay : ℕ → ℕ
retry_delay attempt_number = min (2 ^ attempt_number) 30 * 60

abbrev pub publication_id : Publication → ℕ
publication_id p = p.id

abbrev pub attempt_id : PublicationAttempt → ℕ
attempt_id a = a.id

abbrev pub save_publication : Publication → Db → Db
save_publication p db = record db { publications = save publication_id p db.publications }

abbrev pub save_attempt : PublicationAttempt → Db → Db
save_attempt a db = record db { attempts = save attempt_id a db.attempts }

-- `filter(id=..., state=SCHEDULED, scheduled_for__lte=now)`
abbrev pub is_due : (id now : ℕ) → Publication → Bool
is_due id now p = p.id == id && (is_scheduled p.state && leb p.scheduled_for now)

abbrev pub is_attempt_of : ℕ → PublicationAttempt → Bool
is_attempt_of id a = a.publication == id

abbrev pub claimed : Publication → Publication
claimed p = record p { state = LifecycleState.publishing }

abbrev pub first_attempt : (attempt_id number now : ℕ) → Publication → PublicationAttempt
first_attempt new_id number now p = record {
  id = new_id;
  publication = p.id;
  attempt_number = number;
  started_at = now;
  completed_at = none;
  outcome = Outcome.blank;
  provider_status_code = none;
  error_code = "";
  error_message = "";
}

-- The primary key or the constraint unique_publication_attempt_number.
abbrev pub attempt_clash : PublicationAttempt → Db → Bool
attempt_clash a db =
    exists
      (λ (x : PublicationAttempt).
        x.id == a.id || (x.publication == a.publication && x.attempt_number == a.attempt_number))
      db.attempts

-- The first transaction: nothing where the publication is not due or has been claimed.
unfoldable pub claim :
    (id now new_id : ℕ) → Db → Result (Option (Publication × PublicationAttempt)) × Db
claim id now new_id db = elim (find (is_due id now) db.publications) [
  | none ↦ (ok none, db)
  | some p ↦
      atomic
        (do
          n ← query (λ db. count (is_attempt_of p.id) db.attempts)
          let attempt : PublicationAttempt = first_attempt new_id (n + 1) now p
          insert (attempt_clash attempt) (λ db. record db { attempts = attempt ∷ db.attempts })
          write (save_publication (claimed p))
          pure (some (claimed p, attempt)))
        db
]

-- The `try` block: what is sent, and what comes of it.
unfoldable pub deliver : Provider → Publication → Db → Delivered String
deliver provider p db = elim (find (λ (v : PostVariant). v.id == p.post_variant) db.variants) [
  | none ↦ uncaught does_not_exist
  | some variant ↦
      elim (find (λ (c : ChannelConnection). c.id == p.channel_connection) db.connections) [
        | none ↦ uncaught does_not_exist
        | some connection ↦
            let media : List MediaAsset = ordered_media_assets variant db in
            if leb 1 (length media) && leb (length media) 10
            then (provider.client >>=ᵈ λ _.
                provider.decrypt_token connection.encrypted_access_token >>=ᵈ λ token.
                urls provider.publishable_image_url media >>=ᵈ λ image_urls.
                provider.publish_images connection token variant.body image_urls)
            else permanent (record {
              code = "MetaPublishPermanentError";
              message = "A publication must contain between one and ten image assets.";
            })
      ]
]

abbrev pub worker_log : String → Publication → List (String × Value) → AuditLog
worker_log event p metadata = record {
  tenant = p.tenant;
  brand = some p.brand;
  actor_type = "worker";
  actor_id = Value.text "celery";
  event_type = event;
  subject_type = "publication";
  subject_id = p.id;
  metadata = metadata;
}

-- `provider_publication_id` is a column of 255 characters.
abbrev pub is_too_long : String → Bool
is_too_long provider_id = ltb 255 (length (codes provider_id))

-- The transaction after a delivery that succeeded.
unfoldable pub finish_success :
    (publication attempt : ℕ) (provider_publication_id : String) (now : ℕ)
    → Db
    → Result PublishResult × Db
finish_success p_id a_id provider_id now = atomic (do
  p ← get (λ db. find (λ (x : Publication). x.id == p_id) db.publications) does_not_exist
  a ← get (λ db. find (λ (x : PublicationAttempt). x.id == a_id) db.attempts) does_not_exist
  write (save_attempt (record a { outcome = Outcome.published; completed_at = some now }))
  raise_if (is_too_long provider_id) data_error
  write (
      save_publication (record p {
        state = LifecycleState.published;
        provider_publication_id = provider_id;
        last_error_code = "";
        last_error_message = "";
      }))
  log (worker_log "publication.published" p (("attempt", Value.number a.attempt_number) ∷ []))
  pure PublishResult.published)

-- `transient and attempt.attempt_number < settings.RELAY_PUBLICATION_MAX_ATTEMPTS`
abbrev pub should_retry : (max_attempts : ℕ) → Bool → PublicationAttempt → Bool
should_retry max_attempts is_transient a = is_transient && ltb a.attempt_number max_attempts

abbrev pub failed_attempt : Bool → Failure → (now : ℕ) → PublicationAttempt → PublicationAttempt
failed_attempt retries e now a = record a {
  outcome = if retries then Outcome.retry else Outcome.failed;
  error_code = e.code;
  error_message = e.message;
  completed_at = some now;
}

abbrev pub failed_publication :
    Bool → Failure → (now attempt_number : ℕ) → Publication → Publication
failed_publication retries e now number p = record p {
  state = if retries then LifecycleState.scheduled else LifecycleState.failed;
  scheduled_for = if retries then now + retry_delay number else p.scheduled_for;
  last_error_code = e.code;
  last_error_message = e.message;
}

-- `_finish_failure`; `completed` and `now` are its two readings of the clock.
unfoldable pub finish_failure :
    (max_attempts publication attempt : ℕ)
    → Failure
    → (is_transient : Bool) (completed now : ℕ) → Db
    → Result PublishResult × Db
finish_failure max_attempts p_id a_id e is_transient completed now = atomic (do
  p ← get (λ db. find (λ (x : Publication). x.id == p_id) db.publications) does_not_exist
  a ← get (λ db. find (λ (x : PublicationAttempt). x.id == a_id) db.attempts) does_not_exist
  let retries : Bool = should_retry max_attempts is_transient a
  write (save_attempt (failed_attempt retries e completed a))
  write (save_publication (failed_publication retries e now a.attempt_number p))
  log (
      worker_log (if retries then "publication.retry_scheduled" else "publication.failed") p
        (("attempt", Value.number a.attempt_number) ∷ ("error_code", Value.text e.code) ∷ []))
  pure (if retries then PublishResult.retry_scheduled else PublishResult.failed))

-- The readings of the clock, the id of the attempt, and what other transactions commit while the
-- provider is called.
pub record Run : Type 0 where
  pub now : ℕ
  pub new_id : ℕ
  pub completed : ℕ
  pub later : ℕ
  pub others : Db → Db

-- What follows a claim.
unfoldable pub settle :
    (max_attempts : ℕ)
    → Run
    → (publication attempt : ℕ) → Delivered String
    → Db
    → Result PublishResult × Db
settle max_attempts run p a (done provider_id) db = finish_success p a provider_id run.completed db
settle max_attempts run p a (transient e) db =
    finish_failure max_attempts p a e true run.completed run.later db
settle max_attempts run p a (permanent e) db =
    finish_failure max_attempts p a e false run.completed run.later db
settle max_attempts run p a (uncaught e) db = (raise e, db)

unfoldable pub after_claim :
    (max_attempts : ℕ)
    → Provider
    → Run
    → Result (Option (Publication × PublicationAttempt)) × Db
    → Result PublishResult × Db
after_claim max_attempts provider run (raise e, db) = (raise e, db)
after_claim max_attempts provider run (ok none, db) = (ok PublishResult.not_due_or_claimed, db)
after_claim max_attempts provider run (ok (some (p, a)), db) =
    settle max_attempts run p.id a.id (deliver provider p db) (run.others db)

unfoldable pub publish_due_publication :
    (max_attempts : ℕ) → Provider → Run → (id : ℕ) → Db → Result PublishResult × Db
publish_due_publication max_attempts provider run id db =
    after_claim max_attempts provider run (claim id run.now run.new_id db)
