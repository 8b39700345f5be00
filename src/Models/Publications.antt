-- ===== src/Models/Publications.antt =====
-- relay/publications/models.py: planned releases and the attempts to deliver them.
use aleyacloud_relay.Base.{ℕ, String, Option}
use aleyacloud_relay.Models.Lifecycle.{LifecycleState}

pub record Publication : Type 0 where
  pub id : ℕ
  pub tenant : ℕ
  pub brand : ℕ
  pub post_variant : ℕ
  pub channel_connection : ℕ
  pub scheduled_for : ℕ
  pub state : LifecycleState
  pub idempotency_key : String
  pub request_fingerprint : ℕ
  pub provider_publication_id : String
  pub last_error_code : String
  pub last_error_message : String

-- `outcome` is blank until the attempt ends.
pub data Outcome : Type 0 where
  blank published retry failed : Outcome

pub record PublicationAttempt : Type 0 where
  pub id : ℕ
  pub publication : ℕ
  pub attempt_number : ℕ
  pub started_at : ℕ
  pub completed_at : Option ℕ
  pub outcome : Outcome
  pub provider_status_code : Option ℕ
  pub error_code : String
  pub error_message : String
