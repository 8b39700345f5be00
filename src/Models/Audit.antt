-- ===== src/Models/Audit.antt =====
-- relay/audit/models.py: the log of material actions.
use aleyacloud_relay.Base.{ℕ, String, List, Option}

-- The JSON values that the services write and fingerprint: `uuid` is `str(row.id)`, `moment` a time
-- in ISO format.
pub data Value : Type 0 where
  text : String → Value
  uuid : ℕ → Value
  uuids : List ℕ → Value
  number : ℕ → Value
  moment : ℕ → Value

pub record AuditLog : Type 0 where
  pub tenant : ℕ
  pub brand : Option ℕ
  pub actor_type : String
  pub actor_id : Value
  pub event_type : String
  pub subject_type : String
  pub subject_id : ℕ
  pub metadata : List (String × Value)
