-- ===== src/Models/Approvals.antt =====
-- relay/approvals/models.py: links by which a client decides on a post.
use aleyacloud_relay.Base.{ℕ, Bool, true, false, String, Option}

pub data ApprovalDecision : Type 0 where
  pending approved changes_requested : ApprovalDecision

abbrev pub is_pending : ApprovalDecision → Bool
is_pending ApprovalDecision.pending = true
is_pending _ = false

pub record ApprovalRequest : Type 0 where
  pub id : ℕ
  pub brand : ℕ
  pub post : ℕ
  pub requested_by_subject : String
  pub token_digest : ℕ
  pub expires_at : ℕ
  pub revoked_at : Option ℕ
  pub decided_at : Option ℕ
  pub decision : ApprovalDecision

pub record ApprovalComment : Type 0 where
  pub approval_request : ℕ
  pub author_label : String
  pub body : String
