-- ===== src/Models/Tenancy.antt =====
-- relay/tenancy/models.py: workspaces, their brands and their members.
use aleyacloud_relay.Base.{ℕ, Bool, String}

pub record Tenant : Type 0 where
  pub id : ℕ
  pub slug : String
  pub name : String
  pub is_active : Bool

pub data MembershipRole : Type 0 where
  owner manager content_creator client_approver viewer : MembershipRole

pub record Brand : Type 0 where
  pub id : ℕ
  pub workspace : ℕ
  pub slug : String
  pub name : String
  pub timezone : String
  pub is_active : Bool

pub record Membership : Type 0 where
  pub id : ℕ
  pub workspace : ℕ
  pub subject : String
  pub role : MembershipRole
  pub is_active : Bool
