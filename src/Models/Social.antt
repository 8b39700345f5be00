-- ===== src/Models/Social.antt =====
-- relay/social/models.py: the accounts and channels that a brand publishes to.
use aleyacloud_relay.Base.{ℕ, Bool, String, List, Option}

pub data Provider : Type 0 where
  meta : Provider

pub data Channel : Type 0 where
  meta_facebook_page meta_instagram_business_account : Channel

pub record SocialAccount : Type 0 where
  pub id : ℕ
  pub tenant : ℕ
  pub brand : ℕ
  pub provider : Provider
  pub provider_account_id : String
  pub display_name : String

pub record ChannelConnection : Type 0 where
  pub id : ℕ
  pub social_account : ℕ
  pub channel : Channel
  pub provider_channel_id : String
  pub display_name : String
  pub encrypted_access_token : String
  pub token_expires_at : Option ℕ
  pub granted_scopes : List String
  pub is_active : Bool

pub record OAuthState : Type 0 where
  pub id : ℕ
  pub tenant : ℕ
  pub brand : ℕ
  pub state_digest : ℕ
  pub subject : String
  pub expires_at : ℕ
  pub used_at : Option ℕ
