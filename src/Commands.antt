-- ===== src/Commands.antt =====
-- relay/social/management/commands/revoke_promoted_meta_connections.py: the connections that a retired
-- command had copied to a brand are deactivated. Each of its queries commits on its own.
pub mod Writes
pub mod Provisioned
pub mod Revoked
pub mod Issue
pub mod Issued
pub mod Provision
pub mod Connections
use aleyacloud_relay.Base.{
  ℕ, Bool, true, false, ◌&&◌, String, str_eq, List, [], ◌∷◌, map, Option, none, some, ◌==◌,
  if◌then◌else◌, find, select, any, exists, save, is_empty,
}
use aleyacloud_relay.Models.Tenancy.{Tenant, Brand}
use aleyacloud_relay.Models.Audit.{Value, AuditLog}
use aleyacloud_relay.Models.Social.{SocialAccount, ChannelConnection}
use aleyacloud_relay.Store.{Db, Result, ok, raise, command_error}

abbrev pub is_workspace : String → Brand → Tenant → Bool
is_workspace slug b t = t.id == b.workspace && (str_eq t.slug slug && t.is_active)

abbrev pub is_active_brand : (workspace_slug brand_slug : String) → Db → Brand → Bool
is_active_brand workspace_slug brand_slug db b =
    str_eq b.slug brand_slug && (b.is_active && exists (is_workspace workspace_slug b) db.tenants)

abbrev pub same_brand : Option ℕ → ℕ → Bool
same_brand none id = false
same_brand (some brand) id = brand == id

-- The audit entry by which the retired command recorded its copy.
abbrev pub is_promotion : Brand → ℕ → AuditLog → Bool
is_promotion b id e =
    e.tenant == b.workspace
    && (same_brand e.brand b.id
        && (str_eq e.event_type "meta.connection_promoted"
            && (str_eq e.subject_type "channel_connection" && e.subject_id == id)))

abbrev pub is_account_of : Brand → ChannelConnection → SocialAccount → Bool
is_account_of b c a = a.id == c.social_account && a.brand == b.id

-- The query of `connections`.
unfoldable pub is_promoted : Brand → Db → ChannelConnection → Bool
is_promoted b db c =
    any (is_promotion b c.id) db.audit && (exists (is_account_of b c) db.accounts && c.is_active)

abbrev pub connection_id : ChannelConnection → ℕ
connection_id c = c.id

abbrev pub inactive : ChannelConnection → ChannelConnection
inactive c = record c { is_active = false }

-- One round of the loop that deactivates.
abbrev pub deactivate : Brand → ChannelConnection → Db → Db
deactivate b c db = record db {
  connections = save connection_id (inactive c) db.connections;
  audit =
      record {
        tenant = b.workspace;
        brand = some b.id;
        actor_type = "admin";
        actor_id = Value.text "revoke_promoted_meta_connections";
        event_type = "meta.promoted_connection_revoked";
        subject_type = "channel_connection";
        subject_id = c.id;
        metadata = ("reason", Value.text "retired_cross_brand_connection_copy") ∷ [];
      }
      ∷ db.audit;
}

unfoldable pub deactivate_all : Brand → List ChannelConnection → Db → Db
deactivate_all b [] db = db
deactivate_all b (c ∷ cs) db = deactivate_all b cs (deactivate b c db)

-- `Command.handle`, with the ids of the connections that it reports.
unfoldable pub revoke_promoted :
    (workspace_slug brand_slug : String) (apply : Bool) → Db → Result (List ℕ) × Db
revoke_promoted workspace_slug brand_slug apply db =
    elim (find (is_active_brand workspace_slug brand_slug db) db.brands) [
      | none ↦ (raise command_error, db)
      | some b ↦
          let connections : List ChannelConnection = select (is_promoted b db) db.connections in
          (
            ok (map connection_id connections),
            if apply then deactivate_all b connections db else db,
          )
    ]
