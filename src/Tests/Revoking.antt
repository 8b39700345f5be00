-- ===== src/Tests/Revoking.antt =====
-- A run of relay/social/management/commands/revoke_promoted_meta_connections.py on the test data.
use aleyacloud_relay.Base.{
  ℕ, true, false, [], ◌∷◌, some, none, ◌≡◌, refl, find, select, any, exists, length, ◌==◌,
}
use aleyacloud_relay.Models.Tenancy.{Brand}
use aleyacloud_relay.Models.Audit.{Value}
use aleyacloud_relay.Store.{Db, ok}
use aleyacloud_relay.Commands.{is_promoted, revoke_promoted}
use aleyacloud_relay.Commands.Revoked.{
  has_connection_id, is_live, is_named, is_copy, revoke_promoted-apply,
}
use aleyacloud_relay.Tests.{start_db}

-- The connection was copied by the retired command.
abbrev promoted_db : Db
promoted_db = record start_db {
  audit =
      record {
        tenant = 1;
        brand = some 10;
        actor_type = "admin";
        actor_id = Value.text "promote_meta_connections";
        event_type = "meta.connection_promoted";
        subject_type = "channel_connection";
        subject_id = 400;
        metadata = [];
      }
      ∷ [];
}

reported : (revoke_promoted "aleya" "cafe" true promoted_db).0 ≡ ok (400 ∷ [])
unfolding revoke_promoted is_promoted find exists any select
reported = refl

revoke_promoted-apply_example :
    (revoke_promoted "aleya" "cafe" false promoted_db ≡ (ok (400 ∷ []), promoted_db))
    × ((b : Brand) × (find (is_named "aleya" "cafe" promoted_db) promoted_db.brands ≡ some b)
        × ((i : ℕ)
            → (any (λ x. x == i) (400 ∷ []) ≡ any (is_copy b promoted_db i) promoted_db.connections)
              × (any (is_copy b promoted_db i) promoted_db.connections ≡ true
                  → find (is_live i) (revoke_promoted "aleya" "cafe" true promoted_db).1.connections
                    ≡ none)
              × (any (is_copy b promoted_db i) promoted_db.connections ≡ false
                  → find
                      (has_connection_id i)
                      (revoke_promoted "aleya" "cafe" true promoted_db).1.connections
                    ≡ find (has_connection_id i) promoted_db.connections)))
    × (length (revoke_promoted "aleya" "cafe" true promoted_db).1.connections
        ≡ length promoted_db.connections)
revoke_promoted-apply_example =
    revoke_promoted-apply "aleya" "cafe" promoted_db {ids = 400 ∷ []} reported
