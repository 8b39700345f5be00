-- ===== src/Commands/Revoked.antt =====
-- What relay/social/management/commands/revoke_promoted_meta_connections.py deactivates and keeps.
use aleyacloud_relay.Base.{
  ℕ, str_eq, Option, some, exists, Bool, true, false, ◌&&◌, String, List, [], ◌∷◌, map, none, ◌==◌,
  ◌≡◌, refl, inl, inr, ◌∙◌, arith, find, select, any, length, Option-cases, Bool-cases,
  find-save_other, find-save-none, find-save_less, length-save,
}
use aleyacloud_relay.Models.Tenancy.{Tenant, Brand}
use aleyacloud_relay.Models.Social.{SocialAccount, ChannelConnection}
use aleyacloud_relay.Models.Audit.{AuditLog}
use aleyacloud_relay.Store.{Db, ok}
use aleyacloud_relay.Commands.{
  is_active_brand, is_promoted, connection_id, inactive, deactivate, deactivate_all,
  revoke_promoted,
}

abbrev pub has_connection_id : ℕ → ChannelConnection → Bool
has_connection_id i c = c.id == i

abbrev pub is_live : ℕ → ChannelConnection → Bool
is_live i c = c.id == i && c.is_active

deactivate_all_other :
    (b : Brand) (i : ℕ) (cs : List ChannelConnection) (db : Db)
    → any (has_connection_id i) cs ≡ false
    → find (has_connection_id i) (deactivate_all b cs db).connections
      ≡ find (has_connection_id i) db.connections
unfolding deactivate_all any
deactivate_all_other b i [] db h = refl
deactivate_all_other b i (c ∷ cs) db h =
    deactivate_all_other b i cs (deactivate b c db) (ground arith)
    ∙ find-save_other (has_connection_id i) connection_id (inactive c) db.connections
        (λ x k. ground arith)

deactivate_all_dead :
    (b : Brand) (i : ℕ) (cs : List ChannelConnection) (db : Db)
    → find (is_live i) db.connections ≡ none
    → find (is_live i) (deactivate_all b cs db).connections ≡ none
unfolding deactivate_all
deactivate_all_dead b i [] db h = h
deactivate_all_dead b i (c ∷ cs) db h =
    deactivate_all_dead b i cs (deactivate b c db)
      (find-save_less (is_live i) connection_id (inactive c) db.connections (ground arith) h)

deactivate_all_named :
    (b : Brand) (i : ℕ) (cs : List ChannelConnection) (db : Db)
    → any (has_connection_id i) cs ≡ true
    → find (is_live i) (deactivate_all b cs db).connections ≡ none
unfolding deactivate_all any
deactivate_all_named b i [] db h = cc
deactivate_all_named b i (c ∷ cs) db h = elim (Bool-cases (c.id == i)) [
  | inl here ↦ deactivate_all_dead b i cs (deactivate b c db) (
      find-save-none (is_live i) connection_id (inactive c) db.connections (ground arith)
        (λ x k. ground arith))
  | inr away ↦ deactivate_all_named b i cs (deactivate b c db) (ground arith)
]

length-deactivate_all :
    (b : Brand) (cs : List ChannelConnection) (db : Db)
    → length (deactivate_all b cs db).connections ≡ length db.connections
unfolding deactivate_all
length-deactivate_all b [] db = refl
length-deactivate_all b (c ∷ cs) db =
    length-deactivate_all b cs (deactivate b c db)
    ∙ length-save connection_id (inactive c) db.connections

any-connection_id :
    (i : ℕ) (cs : List ChannelConnection)
    → any (λ x. x == i) (map connection_id cs) ≡ any (has_connection_id i) cs
unfolding any
any-connection_id i [] = refl
any-connection_id i (c ∷ cs) = ground (arith, any-connection_id i cs)

-- The brand that the command is run for.
abbrev pub is_named : (workspace_slug brand_slug : String) → Db → Brand → Bool
is_named workspace_slug brand_slug db b =
    str_eq b.slug brand_slug
    && (b.is_active
        && exists
            (λ (t : Tenant). t.id == b.workspace && (str_eq t.slug workspace_slug && t.is_active))
            db.tenants)

abbrev is_brand : Option ℕ → ℕ → Bool
is_brand none id = false
is_brand (some brand) id = brand == id

-- The audit entry that the retired command wrote for its copy of a connection.
abbrev pub is_copy_entry : Brand → (connection : ℕ) → AuditLog → Bool
is_copy_entry b id e =
    e.tenant == b.workspace
    && (is_brand e.brand b.id
        && (str_eq e.event_type "meta.connection_promoted"
            && (str_eq e.subject_type "channel_connection" && e.subject_id == id)))

-- An active connection of an account of the brand, with such an entry.
abbrev pub is_copy : Brand → Db → (connection : ℕ) → ChannelConnection → Bool
is_copy b db id c =
    c.id == id
    && (any (is_copy_entry b c.id) db.audit
        && (exists (λ (a : SocialAccount). a.id == c.social_account && a.brand == b.id) db.accounts
            && c.is_active))

any-select_id :
    (b : Brand) (db : Db) (i : ℕ) (cs : List ChannelConnection)
    → any (λ x. x == i) (map connection_id (select (is_promoted b db) cs)) ≡ any (is_copy b db i) cs
unfolding any select is_promoted
any-select_id b db i [] = refl
any-select_id b db i (c ∷ cs) = ground (arith, any-select_id b db i cs)

-- Where the command finds the active brand of its options: it reports exactly the ids of the active
-- connections of the brand's accounts for which the audit log of the workspace and brand has a
-- "meta.connection_promoted" entry. Without --apply it writes nothing. With it, no connection of such an
-- id is active afterwards, the connection that is found under any other id is as before, and none is
-- deleted.
pub revoke_promoted-apply :
    (workspace_slug brand_slug : String) (db : Db) {ids : List ℕ}
    → (revoke_promoted workspace_slug brand_slug true db).0 ≡ ok ids
    → (revoke_promoted workspace_slug brand_slug false db ≡ (ok ids, db))
      × ((b : Brand) × (find (is_named workspace_slug brand_slug db) db.brands ≡ some b)
          × ((i : ℕ)
              → (any (λ x. x == i) ids ≡ any (is_copy b db i) db.connections)
                × (any (is_copy b db i) db.connections ≡ true
                    → find
                        (is_live i)
                        (revoke_promoted workspace_slug brand_slug true db).1.connections
                      ≡ none)
                × (any (is_copy b db i) db.connections ≡ false
                    → find
                        (has_connection_id i)
                        (revoke_promoted workspace_slug brand_slug true db).1.connections
                      ≡ find (has_connection_id i) db.connections)))
      × (length (revoke_promoted workspace_slug brand_slug true db).1.connections
          ≡ length db.connections)
unfolding revoke_promoted
revoke_promoted-apply workspace_slug brand_slug db {ids} h =
    elim (Option-cases (find (is_active_brand workspace_slug brand_slug db) db.brands)) [
      | inl missing ↦ ground arith
      | inr (b, found) ↦
          let cs : List ChannelConnection = select (is_promoted b db) db.connections in
          let named : map connection_id cs ≡ ids = ground arith in
          let kept = length-deactivate_all b cs db in
          (
            ground arith,
            (
              b,
              found,
              λ i.
                  let listed = any-connection_id i cs in
                  let exact = any-select_id b db i db.connections in
                  let dead = deactivate_all_named b i cs db in
                  let other = deactivate_all_other b i cs db in
                  (ground arith, (λ q. ground arith), (λ q. ground arith)),
            ),
            ground arith,
          )
    ]
