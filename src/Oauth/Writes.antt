-- ===== src/Oauth/Writes.antt =====
-- Which tables the OAuth flow of relay/social/services.py writes, and that it leaves all others alone.
use aleyacloud_relay.Base.{ℕ, ◌+◌, false, String, List, [], ◌∷◌, ◌≡◌, refl, inl, inr, arith}
use aleyacloud_relay.Models.Social.{SocialAccount, OAuthState}
use aleyacloud_relay.Store.{Db, Result, ok, raise}
use aleyacloud_relay.Store.Laws.{Result-cases, Logs}
use aleyacloud_relay.Oauth.{
  MetaToken, MetaConnection, MetaIdentity, consume_oauth_state, update_or_create_account,
  update_or_create_connection, persist_connections, persist_meta_connections, connect_with,
  complete_meta_oauth,
}

pub account_writes :
    (tenant brand : ℕ) (identity : MetaIdentity) (account_id : ℕ) (db : Db) {a : SocialAccount}
    {after : Db}
    → update_or_create_account tenant brand identity account_id false db ≡ ok (a, after)
    → after ≡ record db { accounts = after.accounts }
unfolding update_or_create_account
account_writes tenant brand identity account_id db h = ground arith

-- What the storage of the connections may change.
abbrev pub Stores : (db after : Db) → Type 0
Stores db after =
    (after ≡ record db {
      accounts = after.accounts;
      connections = after.connections;
      audit = after.audit;
    })
    × Logs db.audit after.audit

module _ (encrypt_token : String → Result String) where
  connection_writes :
      (account : ℕ) (token : MetaToken) (c : MetaConnection) (new_id : ℕ) (db : Db) {u : Unit {0}}
      {after : Db}
      → update_or_create_connection encrypt_token account token c new_id false db ≡ ok (u, after)
      → after ≡ record db { connections = after.connections }
  unfolding update_or_create_connection
  connection_writes account token c new_id db h = ground arith

  connections_writes :
      (account : ℕ) (token : MetaToken) (cs : List MetaConnection) (new_ids : ℕ → ℕ) (db : Db)
      {u : Unit {0}} {after : Db}
      → persist_connections encrypt_token account token cs new_ids false db ≡ ok (u, after)
      → after ≡ record db { connections = after.connections }
  unfolding persist_connections
  connections_writes account token [] new_ids db h = ground arith
  connections_writes account token (c ∷ cs) new_ids db {u} {after} h =
      elim (Result-cases
        (update_or_create_connection encrypt_token account token c (new_ids 0) false db)) [
          | inr (x, e) ↦ ground arith
          | inl ((v, mid), e) ↦ ground (
            arith,
            connection_writes account token c (new_ids 0) db {u = v} {after = mid} e,
            connections_writes account token cs (λ n. new_ids (n + 1)) mid {u = u} {after = after},
          )
        ]

  pub persist_writes :
      (tenant brand : ℕ) (subject : String) (token : MetaToken) (identity : MetaIdentity)
      (account_id : ℕ) (new_ids : ℕ → ℕ) (db : Db)
      → Stores db
          (persist_meta_connections encrypt_token tenant brand subject token identity account_id
            new_ids db).1
  unfolding persist_meta_connections
  persist_writes tenant brand subject token identity account_id new_ids db =
      elim (Result-cases (update_or_create_account tenant brand identity account_id false db)) [
        | inr (x, e) ↦ (ground arith, inl (ground arith))
        | inl ((account, mid), e) ↦
            let stored =
              account_writes tenant brand identity account_id db {a = account} {after = mid} e in
            elim (Result-cases (
              persist_connections encrypt_token account.id token identity.connections new_ids false
                mid)) [
                  | inr (x, f) ↦ (ground arith, inl (ground arith))
                  | inl ((u, after), f) ↦
                      let more =
                        connections_writes account.id token identity.connections new_ids mid {u = u}
                          {after = after} f in
                      (ground arith, inr (ground arith))
                ]
      ]

  connect_writes :
      (connect : List ℕ → Result (MetaToken × MetaIdentity)) (code : List ℕ) (account_id : ℕ)
      (new_ids : ℕ → ℕ) (r : Result OAuthState × Db)
      → Stores r.1 (connect_with encrypt_token connect code account_id new_ids r).1
  unfolding connect_with
  connect_writes connect code account_id new_ids (raise e, db) = (refl, inl refl)
  connect_writes connect code account_id new_ids (ok s, db) = elim (Result-cases (connect code)) [
    | inr (x, e) ↦ (ground arith, inl (ground arith))
    | inl ((token, identity), e) ↦
        let (tables, log) =
          persist_writes s.tenant s.brand s.subject token identity account_id new_ids db in
        ground arith
  ]

  -- What follows the use of a state writes accounts, connections and one audit entry at most, and
  -- nothing else.
  pub complete_writes :
      (sha256 : List ℕ → ℕ) (connect : List ℕ → Result (MetaToken × MetaIdentity))
      (code raw_state : List ℕ) (checked used account_id : ℕ) (new_ids : ℕ → ℕ) (db : Db)
      → Stores
          (consume_oauth_state sha256 raw_state checked used db).1
          (complete_meta_oauth encrypt_token sha256 connect code raw_state checked used account_id
            new_ids db).1
  unfolding complete_meta_oauth
  complete_writes sha256 connect code raw_state checked used account_id new_ids db =
      connect_writes connect code account_id new_ids
        (consume_oauth_state sha256 raw_state checked used db)

-- The use of a state writes the states alone.
pub consume_writes :
    (sha256 : List ℕ → ℕ) (raw_state : List ℕ) (checked used : ℕ) (db : Db)
    → let after : Db = (consume_oauth_state sha256 raw_state checked used db).1 in
      after ≡ record db { oauth_states = after.oauth_states }
unfolding consume_oauth_state
consume_writes sha256 raw_state checked used db = ground arith
