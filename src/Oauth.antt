-- ===== src/Oauth.antt =====
-- relay/social/services.py: the OAuth flow that connects a brand to Meta. `MetaOAuthClient` and
-- `encrypt_token` are arguments here: each answers with a value or with its exception. What
-- `timezone.now`, `uuid4` and `secrets.token_urlsafe` return is an argument too.
pub mod State
pub mod Writes
pub mod Burn
use aleyacloud_relay.Base.{
  ℕ, ◌+◌, Bool, true, false, ◌&&◌, ◌||◌, String, str_eq, List, [], ◌∷◌, Option, none, some, leb,
  ◌==◌, find, exists, save, is_some, length,
}
use aleyacloud_relay.Models.Audit.{Value}
use aleyacloud_relay.Models.Social.{Provider, Channel, SocialAccount, ChannelConnection, OAuthState}
use aleyacloud_relay.Store.{
  Db, Result, ok, raise, invalid_oauth_state, Tx, pure, ◌>>=◌, ◌>>◌, raise_if, query, get, write,
  insert, atomic, log,
}

pub record MetaToken : Type 0 where
  pub access_token : String
  pub expires_at : Option ℕ

pub record MetaConnection : Type 0 where
  pub channel : Channel
  pub provider_channel_id : String
  pub display_name : String
  pub access_token : String

pub record MetaIdentity : Type 0 where
  pub provider_account_id : String
  pub display_name : String
  pub connections : List MetaConnection

-- `MetaOAuthClient.scopes`
abbrev pub scopes : List String
scopes =
    "public_profile" ∷ "pages_show_list" ∷ "pages_read_engagement" ∷ "pages_manage_posts"
    ∷ "instagram_basic" ∷ "instagram_content_publish" ∷ []

-- A value of another component, or its exception.
abbrev pub lift : {A : Type 0} → Result A → Tx A
lift r broken db = elim r [ ok a ↦ ok (a, db) | raise e ↦ raise e ]

abbrev pub has_state_digest : ℕ → OAuthState → Bool
has_state_digest digest s = s.state_digest == digest

abbrev pub save_state : OAuthState → Db → Db
save_state s db = record db { oauth_states = save (λ (x : OAuthState). x.id) s db.oauth_states }

abbrev pub state_clash : OAuthState → Db → Bool
state_clash s db =
    exists (λ (x : OAuthState). x.id == s.id || has_state_digest s.state_digest x) db.oauth_states

-- `not state or state.used_at or state.expires_at <= timezone.now()`
abbrev pub is_spent : (now : ℕ) → OAuthState → Bool
is_spent now s = is_some s.used_at || leb s.expires_at now

-- Ten minutes.
abbrev pub state_ttl : ℕ
state_ttl = 600

module _ (sha256 : List ℕ → ℕ) where
  abbrev pub new_state :
      (tenant brand : ℕ) (subject : String) (raw_state : List ℕ) (state_id now : ℕ) → OAuthState
  new_state tenant brand subject raw_state state_id now = record {
    id = state_id;
    tenant = tenant;
    brand = brand;
    state_digest = sha256 raw_state;
    subject = subject;
    expires_at = now + state_ttl;
    used_at = none;
  }

  -- `authorization_url` is `MetaOAuthClient().authorization_url`.
  unfoldable pub start_meta_oauth :
      (authorization_url : List ℕ → Result (List ℕ)) (tenant brand : ℕ) (subject : String)
      (raw_state : List ℕ) (state_id now : ℕ)
      → Db
      → Result (List ℕ) × Db
  start_meta_oauth authorization_url tenant brand subject raw_state state_id now = atomic (do
    let state : OAuthState = new_state tenant brand subject raw_state state_id now
    insert (state_clash state) (λ db. record db { oauth_states = state ∷ db.oauth_states })
    lift (authorization_url raw_state))

  unfoldable pub consume_oauth_state :
      (raw_state : List ℕ) (checked used : ℕ) → Db → Result OAuthState × Db
  consume_oauth_state raw_state checked used = atomic (do
    state ←
        get (λ db. find (has_state_digest (sha256 raw_state)) db.oauth_states) invalid_oauth_state
    raise_if (is_spent checked state) invalid_oauth_state
    let state' : OAuthState = record state { used_at = some used }
    write (save_state state')
    pure state')

-- The look-up of `SocialAccount.objects.update_or_create`.
abbrev pub is_account : (tenant brand : ℕ) (provider_account_id : String) → SocialAccount → Bool
is_account tenant brand provider_id a =
    a.tenant == tenant && (a.brand == brand && str_eq a.provider_account_id provider_id)

abbrev pub save_account : SocialAccount → Db → Db
save_account a db = record db { accounts = save (λ (x : SocialAccount). x.id) a db.accounts }

-- The primary key or the constraint unique_social_account_per_tenant.
abbrev pub account_clash : SocialAccount → Db → Bool
account_clash a db =
    exists
      (λ (x : SocialAccount).
        x.id == a.id
        || (x.tenant == a.tenant && str_eq x.provider_account_id a.provider_account_id))
      db.accounts

unfoldable pub update_or_create_account :
    (tenant brand : ℕ) → MetaIdentity → (account_id : ℕ) → Tx SocialAccount
update_or_create_account tenant brand identity account_id = do
  existing ← query (λ db. find (is_account tenant brand identity.provider_account_id) db.accounts)
  elim existing [
    | some a ↦
        write (save_account (record a { display_name = identity.display_name }))
        >> pure (record a { display_name = identity.display_name })
    | none ↦ (do
      let account : SocialAccount = record {
        id = account_id;
        tenant = tenant;
        brand = brand;
        provider = Provider.meta;
        provider_account_id = identity.provider_account_id;
        display_name = identity.display_name;
      }
      insert (account_clash account) (λ db. record db { accounts = account ∷ db.accounts })
      pure account)
  ]

abbrev pub same_channel : Channel → Channel → Bool
same_channel Channel.meta_facebook_page Channel.meta_facebook_page = true
same_channel Channel.meta_instagram_business_account Channel.meta_instagram_business_account = true
same_channel _ _ = false

abbrev pub is_connection : (account : ℕ) → MetaConnection → ChannelConnection → Bool
is_connection account c x =
    x.social_account == account
    && (same_channel x.channel c.channel && str_eq x.provider_channel_id c.provider_channel_id)

abbrev pub save_connection : ChannelConnection → Db → Db
save_connection c db = record db {
  connections = save (λ (x : ChannelConnection). x.id) c db.connections;
}

-- The row with the `defaults` of the call.
abbrev pub connection_row :
    (account : ℕ) → MetaToken → MetaConnection → (encrypted : String) (id : ℕ) → ChannelConnection
connection_row account token c encrypted id = record {
  id = id;
  social_account = account;
  channel = c.channel;
  provider_channel_id = c.provider_channel_id;
  display_name = c.display_name;
  encrypted_access_token = encrypted;
  token_expires_at = token.expires_at;
  granted_scopes = scopes;
  is_active = true;
}

module _ (encrypt_token : String → Result String) where
  -- `ChannelConnection.objects.update_or_create`, where a new row takes the id `new_id`.
  unfoldable pub update_or_create_connection :
      (account : ℕ) → MetaToken → MetaConnection → (new_id : ℕ) → Tx (Unit {0})
  update_or_create_connection account token c new_id = do
    encrypted ← lift (encrypt_token c.access_token)
    existing ← query (λ db. find (is_connection account c) db.connections)
    elim existing [
      | some x ↦ write (save_connection (connection_row account token c encrypted x.id))
      | none ↦
          insert (λ db. exists (λ (x : ChannelConnection). x.id == new_id) db.connections)
            (λ db. record db {
              connections = connection_row account token c encrypted new_id ∷ db.connections;
            })
    ]

  -- The loop over the connections of the identity; `new_ids` gives an id for each.
  unfoldable pub persist_connections :
      (account : ℕ) → MetaToken → List MetaConnection → (new_ids : ℕ → ℕ) → Tx (Unit {0})
  persist_connections account token [] new_ids = pure tt
  persist_connections account token (c ∷ cs) new_ids =
      let others = persist_connections account token cs (λ n. new_ids (n + 1)) in
      update_or_create_connection account token c (new_ids 0) >> others

  unfoldable pub persist_meta_connections :
      (tenant brand : ℕ) (subject : String)
      → MetaToken
      → MetaIdentity
      → (account_id : ℕ) (new_ids : ℕ → ℕ) → Db
      → Result SocialAccount × Db
  persist_meta_connections tenant brand subject token identity account_id new_ids = atomic (do
    account ← update_or_create_account tenant brand identity account_id
    persist_connections account.id token identity.connections new_ids
    log (record {
      tenant = tenant;
      brand = some brand;
      actor_type = "service";
      actor_id = Value.text subject;
      event_type = "meta.connection_created";
      subject_type = "social_account";
      subject_id = account.id;
      metadata = ("connection_count", Value.number (length identity.connections)) ∷ [];
    })
    pure account)

  -- What follows a state that was consumed.
  unfoldable pub connect_with :
      (connect : List ℕ → Result (MetaToken × MetaIdentity)) (code : List ℕ) (account_id : ℕ)
      (new_ids : ℕ → ℕ)
      → Result OAuthState × Db
      → Result SocialAccount × Db
  connect_with connect code account_id new_ids (raise e, db) = (raise e, db)
  connect_with connect code account_id new_ids (ok state, db) = elim (connect code) [
    | raise e ↦ (raise e, db)
    | ok (token, identity) ↦
        persist_meta_connections state.tenant state.brand state.subject token identity account_id
          new_ids db
  ]

  unfoldable pub complete_meta_oauth :
      (sha256 : List ℕ → ℕ) (connect : List ℕ → Result (MetaToken × MetaIdentity))
      (code raw_state : List ℕ) (checked used account_id : ℕ) (new_ids : ℕ → ℕ)
      → Db
      → Result SocialAccount × Db
  complete_meta_oauth sha256 connect code raw_state checked used account_id new_ids db =
      connect_with connect code account_id new_ids
        (consume_oauth_state sha256 raw_state checked used db)
