-- ===== src/Crypto/Flow.antt =====
-- The loop of `persist_meta_connections` (relay/social/services.py) over the connections that Meta lists,
-- and the tokens that it leaves for the worker.
pub mod Loop
use aleyacloud_relay.Base.{
  ℕ, ◌+◌, ◌≤◌, Bool, true, false, not, ◌&&◌, String, str_eq, List, [], ◌∷◌, Option, none, some, ◌≡◌,
  refl, sym, subst, inl, inr, ap, ◌∙◌, arith, ◌==◌, if◌then◌else◌, find, count, exists, save,
  Option-cases, Bool-cases, find_sound, find-save, find-save_apart, find_same, count-save_keys,
  count_missing, exists-find, eq_iff, eq_refl,
}
use aleyacloud_relay.Models.Social.{Channel, ChannelConnection}
use aleyacloud_relay.Store.{Db, Result, ok, raise}
use aleyacloud_relay.Store.Laws.{Result-cases}
use aleyacloud_relay.Oauth.{
  MetaToken, MetaConnection, same_channel, is_connection, connection_row,
  update_or_create_connection, persist_connections,
}
use aleyacloud_relay.Crypto.{Fernet, IsFernet, encrypt_token, decrypt_token}
use aleyacloud_relay.Crypto.Stored.{
  decrypt-encrypt_token, same_channel_refl, is_connection-connection_row,
}

abbrev pub row_id : ChannelConnection → ℕ
row_id x = x.id

-- An id stands once at most.
abbrev pub HasUniqueRows : List ChannelConnection → Type 0
HasUniqueRows rows = (j : ℕ) → count (λ (x : ChannelConnection). x.id == j) rows ≤ 1

-- Both name the same channel of the account.
abbrev pub same_target : MetaConnection → MetaConnection → Bool
same_target c d =
    same_channel d.channel c.channel && str_eq d.provider_channel_id c.provider_channel_id

-- The token of the last of the connections that names the channel of c, or the given one.
unfoldable pub last_token : MetaConnection → List MetaConnection → (token : String) → String
last_token c [] token = token
last_token c (d ∷ ds) token = last_token c ds (if same_target c d then d.access_token else token)

-- What a connection writes.
pub data Write (account : ℕ) (token : MetaToken) (c : MetaConnection) (encrypted : String)
    (db after : Db) : Type 0 where
  updated :
      (old : ChannelConnection)
      → find (is_connection account c) db.connections ≡ some old
      → after.connections
        ≡ save row_id (connection_row account token c encrypted old.id) db.connections
      → Write account token c encrypted db after
  inserted :
      (new_id : ℕ)
      → find (is_connection account c) db.connections ≡ none
      → find (λ (x : ChannelConnection). x.id == new_id) db.connections ≡ none
      → after.connections ≡ connection_row account token c encrypted new_id ∷ db.connections
      → Write account token c encrypted db after

module _ (f : Fernet) (key : String) (account : ℕ) (token : MetaToken) where
  update-Write :
      (c : MetaConnection) (new_id : ℕ) (db after : Db)
      → update_or_create_connection (encrypt_token f key) account token c new_id false db
        ≡ ok (tt, after)
      → (encrypted : String) × (encrypt_token f key c.access_token ≡ ok encrypted)
        × Write account token c encrypted db after
  unfolding update_or_create_connection
  update-Write c new_id db after h = elim (Result-cases (encrypt_token f key c.access_token)) [
    | inr (e, bad) ↦ ground arith
    | inl (encrypted, good) ↦ (
      encrypted,
      good,
      elim (Option-cases (find (is_connection account c) db.connections)) [
        | inr (old, hit) ↦ updated old hit (ground arith)
        | inl miss ↦
            inserted new_id miss
              (exists-find (λ (x : ChannelConnection). x.id == new_id)
                (λ (x : ChannelConnection). x.id == new_id) db.connections (λ x h. h)
                (ground arith))
              (ground arith)
      ],
    )
  ]

  -- A loop that returned has written the first connection and then the others.
  pub persist-Write :
      (d : MetaConnection) (ds : List MetaConnection) (new_ids : ℕ → ℕ) (db after : Db)
      → persist_connections (encrypt_token f key) account token (d ∷ ds) new_ids false db
        ≡ ok (tt, after)
      → (mid : Db) × (encrypted : String) × (encrypt_token f key d.access_token ≡ ok encrypted)
        × Write account token d encrypted db mid
        × (persist_connections
              (encrypt_token f key)
              account
              token
              ds
              (λ n. new_ids (n + 1))
              false
              mid
            ≡ ok (tt, after))
  unfolding persist_connections
  persist-Write d ds new_ids db after h =
      elim (Result-cases
        (update_or_create_connection (encrypt_token f key) account token d (new_ids 0) false db)) [
          | inr (x, e) ↦ ground arith
          | inl ((v, mid), e) ↦
              let (encrypted, good, write) = update-Write d (new_ids 0) db mid e in
              (mid, encrypted, good, write, ground arith)
        ]

same_channel→eq : (a b : Channel) → same_channel a b ≡ true → a ≡ b
same_channel→eq Channel.meta_facebook_page Channel.meta_facebook_page h = refl
same_channel→eq Channel.meta_facebook_page Channel.meta_instagram_business_account h = cc
same_channel→eq Channel.meta_instagram_business_account Channel.meta_facebook_page h = cc
same_channel→eq Channel.meta_instagram_business_account Channel.meta_instagram_business_account h =
    refl

-- The row of a connection is a row of another one exactly where both name the same channel.
row_of_both :
    (account : ℕ) (c d : MetaConnection) (x : ChannelConnection)
    → is_connection account c x ≡ true
    → is_connection account d x ≡ true
    → same_target c d ≡ true
row_of_both account c d x h k =
    let one = same_channel→eq x.channel c.channel (ground arith) in
    let two = same_channel→eq x.channel d.channel (ground arith) in
    ground (
      arith,
      one,
      two,
      eq_iff x.provider_channel_id c.provider_channel_id,
      eq_iff x.provider_channel_id d.provider_channel_id,
      eq_iff d.provider_channel_id c.provider_channel_id,
      same_channel_refl c.channel,
    )

pub same_target-query :
    (account : ℕ) (c d : MetaConnection)
    → same_target c d ≡ true
    → is_connection account d ≡ is_connection account c
same_target-query account c d h =
    let channels : d.channel ≡ c.channel = same_channel→eq d.channel c.channel (ground arith) in
    let ids : d.provider_channel_id ≡ c.provider_channel_id =
      (eq_iff d.provider_channel_id c.provider_channel_id).0 (ground arith) in
    ap
      (λ (k : Channel × String). λ (x : ChannelConnection).
        x.social_account == account
        && (same_channel x.channel k.0 && str_eq x.provider_channel_id k.1))
      (λ i. (channels i, ids i))

pub other_target-row :
    (account : ℕ) (token : MetaToken) (c d : MetaConnection) (encrypted : String) (id : ℕ)
    → same_target c d ≡ false
    → is_connection account c (connection_row account token d encrypted id) ≡ false
other_target-row account token c d encrypted id h = ground arith

-- A row that two different targets find cannot be one.
pub found_apart :
    (account : ℕ) (c d : MetaConnection) (x old : ChannelConnection) (db : Db)
    → HasUniqueRows db.connections
    → same_target c d ≡ false
    → find (is_connection account c) db.connections ≡ some x
    → find (is_connection account d) db.connections ≡ some old
    → (x.id == old.id) ≡ false
found_apart account c d x old db once other found hit = elim (Bool-cases (x.id == old.id)) [
  | inr apart ↦ apart
  | inl same ↦
      let one : x ≡ old =
        find_same row_id (is_connection account c) (is_connection account d) x old db.connections
          (once x.id) (ground arith) found hit in
      let both =
        row_of_both account c d x (find_sound (is_connection account c) x db.connections found) (
          subst (λ y. is_connection account d y ≡ true) (sym one)
            (find_sound (is_connection account d) old db.connections hit)) in
      ground arith
]
