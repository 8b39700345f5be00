-- ===== src/Crypto/Flow/Loop.antt =====
-- The loop of `persist_meta_connections` (relay/social/services.py): what the worker decrypts after it.
use aleyacloud_relay.Base.{
  ℕ, ◌+◌, false, String, List, [], ◌∷◌, some, ◌≡◌, refl, subst, inl, inr, arith, if◌then◌else◌,
  find, count, Bool-cases, find-save, find-save_apart, count-save_keys, count_missing,
}
use aleyacloud_relay.Models.Social.{ChannelConnection, SocialAccount}
use aleyacloud_relay.Store.{Db, ok}
use aleyacloud_relay.Store.Laws.{Result-cases}
use aleyacloud_relay.Oauth.{
  MetaToken, MetaConnection, is_connection, connection_row, persist_connections, MetaIdentity,
  update_or_create_account, persist_meta_connections,
}
use aleyacloud_relay.Oauth.Writes.{account_writes}
use aleyacloud_relay.Crypto.{Fernet, IsFernet, encrypt_token, decrypt_token}
use aleyacloud_relay.Crypto.Stored.{decrypt-encrypt_token, is_connection-connection_row}
use aleyacloud_relay.Crypto.Flow.{
  row_id, HasUniqueRows, same_target, last_token, Write, updated, inserted, persist-Write,
  same_target-query, other_target-row, found_apart,
}

module _ (f : Fernet) (laws : IsFernet f) (key : String) (account : ℕ) (token : MetaToken) where
  -- The row of a connection is found, its stored text decrypts to the token, and it expires when
  -- Meta said.
  abbrev pub Holds : List ChannelConnection → MetaConnection → (access_token : String) → Type 0
  Holds rows c access_token =
      (x : ChannelConnection) × (find (is_connection account c) rows ≡ some x)
      × (decrypt_token f key x.encrypted_access_token ≡ ok access_token)
      × (x.token_expires_at ≡ token.expires_at)

  Write-HasUniqueRows :
      (d : MetaConnection) (encrypted : String) (db after : Db)
      → HasUniqueRows db.connections
      → Write account token d encrypted db after
      → HasUniqueRows after.connections
  unfolding count
  Write-HasUniqueRows d encrypted db after once (updated old hit saved) = rw saved (λ j. omega (
    arith,
    once j,
    count-save_keys row_id j (connection_row account token d encrypted old.id) db.connections,
  ))
  Write-HasUniqueRows d encrypted db after once (inserted new_id miss free added) =
      rw added (λ j. ground (arith, once j, count_missing row_id new_id db.connections free))

  -- A connection that has been written holds its token.
  Write-Holds :
      (d : MetaConnection) (encrypted : String) (db after : Db)
      → encrypt_token f key d.access_token ≡ ok encrypted
      → Write account token d encrypted db after
      → Holds after.connections d d.access_token
  unfolding find
  Write-Holds d encrypted db after good (updated old hit saved) =
      let row = connection_row account token d encrypted old.id in
      (
        row,
        rw saved (
            find-save (is_connection account d) row_id old row db.connections refl
              (is_connection-connection_row account token d encrypted old.id) hit),
        decrypt-encrypt_token f laws key d.access_token good,
        refl,
      )
  Write-Holds d encrypted db after good (inserted new_id miss free added) =
      let row = connection_row account token d encrypted new_id in
      (
        row,
        rw added (ground (arith, is_connection-connection_row account token d encrypted new_id)),
        decrypt-encrypt_token f laws key d.access_token good,
        refl,
      )

  -- A write of another channel leaves a row alone.
  Write-find :
      (c d : MetaConnection) (encrypted : String) (db after : Db) (x : ChannelConnection)
      → HasUniqueRows db.connections
      → same_target c d ≡ false
      → find (is_connection account c) db.connections ≡ some x
      → Write account token d encrypted db after
      → find (is_connection account c) after.connections ≡ some x
  Write-find c d encrypted db after x once other found (updated old hit saved) =
      let row = connection_row account token d encrypted old.id in
      rw saved (
        find-save_apart (is_connection account c) row_id x row db.connections
          (other_target-row account token c d encrypted old.id other)
          (found_apart account c d x old db once other found hit) found)
  Write-find c d encrypted db after x once other found (inserted new_id miss free added) =
      rw added
        (unfold find in ground (arith, other_target-row account token c d encrypted new_id other))

  step-Holds :
      (c d : MetaConnection) (encrypted access_token : String) (db after : Db)
      → HasUniqueRows db.connections
      → encrypt_token f key d.access_token ≡ ok encrypted
      → Write account token d encrypted db after
      → Holds db.connections c access_token
      → Holds after.connections c (if same_target c d then d.access_token else access_token)
  step-Holds c d encrypted access_token db after once good write (x, found, stored, expires) =
      elim (Bool-cases (same_target c d)) [
        | inl same ↦ rw same (
            rw (← same_target-query account c d same) (Write-Holds d encrypted db after good write))
        | inr other ↦
            rw other
              (x, Write-find c d encrypted db after x once other found write, stored, expires)
      ]

  -- The rest of the loop.
  persist_connections-Holds :
      (cs : List MetaConnection) (new_ids : ℕ → ℕ) (c : MetaConnection) (access_token : String)
      (db after : Db)
      → HasUniqueRows db.connections
      → Holds db.connections c access_token
      → persist_connections (encrypt_token f key) account token cs new_ids false db ≡ ok (tt, after)
      → Holds after.connections c (last_token c cs access_token)
  unfolding persist_connections last_token
  persist_connections-Holds [] new_ids c access_token db after once held h =
      let same : db ≡ after = cc in subst (λ (d : Db). Holds d.connections c access_token) same held
  persist_connections-Holds (d ∷ ds) new_ids c access_token db after once held h =
      let (mid, encrypted, good, write, rest) =
        persist-Write f key account token d ds new_ids db after h in
      persist_connections-Holds ds (λ n. new_ids (n + 1)) c
        (if same_target c d then d.access_token else access_token) mid after
        (Write-HasUniqueRows d encrypted db mid once write)
        (step-Holds c d encrypted access_token db mid once good write held) rest

  -- Each of the connections holds the token that the last one of its channel carries.
  abbrev pub HoldsAll : List ChannelConnection → List MetaConnection → Type 0
  HoldsAll rows [] = Unit {0}
  HoldsAll rows (c ∷ cs) = Holds rows c (last_token c cs c.access_token) × HoldsAll rows cs

  pub persist_connections-HoldsAll :
      (cs : List MetaConnection) (new_ids : ℕ → ℕ) (db after : Db)
      → HasUniqueRows db.connections
      → persist_connections (encrypt_token f key) account token cs new_ids false db ≡ ok (tt, after)
      → HoldsAll after.connections cs
  persist_connections-HoldsAll [] new_ids db after once h = tt
  persist_connections-HoldsAll (c ∷ cs) new_ids db after once h =
      let (mid, encrypted, good, write, rest) =
        persist-Write f key account token c cs new_ids db after h in
      let still = Write-HasUniqueRows c encrypted db mid once write in
      (
        persist_connections-Holds cs (λ n. new_ids (n + 1)) c c.access_token mid after still
            (Write-Holds c encrypted db mid good write) rest,
        persist_connections-HoldsAll cs (λ n. new_ids (n + 1)) mid after still rest,
      )

module _ (f : Fernet) (laws : IsFernet f) (key : String) where
  -- Where the connections that are stored have ids of their own, a storage of what Meta lists that
  -- returns leaves a row for every connection of the list under the returned account, and the text that
  -- this row stores decrypts under the same key: to the access token of the last connection of the list
  -- that names the same channel and the same Meta id. The row expires when Meta said.
  pub persist_meta_connections-HoldsAll :
      (tenant brand : ℕ) (subject : String) (token : MetaToken) (identity : MetaIdentity)
      (account_id : ℕ) (new_ids : ℕ → ℕ) (db after : Db) {stored : SocialAccount}
      → HasUniqueRows db.connections
      → persist_meta_connections
          (encrypt_token f key)
          tenant
          brand
          subject
          token
          identity
          account_id
          new_ids
          db
        ≡ (ok stored, after)
      → HoldsAll f laws key stored.id token after.connections identity.connections
  unfolding persist_meta_connections
  persist_meta_connections-HoldsAll tenant brand subject token identity account_id new_ids db after
        {stored} once h =
      elim (Result-cases (update_or_create_account tenant brand identity account_id false db)) [
        | inr (x, e) ↦ ground arith
        | inl ((account, mid), e) ↦
            let writes =
              account_writes tenant brand identity account_id db {a = account} {after = mid} e in
            let before : HasUniqueRows mid.connections = subst HasUniqueRows (ground arith) once in
            elim (Result-cases (
              persist_connections (encrypt_token f key) account.id token identity.connections
                new_ids false mid)) [
                  | inr (x, g) ↦ ground arith
                  | inl ((u, done), g) ↦
                      let same : account ≡ stored = ground arith in
                      let rows : done.connections ≡ after.connections = ground arith in
                      rw (← rows) (
                        rw (← same) (
                          persist_connections-HoldsAll f laws key account.id token
                            identity.connections new_ids mid done before g))
                ]
      ]
