-- ===== src/Oauth/Burn.antt =====
-- `complete_meta_oauth` of relay/social/services.py after its state was consumed: nothing that follows
-- gives the state back.
use aleyacloud_relay.Base.{ℕ, true, String, List, some, ◌≡◌, refl, ap, ◌∙◌, find}
use aleyacloud_relay.Models.Social.{OAuthState}
use aleyacloud_relay.Store.{Db, Result, ok, raise, invalid_oauth_state}
use aleyacloud_relay.Oauth.{
  MetaToken, MetaIdentity, has_state_digest, is_spent, consume_oauth_state, connect_with,
  complete_meta_oauth,
}
use aleyacloud_relay.Oauth.Writes.{complete_writes}
use aleyacloud_relay.Oauth.State.{consume_spent, consume_stored}

used-is_spent : (now : ℕ) {u : ℕ} (s : OAuthState) → s.used_at ≡ some u → is_spent now s ≡ true
used-is_spent now s h = rw h refl

module _ (encrypt_token : String → Result String) where
  complete_refused :
      (sha256 : List ℕ → ℕ) (connect : List ℕ → Result (MetaToken × MetaIdentity))
      (code raw_state : List ℕ) (checked used account_id : ℕ) (new_ids : ℕ → ℕ) (db : Db)
      → consume_oauth_state sha256 raw_state checked used db ≡ (raise invalid_oauth_state, db)
      → complete_meta_oauth encrypt_token sha256 connect code raw_state checked used account_id
          new_ids db
        ≡ (raise invalid_oauth_state, db)
  unfolding complete_meta_oauth connect_with
  complete_refused sha256 connect code raw_state checked used account_id new_ids db h = rw h refl

  complete_states :
      (sha256 : List ℕ → ℕ) (connect : List ℕ → Result (MetaToken × MetaIdentity))
      (code raw_state : List ℕ) (checked used account_id : ℕ) (new_ids : ℕ → ℕ) (db : Db)
      → (complete_meta_oauth encrypt_token sha256 connect code raw_state checked used account_id
          new_ids db).1.oauth_states
        ≡ (consume_oauth_state sha256 raw_state checked used db).1.oauth_states
  complete_states sha256 connect code raw_state checked used account_id new_ids db =
      ap (λ (x : Db). x.oauth_states)
        (complete_writes encrypt_token sha256 connect code raw_state checked used account_id new_ids
          db).0

  -- Once `complete_meta_oauth` has accepted a state, every later call with the same raw state is
  -- refused and changes nothing, at any time and with any code, also when what followed the
  -- acceptance (the exchange of the code, the storage of the connections) failed.
  pub complete_once :
      (sha256 : List ℕ → ℕ) (connect connect' : List ℕ → Result (MetaToken × MetaIdentity))
      (raw_state code code' : List ℕ) (checked checked' used used' account_id account_id' : ℕ)
      (new_ids new_ids' : ℕ → ℕ) (db : Db) {s : OAuthState}
      → (consume_oauth_state sha256 raw_state checked used db).0 ≡ ok s
      → complete_meta_oauth encrypt_token sha256 connect' code' raw_state checked' used' account_id'
          new_ids'
          (complete_meta_oauth encrypt_token sha256 connect code raw_state checked used account_id
            new_ids db).1
        ≡ (
          raise invalid_oauth_state,
          (complete_meta_oauth encrypt_token sha256 connect code raw_state checked used account_id
              new_ids db).1,
        )
  complete_once sha256 connect connect' raw_state code code' checked checked' used used' account_id
        account_id' new_ids new_ids' db {s} h =
      let (found, spent) = consume_stored sha256 raw_state checked used db h in
      let after =
        (complete_meta_oauth encrypt_token sha256 connect code raw_state checked used account_id
          new_ids db).1 in
      complete_refused sha256 connect' code' raw_state checked' used' account_id' new_ids' after (
        consume_spent sha256 raw_state checked' used' after s
          (ap (find (has_state_digest (sha256 raw_state)))
              (complete_states sha256 connect code raw_state checked used account_id new_ids db)
            ∙ found)
          (used-is_spent checked' s spent))
