-- ===== src/Oauth/State.antt =====
-- The OAuth state of relay/social/services.py: it is good for one use, and it fixes the brand that
-- is connected.
use aleyacloud_relay.Base.{
  ℕ, ◌+◌, true, false, String, List, ◌∷◌, some, ◌≡◌, inl, inr, ap, ◌∙◌, arith, leb, if◌then◌else◌,
  find, save, find-save, find_sound, Option-cases, ==_refl,
}
use aleyacloud_relay.Models.Social.{OAuthState}
use aleyacloud_relay.Store.{Db, Result, ok, raise, invalid_oauth_state}
use aleyacloud_relay.Oauth.{
  has_state_digest, new_state, start_meta_oauth, is_spent, consume_oauth_state,
}

module _ (sha256 : List ℕ → ℕ) where
  -- A state that was used, or whose ten minutes are over, is refused.
  pub consume_spent :
      (raw : List ℕ) (t u : ℕ) (db : Db) (s : OAuthState)
      → find (has_state_digest (sha256 raw)) db.oauth_states ≡ some s
      → is_spent t s ≡ true
      → consume_oauth_state sha256 raw t u db ≡ (raise invalid_oauth_state, db)
  unfolding consume_oauth_state
  consume_spent raw t u db s found spent = ground arith

  -- What a use finds and leaves.
  pub consume-ok :
      (raw : List ℕ) (t u : ℕ) (db : Db) {s : OAuthState}
      → (consume_oauth_state sha256 raw t u db).0 ≡ ok s
      → (old : OAuthState) × ((find (has_state_digest (sha256 raw)) db.oauth_states ≡ some old)
          × (is_spent t old ≡ false)
          × (s ≡ record old { used_at = some u })
          × ((consume_oauth_state sha256 raw t u db).1
              ≡ record db { oauth_states = save (λ (x : OAuthState). x.id) s db.oauth_states }))
  unfolding consume_oauth_state
  consume-ok raw t u db {s} h =
      elim (Option-cases (find (has_state_digest (sha256 raw)) db.oauth_states)) [
        | inl missing ↦ ground arith
        | inr (old, found) ↦ (old, ground arith)
      ]

  -- After a use the state is found as used.
  pub consume_stored :
      (raw : List ℕ) (t u : ℕ) (db : Db) {s : OAuthState}
      → (consume_oauth_state sha256 raw t u db).0 ≡ ok s
      → (find (has_state_digest (sha256 raw)) (consume_oauth_state sha256 raw t u db).1.oauth_states
          ≡ some s)
        × (s.used_at ≡ some u)
  consume_stored raw t u db {s} h =
      let (old, (found, _, e, after)) = consume-ok raw t u db h in
      let fits = find_sound (has_state_digest (sha256 raw)) old db.oauth_states found in
      (
        ap (λ (x : Db). find (has_state_digest (sha256 raw)) x.oauth_states) after
            ∙ find-save (has_state_digest (sha256 raw)) (λ (x : OAuthState). x.id) old s
                db.oauth_states (ap (λ (x : OAuthState). x.id) e) (rw e fits) found,
        ap (λ (x : OAuthState). x.used_at) e,
      )

  -- After a `start_meta_oauth` that returned, `consume_oauth_state` with its raw state is refused from ten
  -- minutes after the start on, and before that returns and stores the new state of that tenant, brand
  -- and subject as used.
  pub start-consume :
      (authorization_url : List ℕ → Result (List ℕ)) (tenant brand : ℕ) (subject : String)
      (raw : List ℕ) (state_id now t u : ℕ) (db : Db) {url : List ℕ}
      → (start_meta_oauth sha256 authorization_url tenant brand subject raw state_id now db).0
        ≡ ok url
      → consume_oauth_state sha256 raw t u
          (start_meta_oauth sha256 authorization_url tenant brand subject raw state_id now db).1
        ≡ (if leb (now + 600) t
            then (
              raise invalid_oauth_state,
              (start_meta_oauth sha256 authorization_url tenant brand subject raw state_id now
                  db).1,
            )
            else (
              ok (record (new_state sha256 tenant brand subject raw state_id now) {
                used_at = some u;
              }),
              record db {
                oauth_states =
                    save
                      (λ (x : OAuthState). x.id)
                      (record (new_state sha256 tenant brand subject raw state_id now) {
                        used_at = some u;
                      })
                      (new_state sha256 tenant brand subject raw state_id now ∷ db.oauth_states);
              },
            ))
  unfolding start_meta_oauth consume_oauth_state find
  start-consume authorization_url tenant brand subject raw state_id now t u db h =
      ground (arith, ==_refl (sha256 raw))
