-- ===== src/Tests/Connecting.antt =====
-- Runs of the OAuth flow of relay/social/services.py on the test data.
use aleyacloud_relay.Base.{
  ℕ, ◌+◌, String, List, [], ◌∷◌, none, some, ◌≡◌, refl, codes, find, exists, save,
}
use aleyacloud_relay.Models.Social.{OAuthState}
use aleyacloud_relay.Store.{Db, Result, ok, raise, invalid_oauth_state, meta_provider_error}
use aleyacloud_relay.Oauth.{
  MetaToken, MetaIdentity, new_state, start_meta_oauth, consume_oauth_state, complete_meta_oauth,
}
use aleyacloud_relay.Oauth.State.{start-consume}
use aleyacloud_relay.Oauth.Burn.{complete_once}
use aleyacloud_relay.Tests.{digest, start_db}

abbrev raw_state : List ℕ
raw_state = codes "state"

abbrev login_url : List ℕ → Result (List ℕ)
login_url state = ok state

abbrev started_db : Db
started_db = (start_meta_oauth digest login_url 1 10 "ana" raw_state 900 1000 start_db).1

abbrev started_state : OAuthState
started_state = new_state digest 1 10 "ana" raw_state 900 1000

started :
    (start_meta_oauth digest login_url 1 10 "ana" raw_state 900 1000 start_db).0 ≡ ok raw_state
unfolding start_meta_oauth exists find
started = refl

start-consume_example : consume_oauth_state digest raw_state 1599 1599 started_db ≡ (
  ok (record started_state { used_at = some 1599 }),
  record start_db {
    oauth_states =
        save
          (λ (x : OAuthState). x.id)
          (record started_state { used_at = some 1599 })
          (started_state ∷ []);
  },
)
unfolding save
start-consume_example =
    start-consume digest login_url 1 10 "ana" raw_state 900 1000 1599 1599 start_db
      {url = raw_state} started

consumed :
    (consume_oauth_state digest raw_state 1100 1101 started_db).0
    ≡ ok (record started_state { used_at = some 1101 })
unfolding consume_oauth_state start_meta_oauth exists find
consumed = refl

-- Meta refuses the code.
abbrev refused : List ℕ → Result (MetaToken × MetaIdentity)
refused code = raise meta_provider_error

abbrev accepted : List ℕ → Result (MetaToken × MetaIdentity)
accepted code = ok (
  record { access_token = "user"; expires_at = none },
  record { provider_account_id = "me"; display_name = "Me"; connections = [] },
)

abbrev plain : String → Result String
plain s = ok s

abbrev new_ids : ℕ → ℕ
new_ids n = 1000 + n

abbrev refused_db : Db
refused_db =
    (complete_meta_oauth plain digest refused (codes "code") raw_state 1100 1101 501 new_ids
      started_db).1

complete_once_example :
    complete_meta_oauth plain digest accepted
      (codes "other code")
      raw_state
      1200
      1201
      502
      new_ids
      refused_db
    ≡ (raise invalid_oauth_state, refused_db)
complete_once_example =
    complete_once plain digest refused accepted raw_state (codes "code") (codes "other code") 1100
      1200 1101 1201 501 502 new_ids new_ids started_db
      {s = record started_state { used_at = some 1101 }} consumed
