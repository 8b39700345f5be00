-- ===== src/Views/Connecting.antt =====
-- relay/api/views.py: the handlers of the OAuth flow. A `brand_id` that is absent or empty is none; one
-- that is no UUID is `some none`.
use aleyacloud_relay.Base.{
  ℕ, not, String, List, [], ◌∷◌, Option, none, some, if◌then◌else◌, ◌||◌, is_empty,
}
use aleyacloud_relay.Models.Tenancy.{MembershipRole}
use aleyacloud_relay.Models.Social.{SocialAccount}
use aleyacloud_relay.Store.{
  Db, Error, Result, invalid_oauth_state, meta_configuration_error, meta_provider_error,
  token_encryption_error, name_error,
}
use aleyacloud_relay.Access.{RelayPrincipal, Requirement, has_permission, get_brand}
use aleyacloud_relay.Oauth.{MetaToken, MetaIdentity, start_meta_oauth, complete_meta_oauth}
use aleyacloud_relay.Views.{Answer, reply, refused, crashed, answer, ◌>>=◌}

abbrev pub connections_write : Requirement
connections_write = record {
  required_scope = some "connections:write";
  required_roles = some (MembershipRole.owner ∷ MembershipRole.manager ∷ []);
}

-- MetaConfigurationResponse
abbrev pub start_errors : Error → Option ℕ
start_errors meta_configuration_error = some 503
start_errors token_encryption_error = some 503
start_errors _ = none

-- `self.get_brand(brand_id)` on the text of the body.
abbrev pub brand_of_text : RelayPrincipal → Option ℕ → Db → Option ℕ
brand_of_text p none db = none
brand_of_text p (some id) db = get_brand p id db >>= λ b. some b.id

-- `MetaOAuthStartView.post`, which answers with the URL.
unfoldable pub start_oauth :
    (sha256 : List ℕ → ℕ) (authorization_url : List ℕ → Result (List ℕ))
    → RelayPrincipal
    → (brand_id : Option (Option ℕ)) (raw_state : List ℕ) (state_id now : ℕ) → Db
    → Answer (List ℕ) × Db
start_oauth sha256 authorization_url p brand_id raw_state state_id now db =
    if not (has_permission connections_write (some p) db)
    then (refused 403, db)
    else elim brand_id [
      | none ↦ (refused 400, db)
      | some text ↦ elim (brand_of_text p text db) [
        | none ↦ (refused 404, db)
        | some brand ↦
            answer start_errors (λ r. 201)
              (start_meta_oauth sha256 authorization_url p.workspace_id brand p.subject raw_state
                state_id now db)
      ]
    ]

abbrev pub callback_errors : Error → Option ℕ
callback_errors invalid_oauth_state = some 400
callback_errors meta_configuration_error = some 503
callback_errors token_encryption_error = some 503
callback_errors meta_provider_error = some 502
callback_errors _ = none

-- The end of the handler, which has set the session: `redirect` is a name that the module does not import.
abbrev pub redirected : Answer SocialAccount × Db → Answer SocialAccount × Db
redirected (reply s account, db) = (crashed name_error, db)
redirected (refused s, db) = (refused s, db)
redirected (crashed e, db) = (crashed e, db)

-- `MetaOAuthCallbackView.get`; a parameter that is absent is empty.
unfoldable pub finish_oauth :
    (encrypt_token : String → Result String) (sha256 : List ℕ → ℕ)
    (connect : List ℕ → Result (MetaToken × MetaIdentity)) (code raw_state : List ℕ)
    (checked used account_id : ℕ) (new_ids : ℕ → ℕ)
    → Db
    → Answer SocialAccount × Db
finish_oauth encrypt_token sha256 connect code raw_state checked used account_id new_ids db =
    if is_empty code || is_empty raw_state
    then (refused 400, db)
    else redirected (
        answer callback_errors (λ r. 302)
          (complete_meta_oauth encrypt_token sha256 connect code raw_state checked used account_id
            new_ids db))
