-- ===== src/Discovery/Query.antt =====
-- `MetaOAuthClient.authorization_url` of relay/social/meta.py: what Meta reads in the URL that
-- `start_meta_oauth` of relay/social/services.py answers with.
use Prim.Native.Char.{char}
use aleyacloud_relay.Base.{
  ℕ, ◌<◌, String, List, [], ◌∷◌, ◌++◌, ◌≡◌, sym, inl, inr, arith, codes, All,
}
use aleyacloud_relay.Store.{Db, Result, ok}
use aleyacloud_relay.Store.Laws.{Result-cases}
use aleyacloud_relay.Oauth.{scopes, start_meta_oauth}
use aleyacloud_relay.Urls.{utf8, urlencode}
use aleyacloud_relay.Urls.Read.{read_query, All-append, read_query-urlencode}
use aleyacloud_relay.Discovery.{
  MetaSettings, get_meta_settings, join_comma, dialog_params, dialog_url, authorization_url,
  client_url,
}

abbrev pub AreCodes : List ℕ → Type 0
AreCodes s = All (λ c. c < 0x110000) s

codes-AreCodes : (s : String) → AreCodes (codes s)
codes-AreCodes String.[] = tt
codes-AreCodes (String.◌∷◌ (char n p) s) = (ground arith, codes-AreCodes s)

join_comma-AreCodes : (ss : List String) → AreCodes (join_comma ss)
unfolding join_comma
join_comma-AreCodes [] = tt
join_comma-AreCodes (s ∷ []) = codes-AreCodes s
join_comma-AreCodes (s ∷ t ∷ ss) =
    All-append (λ c. c < 0x110000) (codes s) _ (codes-AreCodes s)
      (omega arith, join_comma-AreCodes (t ∷ ss))

start_meta_oauth-url :
    (sha256 : List ℕ → ℕ) (authorization_url : List ℕ → Result (List ℕ)) (tenant brand : ℕ)
    (subject : String) (raw_state : List ℕ) (state_id now : ℕ) (db : Db) {url : List ℕ}
    → (start_meta_oauth sha256 authorization_url tenant brand subject raw_state state_id now db).0
      ≡ ok url
    → authorization_url raw_state ≡ ok url
unfolding start_meta_oauth
start_meta_oauth-url sha256 authorization_url tenant brand subject raw_state state_id now db h =
    elim (Result-cases (authorization_url raw_state)) [
      | inl (u, e) ↦ ground arith
      | inr (x, e) ↦ ground arith
    ]

get_meta_settings-ok :
    (settings : MetaSettings) {config : MetaSettings}
    → get_meta_settings settings ≡ ok config
    → settings ≡ config
unfolding get_meta_settings
get_meta_settings-ok settings h = ground arith

client_url-ok :
    (settings : MetaSettings) (state : List ℕ) {url : List ℕ}
    → client_url settings state ≡ ok url
    → authorization_url settings state ≡ url
unfolding client_url
client_url-ok settings state h = elim (Result-cases (get_meta_settings settings)) [
  | inl (config, e) ↦ let same = get_meta_settings-ok settings e in ground arith
  | inr (x, e) ↦ ground arith
]

client_url-eq :
    (settings : MetaSettings) (state : List ℕ) {url : List ℕ}
    → client_url settings state ≡ ok url
    → url ≡ dialog_url settings ++ urlencode (dialog_params settings state)
unfolding authorization_url
client_url-eq settings state h = sym (client_url-ok settings state h)

-- The URL that starts the connection leads to the dialog of the configured version, and its query reads
-- as the five parameters of the client, the state among them, in UTF-8.
pub start_meta_oauth-read_query :
    (sha256 : List ℕ → ℕ) (settings : MetaSettings) (tenant brand : ℕ) (subject : String)
    (raw_state : List ℕ) (state_id now : ℕ) (db : Db) {url : List ℕ}
    → AreCodes raw_state
    → (start_meta_oauth sha256
        (client_url settings)
        tenant
        brand
        subject
        raw_state
        state_id
        now
        db).0
      ≡ ok url
    → (query : List ℕ) × (url ≡ dialog_url settings ++ query)
      × (read_query query
          ≡ (utf8 (codes "client_id"), utf8 (codes settings.app_id))
            ∷ (utf8 (codes "redirect_uri"), utf8 (codes settings.redirect_uri))
            ∷ (utf8 (codes "state"), utf8 raw_state)
            ∷ (utf8 (codes "response_type"), utf8 (codes "code"))
            ∷ (utf8 (codes "scope"), utf8 (join_comma scopes))
            ∷ [])
start_meta_oauth-read_query sha256 settings tenant brand subject raw_state state_id now db {url}
      text h =
    (
      urlencode (dialog_params settings raw_state),
      client_url-eq settings raw_state (
          start_meta_oauth-url sha256 (client_url settings) tenant brand subject raw_state state_id
            now db h),
      read_query-urlencode _ _ (codes-AreCodes "client_id", codes-AreCodes settings.app_id)
          (
            (codes-AreCodes "redirect_uri", codes-AreCodes settings.redirect_uri),
            (
              (codes-AreCodes "state", text),
              (
                (codes-AreCodes "response_type", codes-AreCodes "code"),
                ((codes-AreCodes "scope", join_comma-AreCodes scopes), tt),
              ),
            ),
          ),
    )
