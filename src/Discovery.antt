-- ===== src/Discovery.antt =====
-- relay/social/meta.py: `MetaOAuthClient`, which sends a user to Meta, exchanges the code that comes
-- back for a token and lists the pages of the user. A server answers each GET by its URL and its
-- parameters; none stands for an `httpx.HTTPError` or a body that is no JSON. A body is the object of
-- `response.json()`, with the keys that the code reads.
pub mod Query
pub mod Pages
use aleyacloud_relay.Base.{
  ℕ, suc, ◌+◌, ◌-◌, ℤ, pos, negsuc, ltb, leb, Bool, true, false, ◌||◌, String, str_eq, List, [],
  ◌∷◌, ◌++◌, map, Option, none, some, if◌then◌else◌, codes,
}
use aleyacloud_relay.Models.Social.{Channel}
use aleyacloud_relay.Store.{
  Result, ok, raise, key_error, value_error, type_error, overflow_error, meta_provider_error,
  meta_configuration_error,
}
use aleyacloud_relay.Oauth.{MetaToken, MetaConnection, MetaIdentity, scopes}
use aleyacloud_relay.Urls.{urlencode}

pub record MetaSettings : Type 0 where
  pub app_id : String
  pub app_secret : String
  pub redirect_uri : String
  pub graph_version : String

-- The object of `instagram_business_account`. none stands for a key that is not there.
pub record Instagram : Type 0 where
  pub id : Option String
  pub username : Option String

-- `instagram_business_account` is none where the key is missing, null or an empty object.
pub record Page : Type 0 where
  pub id : Option String
  pub name : Option String
  pub access_token : Option String
  pub instagram_business_account : Option Instagram

-- `expires_in`: what `int` makes of it, or its ValueError, its TypeError (a list or an object) or its
-- OverflowError (an infinite number).
pub data Lifetime : Type 0 where
  seconds : ℤ → Lifetime
  no_number no_scalar infinite : Lifetime

pub record Body : Type 0 where
  pub access_token : Option String
  pub expires_in : Option Lifetime
  pub id : Option String
  pub name : Option String
  pub items : Option (List Page)

-- The seconds from `datetime.min` to `datetime.max`.
abbrev pub max_time : ℕ
max_time = 315537897599

abbrev pub up_to_max : ℕ → Result (Option ℕ)
up_to_max time = if leb time max_time then ok (some time) else raise overflow_error

abbrev pub Params : Type 0
Params = List (List ℕ × List ℕ)

abbrev pub Server : Type 0
Server = (url : List ℕ) → Params → Option Body

infixl 5 ◌>>=◌
abbrev pub ◌>>=◌ : {A B : Type 0} → Result A → (A → Result B) → Result B
ok a >>= f = f a
raise e >>= f = raise e

-- `x[key]`
abbrev pub item : Option String → Result String
item none = raise key_error
item (some s) = ok s

-- `x.get(key, default)`
abbrev pub get_or {ℓ} : {A : Type ℓ} → Option A → A → A
get_or none d = d
get_or (some s) d = s

-- `get_meta_settings`, where a setting that is not there is the empty text.
unfoldable pub get_meta_settings : (settings : MetaSettings) → Result MetaSettings
get_meta_settings s =
    if str_eq s.app_id ""
      || (str_eq s.app_secret "" || (str_eq s.redirect_uri "" || str_eq s.graph_version ""))
    then raise meta_configuration_error
    else ok s

-- `",".join`
unfoldable pub join_comma : List String → List ℕ
join_comma [] = []
join_comma (s ∷ []) = codes s
join_comma (s ∷ ss) = codes s ++ (b',' ∷ join_comma ss)

-- The parameters of the dialog.
abbrev pub dialog_params : MetaSettings → (state : List ℕ) → Params
dialog_params config state =
    (codes "client_id", codes config.app_id)
    ∷ (codes "redirect_uri", codes config.redirect_uri)
    ∷ (codes "state", state)
    ∷ (codes "response_type", codes "code")
    ∷ (codes "scope", join_comma scopes)
    ∷ []

abbrev pub dialog_url : MetaSettings → List ℕ
dialog_url config =
    codes "https://www.facebook.com/" ++ (codes config.graph_version ++ codes "/dialog/oauth?")

unfoldable pub authorization_url : MetaSettings → (state : List ℕ) → List ℕ
authorization_url config state = dialog_url config ++ urlencode (dialog_params config state)

-- The connections that the loop appends for one page.
abbrev pub facebook_page : Page → (id page_token : String) → MetaConnection
facebook_page page id page_token = record {
  channel = Channel.meta_facebook_page;
  provider_channel_id = id;
  display_name = get_or page.name "";
  access_token = page_token;
}

abbrev pub instagram_account : Page → Instagram → (id page_token : String) → MetaConnection
instagram_account page instagram id page_token = record {
  channel = Channel.meta_instagram_business_account;
  provider_channel_id = id;
  display_name = get_or instagram.username (get_or page.name "");
  access_token = page_token;
}

unfoldable pub page_connections : Page → (page_token : String) → Result (List MetaConnection)
page_connections page page_token = item page.id >>= λ id. elim page.instagram_business_account [
  | none ↦ ok (facebook_page page id page_token ∷ [])
  | some instagram ↦ item instagram.id >>= λ instagram_id. ok (
      facebook_page page id page_token
      ∷ instagram_account page instagram instagram_id page_token
      ∷ [])
]

-- `page.get("access_token")`, where an empty token counts as none.
abbrev pub token_of : Page → Option String
token_of page = elim page.access_token [
  | none ↦ none
  | some t ↦ if str_eq t "" then none else some t
]

-- The loop over the pages. A page without a token is skipped.
unfoldable pub list_connections : List Page → Result (List MetaConnection)
list_connections [] = ok []
list_connections (page ∷ pages) =
    let rest = list_connections pages in
    elim (token_of page) [
      | none ↦ rest
      | some page_token ↦
          page_connections page page_token >>= λ found. rest >>= λ more. ok (found ++ more)
    ]

abbrev pub identity_of : (profile : Body) (id : String) → List MetaConnection → MetaIdentity
identity_of profile id connections = record {
  provider_account_id = id;
  display_name = get_or profile.name "";
  connections = connections;
}

module _ (config : MetaSettings) (server : Server) where
  -- `_request`
  unfoldable pub request : (path : String) → Params → Result Body
  request path params =
      elim (server
        (codes "https://graph.facebook.com/" ++ (codes config.graph_version ++ codes path))
        params) [ none ↦ raise meta_provider_error | some body ↦ ok body ]

  -- `_request_token`
  unfoldable pub request_token : Params → Result Body
  request_token params = request "/oauth/access_token" params

  abbrev pub accounts_params : (access_token : String) → Params
  accounts_params access_token =
      (codes "fields", codes "id,name,access_token,instagram_business_account{id,username}")
      ∷ (codes "access_token", codes access_token)
      ∷ []

  unfoldable pub discover_identity : (access_token : String) → Result MetaIdentity
  discover_identity access_token =
      request "/me"
        ((codes "fields", codes "id,name") ∷ (codes "access_token", codes access_token) ∷ [])
      >>= λ profile. request "/me/accounts" (accounts_params access_token) >>= λ pages.
          list_connections (get_or pages.items []) >>= λ connections.
          item profile.id >>= λ id. ok (identity_of profile id connections)

  abbrev pub code_params : (code : List ℕ) → Params
  code_params code =
      (codes "client_id", codes config.app_id)
      ∷ (codes "client_secret", codes config.app_secret)
      ∷ (codes "redirect_uri", codes config.redirect_uri)
      ∷ (codes "code", code)
      ∷ []

  abbrev pub exchange_params : (short_lived : String) → Params
  exchange_params short_lived =
      (codes "grant_type", codes "fb_exchange_token")
      ∷ (codes "client_id", codes config.app_id)
      ∷ (codes "client_secret", codes config.app_secret)
      ∷ (codes "fb_exchange_token", codes short_lived)
      ∷ []

  -- The expiry of a token. Here times count the seconds from `datetime.min` on; a time outside of what
  -- `datetime` holds is an OverflowError, of `timedelta` or of the addition.
  unfoldable pub expiry : (now : ℕ) → Option Lifetime → Result (Option ℕ)
  expiry now none = ok none
  expiry now (some (seconds (pos n))) = up_to_max (now + n)
  expiry now (some (seconds (negsuc n))) =
      if ltb n now then up_to_max (now - suc n) else raise overflow_error
  expiry now (some no_number) = raise value_error
  expiry now (some no_scalar) = raise type_error
  expiry now (some infinite) = raise overflow_error

  unfoldable pub connect : (now : ℕ) (code : List ℕ) → Result (MetaToken × MetaIdentity)
  connect now code = request_token (code_params code) >>= λ short_lived.
      item short_lived.access_token >>= λ short_token.
      request_token (exchange_params short_token) >>= λ long_lived.
      item long_lived.access_token >>= λ access_token.
      discover_identity access_token >>= λ identity.
      expiry now long_lived.expires_in >>= λ expires_at.
      ok (record { access_token = access_token; expires_at = expires_at }, identity)

-- `MetaOAuthClient()` with the settings of the deployment, and the method that is called on it.
unfoldable pub client_url : (settings : MetaSettings) → (state : List ℕ) → Result (List ℕ)
client_url settings state =
    get_meta_settings settings >>= λ config. ok (authorization_url config state)

unfoldable pub client_connect :
    (settings : MetaSettings)
    → Server
    → (now : ℕ) (code : List ℕ) → Result (MetaToken × MetaIdentity)
client_connect settings server now code =
    get_meta_settings settings >>= λ config. connect config server now code
