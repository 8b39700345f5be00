-- ===== src/Discovery/Pages.antt =====
-- `MetaOAuthClient.connect` of relay/social/meta.py: which connections come of which pages, and which
-- exceptions leave it.
use aleyacloud_relay.Base.{
  ℕ, suc, ◌+◌, ◌≤◌, ℤ, pos, negsuc, Bool, false, ◌&&◌, String, str_eq, List, [], Option, none, some,
  ◌≡◌, ◌⊎◌, count, is_some, All,
}
use aleyacloud_relay.Models.Social.{Channel}
use aleyacloud_relay.Store.{
  Error, Result, ok, raise, key_error, value_error, type_error, overflow_error, meta_provider_error,
}
use aleyacloud_relay.Oauth.{MetaToken, MetaConnection, MetaIdentity, same_channel}
use aleyacloud_relay.Discovery.{
  MetaSettings, Page, Body, Server, accounts_params, Lifetime, seconds, max_time, ◌>>=◌, item,
  get_or, token_of, request, request_token, discover_identity, exchange_params, expiry,
}

abbrev pub on_channel : Channel → MetaConnection → Bool
on_channel channel c = same_channel c.channel channel

abbrev pub has_token : Page → Bool
has_token page = is_some (token_of page)

abbrev pub has_instagram : Page → Bool
has_instagram page = has_token page && is_some page.instagram_business_account

-- What the listing of some pages contains: tokens that are not empty, a Facebook page for each page with
-- a token, and an Instagram account for each of them that has one.
abbrev pub Lists : List Page → List MetaConnection → Type 0
Lists pages found =
    All (λ (c : MetaConnection). str_eq c.access_token "" ≡ false) found
    × (count (on_channel Channel.meta_facebook_page) found ≡ count has_token pages)
    × (count (on_channel Channel.meta_instagram_business_account) found ≡ count has_instagram pages)

-- The value of a call meets Q, or its exception meets P.
abbrev pub Ends : {A : Type 0} → (A → Type 0) → (Error → Type 0) → Result A → Type 0
Ends Q P (ok a) = Q a
Ends Q P (raise e) = P e

abbrev IsKeyError : Error → Type 0
IsKeyError e = e ≡ key_error

-- The sum of a number and an integer.
abbrev pub IsSum : (m : ℕ) → ℤ → (n : ℕ) → Type 0
IsSum m (pos k) n = n ≡ m + k
IsSum m (negsuc k) n = n + suc k ≡ m

module _ (config : MetaSettings) (server : Server) where
  -- The connections are those of the pages that Meta lists for the token.
  abbrev pub FromPages : (access_token : String) → MetaIdentity → Type 0
  FromPages access_token identity =
      (body : Body) × (request config server "/me/accounts"
          (accounts_params config server access_token)
        ≡ ok body)
      × Lists (get_or body.items []) identity.connections

  abbrev ProviderOrKey : Error → Type 0
  ProviderOrKey e = (e ≡ meta_provider_error) ⊎ (e ≡ key_error)

  -- The exceptions of a lifetime: it is no number, no scalar, or leads out of the range of `datetime`.
  abbrev pub IsNoLifetime : Error → Type 0
  IsNoLifetime e = (e ≡ value_error) ⊎ ((e ≡ type_error) ⊎ (e ≡ overflow_error))

  -- The exceptions of `connect`.
  abbrev pub Documented : Error → Type 0
  Documented e = (e ≡ meta_provider_error) ⊎ ((e ≡ key_error) ⊎ IsNoLifetime e)

  -- The expiry of a token is the time of the call plus the lifetime, and within the range of `datetime`.
  abbrev pub ExpiresAfter : (now : ℕ) → Option Lifetime → Option ℕ → Type 0
  ExpiresAfter now none at = at ≡ none
  ExpiresAfter now (some l) at =
      (z : ℤ) × (t : ℕ) × (l ≡ seconds z) × (at ≡ some t) × IsSum now z t × (t ≤ max_time)

  abbrev pub Connected : (now : ℕ) → MetaToken × MetaIdentity → Type 0
  Connected now (token, identity) =
      FromPages token.access_token identity
      × ((short_lived : String) × (long_lived : Body) × (request_token config server
              (exchange_params config server short_lived)
            ≡ ok long_lived)
          × (long_lived.access_token ≡ some token.access_token)
          × ExpiresAfter now long_lived.expires_in token.expires_at)

  -- What follows the short-lived token.
  abbrev after_short : (now : ℕ) (short_token : String) → Result (MetaToken × MetaIdentity)
  after_short now short_token =
      request_token config server (exchange_params config server short_token) >>= λ long_lived.
      item long_lived.access_token >>= λ access_token.
      discover_identity config server access_token >>= λ identity.
      expiry config server now long_lived.expires_in >>= λ expires_at.
      ok (record { access_token = access_token; expires_at = expires_at }, identity)
