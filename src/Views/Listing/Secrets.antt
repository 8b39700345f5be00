-- ===== src/Views/Listing/Secrets.antt =====
-- The listing of connections in relay/api/views.py against the tokens that are stored.
use aleyacloud_relay.Base.{
  ℕ, String, List, [], ◌∷◌, map, Option, none, some, ◌≡◌, refl, sym, ap, ◌∙◌, arith, select,
  sort_by, map-sort_by, map-select, Option-cases, inl, inr,
}
use mathlib.Core.Path.{fun_ext}
use aleyacloud_relay.Models.Social.{SocialAccount, ChannelConnection}
use aleyacloud_relay.Store.{Db}
use aleyacloud_relay.Access.{RelayPrincipal, has_permission, get_tenant, get_brand}
use aleyacloud_relay.Views.{account_of, ◌>>=◌}
use aleyacloud_relay.Views.Data.{Timestamps, ChannelConnectionData, connection_data}
use aleyacloud_relay.Views.Listing.{
  answer_query, reads, narrowed_brand, with_account, by_display_name, is_listed_connection,
  list_connections,
}

-- Each connection with another stored token, as a function of its row.
abbrev pub replace_token : (ChannelConnection → String) → ChannelConnection → ChannelConnection
replace_token f c = record c { encrypted_access_token = f c }

abbrev pub replace_tokens : (ChannelConnection → String) → Db → Db
replace_tokens f db = record db { connections = map (replace_token f) db.connections }

module _ (f : ChannelConnection → String) where
  abbrev replace_pair : ChannelConnection × SocialAccount → ChannelConnection × SocialAccount
  replace_pair (c, a) = (replace_token f c, a)

  with_account-replace :
      (db : Db) (cs : List ChannelConnection)
      → with_account (replace_tokens f db) (map (replace_token f) cs)
        ≡ map replace_pair (with_account db cs)
  unfolding with_account
  with_account-replace db [] = refl
  with_account-replace db (c ∷ cs) = elim (Option-cases (account_of c db)) [
    | inl missing ↦ ground (arith, with_account-replace db cs)
    | inr (a, found) ↦ ground (arith, with_account-replace db cs)
  ]

  data-replace :
      (times : Timestamps) (xs : List (ChannelConnection × SocialAccount))
      → map (connection_data times) (map replace_pair xs) ≡ map (connection_data times) xs
  unfolding connection_data
  data-replace times [] = refl
  data-replace times ((c, a) ∷ xs) =
      ap (λ (ds : List ChannelConnectionData). connection_data times (c, a) ∷ ds)
        (data-replace times xs)

  select_replaced :
      (p : RelayPrincipal) (tenant : ℕ) (narrowed : Option ℕ)
      (xs : List (ChannelConnection × SocialAccount))
      → map replace_pair (select (is_listed_connection p tenant narrowed) xs)
        ≡ select (is_listed_connection p tenant narrowed) (map replace_pair xs)
  select_replaced p tenant narrowed xs =
      map-select replace_pair (is_listed_connection p tenant narrowed)
        (is_listed_connection p tenant narrowed) (λ (c, a). refl) xs

  abbrev rows :
      Timestamps → RelayPrincipal → Db → (tenant : ℕ) → Option ℕ → List ChannelConnectionData
  rows times p db tenant narrowed = map (connection_data times) (
      sort_by by_display_name
        (select (is_listed_connection p tenant narrowed) (with_account db db.connections)))

  rows-replace_tokens :
      (times : Timestamps) (p : RelayPrincipal) (db : Db) (tenant : ℕ) (narrowed : Option ℕ)
      → rows times p (replace_tokens f db) tenant narrowed ≡ rows times p db tenant narrowed
  rows-replace_tokens times p db tenant narrowed =
      let listed = is_listed_connection p tenant narrowed in
      let pairs = with_account db db.connections in
      ap
        (λ (xs : List (ChannelConnection × SocialAccount)).
          map (connection_data times) (sort_by by_display_name (select listed xs)))
        (with_account-replace db db.connections)
      ∙ ap
          (λ (xs : List (ChannelConnection × SocialAccount)).
            map (connection_data times) (sort_by by_display_name xs))
          (sym (select_replaced p tenant narrowed pairs))
      ∙ ap (map (connection_data times)) (
          sym (
            map-sort_by replace_pair by_display_name by_display_name (λ (c, a) (d, b). refl)
              (select listed pairs)))
      ∙ data-replace times (sort_by by_display_name (select listed pairs))

  -- What an answer makes of the rows.
  same :
      (times : Timestamps) (p : RelayPrincipal) (db : Db)
      (query : ((tenant : ℕ) → Option ℕ → List ChannelConnectionData)
        → Option (List ChannelConnectionData))
      → answer_query (reads "connections:read") p db (query (rows times p (replace_tokens f db)))
        ≡ answer_query (reads "connections:read") p db (query (rows times p db))
  same times p db query =
      ap
        (λ (r : (tenant : ℕ) → Option ℕ → List ChannelConnectionData).
          answer_query (reads "connections:read") p db (query r))
        (fun_ext (λ tenant. fun_ext (λ narrowed. rows-replace_tokens times p db tenant narrowed)))

  -- The listing of the connections does not depend on the stored tokens: whatever other tokens stand in
  -- the rows, the principal gets the same answer, for every brand parameter.
  pub list_connections-replace_tokens :
      (times : Timestamps) (p : RelayPrincipal) (brand_id : Option (Option ℕ)) (db : Db)
      → list_connections times p brand_id (replace_tokens f db)
        ≡ list_connections times p brand_id db
  unfolding list_connections narrowed_brand has_permission get_brand get_tenant
  list_connections-replace_tokens times p none db =
      same times p db (λ narrowed. get_tenant p db >>= λ tenant. some (narrowed tenant.id none))
  list_connections-replace_tokens times p (some none) db = refl
  list_connections-replace_tokens times p (some (some brand)) db = same times p db (λ narrowed.
      get_tenant p db >>= λ tenant.
      (get_brand p brand db >>= λ b. some (some b.id)) >>= λ n. some (narrowed tenant.id n))
