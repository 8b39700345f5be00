-- ===== src/Tests/Reaching.antt =====
-- Runs of relay/api/authentication.py and relay/api/views.py on the test data.
use aleyacloud_relay.Base.{
  ◌==◌, ℕ, true, List, [], ◌∷◌, Option, none, some, ◌≡◌, refl, find, select, elem, codes, same_text,
  lower, lower_code, if◌then◌else◌,
}
use aleyacloud_relay.Models.Tenancy.{Tenant, Membership}
use aleyacloud_relay.Store.{ok}
use aleyacloud_relay.Access.{
  RelayPrincipal, role_scopes, first_by_name, chosen_membership, active_brand_ids, panel_principal,
  get_tenant, get_brand,
}
use aleyacloud_relay.Access.Isolation.{panel_principal_isolated, get_brand_isolated}
use aleyacloud_relay.Access.Credentials.{Claims, credential, authenticate, authenticate-some}
use aleyacloud_relay.Tests.{brand, member, start_db}

abbrev ana : RelayPrincipal
ana = record {
  subject = "ana";
  workspace_id = 1;
  brand_ids = 10 ∷ [];
  scopes = role_scopes member.role;
}

-- The session asks for a workspace that is not the user's.
signed_in : panel_principal "ana" (some 2) start_db ≡ ok (ana, 1)
unfolding panel_principal chosen_membership first_by_name find select
signed_in = refl

panel_principal_isolated_example :
    (m : Membership) × (t : Tenant) × ((chosen_membership "ana" (some 2) start_db ≡ some m)
      × (m.subject ≡ "ana")
      × (m.is_active ≡ true)
      × (m.workspace ≡ 1)
      × (find (λ (x : Tenant). x.id == 1) start_db.tenants ≡ some t)
      × (t.id ≡ 1)
      × (t.is_active ≡ true)
      × (ana.subject ≡ "ana")
      × (ana.scopes ≡ role_scopes m.role)
      × (ana.brand_ids ≡ active_brand_ids 1 start_db)
      × (ana.workspace_id ≡ 1))
panel_principal_isolated_example =
    panel_principal_isolated "ana" (some 2) start_db {p = ana} {session = 1} signed_in

reached : get_brand ana 10 start_db ≡ some brand
unfolding get_brand get_tenant find elem
reached = refl

get_brand_isolated_example :
    (brand.id ≡ 10)
    × (brand.workspace ≡ 1)
    × (brand.is_active ≡ true)
    × (elem brand.id ana.brand_ids ≡ true)
    × ((t : Tenant) × (get_tenant ana start_db ≡ some t) × (t.id ≡ 1) × (t.is_active ≡ true))
get_brand_isolated_example = get_brand_isolated ana 10 start_db {b = brand} reached

-- The one token that is accepted is the text "ok".
abbrev claims : Claims
claims = record {
  sub = "svc";
  workspace_id = some 1;
  brand_ids = some (10 ∷ []);
  scopes = some ("posts:read" ∷ []);
}

abbrev decode_token : List ℕ → Option Claims
decode_token token = if same_text token (codes "ok") then some claims else none

abbrev plain_utf8 : List ℕ → Option (List ℕ)
plain_utf8 s = some s

abbrev service : RelayPrincipal
service = record {
  subject = "svc";
  workspace_id = 1;
  brand_ids = 10 ∷ [];
  scopes = "posts:read" ∷ [];
}

accepted :
    authenticate plain_utf8 decode_token (codes "BEARER" ∷ codes "ok" ∷ []) ≡ ok (some service)
unfolding authenticate credential same_text lower lower_code
accepted = refl

authenticate-some_example :
    (scheme : List ℕ) × (s : List ℕ) × (token : List ℕ) × (c : Claims) × (codes "BEARER"
        ∷ codes "ok"
        ∷ []
      ≡ scheme ∷ token ∷ [])
    × (plain_utf8 scheme ≡ some s)
    × (same_text (lower s) (codes "bearer") ≡ true)
    × (decode_token token ≡ some c)
    × (c.sub ≡ "svc")
    × (c.workspace_id ≡ some 1)
    × (c.brand_ids ≡ some (10 ∷ []))
    × (c.scopes ≡ some ("posts:read" ∷ []))
authenticate-some_example =
    authenticate-some plain_utf8 decode_token (codes "BEARER" ∷ codes "ok" ∷ []) {p = service}
      accepted
