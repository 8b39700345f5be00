-- ===== src/Access.antt =====
-- relay/api/authentication.py and relay/api/permissions.py: who may call what.
pub mod Isolation
pub mod Credentials
use aleyacloud_relay.Base.{
  ℕ, Bool, true, false, not, ◌&&◌, String, str_eq, List, [], ◌∷◌, map, Option, none, some, ◌==◌,
  if◌then◌else◌, find, select, exists, any, elem,
}
use Prim.Native.String.{compare}
use Prim.Native.Nat.{Ordering}
use aleyacloud_relay.Models.Tenancy.{Tenant, Brand, Membership, MembershipRole}
use aleyacloud_relay.Store.{Db, Result, ok, raise, authentication_failed}

pub record RelayPrincipal : Type 0 where
  pub subject : String
  pub workspace_id : ℕ
  pub brand_ids : List ℕ
  pub scopes : List String

-- `ROLE_SCOPES`
unfoldable pub role_scopes : MembershipRole → List String
role_scopes MembershipRole.owner =
    "connections:read" ∷ "connections:write" ∷ "media:write" ∷ "posts:read" ∷ "posts:write"
    ∷ "posts:approve" ∷ "approvals:write" ∷ "publications:read" ∷ "publications:write" ∷ []
role_scopes MembershipRole.manager =
    "connections:read" ∷ "connections:write" ∷ "media:write" ∷ "posts:read" ∷ "posts:write"
    ∷ "posts:approve" ∷ "approvals:write" ∷ "publications:read" ∷ "publications:write" ∷ []
role_scopes MembershipRole.content_creator =
    "connections:read" ∷ "media:write" ∷ "posts:read" ∷ "posts:write" ∷ "posts:approve"
    ∷ "approvals:write" ∷ "publications:read" ∷ "publications:write" ∷ []
role_scopes MembershipRole.client_approver =
    "connections:read" ∷ "posts:read" ∷ "publications:read" ∷ []
role_scopes MembershipRole.viewer = "connections:read" ∷ "posts:read" ∷ "publications:read" ∷ []

abbrev pub has_text : String → List String → Bool
has_text s xs = any (λ x. str_eq x s) xs

-- `filter(subject=subject, is_active=True)`
abbrev pub is_member : String → Membership → Bool
is_member subject m = str_eq m.subject subject && m.is_active

abbrev pub workspace_of : Membership → Db → Option Tenant
workspace_of m db = find (λ (t : Tenant). t.id == m.workspace) db.tenants

abbrev pub name_of : Option Tenant → String
name_of none = ""
name_of (some t) = t.name

-- `order_by("workspace__name").first()`
unfoldable pub first_by_name : Db → List Membership → Option Membership
first_by_name db [] = none
first_by_name db (m ∷ ms) =
    let rest = first_by_name db ms in
    elim rest [
      | none ↦ some m
      | some n ↦ elim (compare (name_of (workspace_of m db)) (name_of (workspace_of n db))) [
        | Ordering.gt ↦ some n
        | _ ↦ some m
      ]
    ]

-- The membership that `panel_principal` takes: the one of the session's workspace, or the first.
unfoldable pub chosen_membership :
    (subject : String) (requested : Option ℕ) → Db → Option Membership
chosen_membership subject requested db =
    let memberships : List Membership = select (is_member subject) db.memberships in
    let fallback : Option Membership = first_by_name db memberships in
    elim requested [
      | none ↦ fallback
      | some id ↦ elim (find (λ (m : Membership). m.workspace == id) memberships) [
        | none ↦ fallback
        | some m ↦ some m
      ]
    ]

abbrev pub active_brand_ids : ℕ → Db → List ℕ
active_brand_ids workspace db =
    map (λ (b : Brand). b.id)
      (select (λ (b : Brand). b.workspace == workspace && b.is_active) db.brands)

-- The principal and the new `relay_workspace_id` of the session; the subject is `panel_subject` of
-- the user.
unfoldable pub panel_principal :
    (subject : String) (requested : Option ℕ) → Db → Result (RelayPrincipal × ℕ)
panel_principal subject requested db = elim (chosen_membership subject requested db) [
  | none ↦ raise authentication_failed
  | some m ↦ elim (workspace_of m db) [
    | none ↦ raise authentication_failed
    | some t ↦
        if not t.is_active
        then raise authentication_failed
        else ok (
          record {
            subject = subject;
            workspace_id = m.workspace;
            brand_ids = active_brand_ids m.workspace db;
            scopes = role_scopes m.role;
          },
          m.workspace,
        )
  ]
]

abbrev pub same_role : MembershipRole → MembershipRole → Bool
same_role MembershipRole.owner MembershipRole.owner = true
same_role MembershipRole.manager MembershipRole.manager = true
same_role MembershipRole.content_creator MembershipRole.content_creator = true
same_role MembershipRole.client_approver MembershipRole.client_approver = true
same_role MembershipRole.viewer MembershipRole.viewer = true
same_role _ _ = false

-- What a view asks of a method.
pub record Requirement : Type 0 where
  pub required_scope : Option String
  pub required_roles : Option (List MembershipRole)

abbrev pub scope_granted : Option String → RelayPrincipal → Bool
scope_granted none p = true
scope_granted (some s) p = has_text s p.scopes

-- The query of `has_permission`.
abbrev pub has_role : List MembershipRole → RelayPrincipal → Membership → Bool
has_role roles p m =
    m.workspace == p.workspace_id
    && (str_eq m.subject p.subject && (any (same_role m.role) roles && m.is_active))

abbrev pub role_granted : Option (List MembershipRole) → RelayPrincipal → Db → Bool
role_granted none p db = true
role_granted (some roles) p db = exists (has_role roles p) db.memberships

-- `HasRelayScope.has_permission`; `none` is a request without a principal.
unfoldable pub has_permission : Requirement → Option RelayPrincipal → Db → Bool
has_permission r none db = false
has_permission r (some p) db =
    if not (scope_granted r.required_scope p) then false else role_granted r.required_roles p db

-- `TenantScopedAPIView.get_tenant` and `get_brand`, where `none` is the response 404.
unfoldable pub get_tenant : RelayPrincipal → Db → Option Tenant
get_tenant p db = find (λ (t : Tenant). t.id == p.workspace_id && t.is_active) db.tenants

unfoldable pub get_brand : RelayPrincipal → (brand_id : ℕ) → Db → Option Brand
get_brand p brand_id db = if not (elem brand_id p.brand_ids) then none else elim (get_tenant p db) [
  | none ↦ none
  | some t ↦
      find (λ (b : Brand). b.id == brand_id && (b.workspace == t.id && b.is_active)) db.brands
]
