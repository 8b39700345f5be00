-- ===== src/Views/Listing.antt =====
-- relay/api/views.py: the handlers that read. A `brand_id` parameter that is absent or empty is none;
-- one that is no UUID is `some none`.
pub mod Secrets
use aleyacloud_relay.Base.{
  ℕ, Bool, true, false, not, ◌&&◌, String, List, [], ◌∷◌, map, Option, none, some, leb, ◌==◌,
  if◌then◌else◌, find, select, elem, sort_by,
}
use Prim.Native.Nat.{Ordering}
use Prim.Native.String.{compare}
use aleyacloud_relay.Models.Tenancy.{Tenant, Brand, MembershipRole}
use aleyacloud_relay.Models.Content.{Post}
use aleyacloud_relay.Models.Social.{SocialAccount, ChannelConnection}
use aleyacloud_relay.Models.Publications.{Publication}
use aleyacloud_relay.Store.{Db}
use aleyacloud_relay.Access.{RelayPrincipal, Requirement, has_permission, get_tenant, get_brand}
use aleyacloud_relay.Delivery.Dispatch.{take}
use aleyacloud_relay.Views.{Answer, reply, refused, account_of, ◌>>=◌}
use aleyacloud_relay.Views.Data.{
  Timestamps, ChannelConnectionData, PostData, PublicationData, connection_data, post_data,
  publication_data,
}

abbrev pub readers : List MembershipRole
readers =
    MembershipRole.owner ∷ MembershipRole.manager ∷ MembershipRole.content_creator
    ∷ MembershipRole.client_approver ∷ MembershipRole.viewer ∷ []

abbrev pub reads : String → Requirement
reads scope = record { required_scope = some scope; required_roles = some readers }

-- The permission, and a 404 where the query is none.
abbrev pub answer_query : {A : Type 0} → Requirement → RelayPrincipal → Db → Option A → Answer A
answer_query r p db q =
    if not (has_permission r (some p) db)
    then refused 403
    else elim q [ none ↦ refused 404 | some a ↦ reply 200 a ]

-- The brand that the listing is narrowed to, if any; none is a 404.
unfoldable pub narrowed_brand : RelayPrincipal → Option (Option ℕ) → Db → Option (Option ℕ)
narrowed_brand p none db = some none
narrowed_brand p (some none) db = none
narrowed_brand p (some (some brand_id)) db = get_brand p brand_id db >>= λ b. some (some b.id)

abbrev pub in_brand : Option ℕ → ℕ → Bool
in_brand none brand = true
in_brand (some b) brand = brand == b

-- `tenant=self.get_tenant(), brand_id__in=request.user.brand_ids`, and the brand of the parameter.
abbrev pub is_listed : RelayPrincipal → (tenant : ℕ) → Option ℕ → (row_tenant row_brand : ℕ) → Bool
is_listed p tenant narrowed row_tenant row_brand =
    row_tenant == tenant && (elem row_brand p.brand_ids && in_brand narrowed row_brand)

-- `select_related("social_account")`: each connection with its account.
unfoldable pub with_account : Db → List ChannelConnection → List (ChannelConnection × SocialAccount)
with_account db [] = []
with_account db (c ∷ cs) =
    let rest = with_account db cs in elim (account_of c db) [ none ↦ rest | some a ↦ (c, a) ∷ rest ]

abbrev pub by_display_name : (c d : ChannelConnection × SocialAccount) → Bool
by_display_name (c, a) (d, b) = elim (compare c.display_name d.display_name) [
  | Ordering.gt ↦ false
  | _ ↦ true
]

abbrev pub is_listed_connection :
    RelayPrincipal → (tenant : ℕ) → Option ℕ → ChannelConnection × SocialAccount → Bool
is_listed_connection p tenant narrowed (c, a) = is_listed p tenant narrowed a.tenant a.brand

module _ (times : Timestamps) where
  abbrev pub newest_first : (id id' : ℕ) → Bool
  newest_first id id' = leb (times.updated_at id') (times.updated_at id)

  -- `ChannelConnectionCollectionView.get`
  unfoldable pub list_connections :
      RelayPrincipal → (brand_id : Option (Option ℕ)) → Db → Answer (List ChannelConnectionData)
  list_connections p brand_id db = answer_query (reads "connections:read") p db (
      get_tenant p db >>= λ tenant. narrowed_brand p brand_id db >>= λ narrowed. some (
        map (connection_data times) (
          sort_by by_display_name
            (select (is_listed_connection p tenant.id narrowed) (with_account db db.connections)))))

  -- `PostCollectionView.get`
  unfoldable pub list_posts :
      RelayPrincipal → (brand_id : Option (Option ℕ)) → Db → Answer (List PostData)
  list_posts p brand_id db = answer_query (reads "posts:read") p db (
      get_tenant p db >>= λ tenant. narrowed_brand p brand_id db >>= λ narrowed. some (
        map (post_data times db) (
          take 100 (
            sort_by (λ (x y : Post). newest_first x.id y.id)
              (select (λ (x : Post). is_listed p tenant.id narrowed x.tenant x.brand) db.posts)))))

  -- `PublicationCollectionView.get`
  unfoldable pub list_publications :
      RelayPrincipal → (brand_id : Option (Option ℕ)) → Db → Answer (List PublicationData)
  list_publications p brand_id db = answer_query (reads "publications:read") p db (
      get_tenant p db >>= λ tenant. narrowed_brand p brand_id db >>= λ narrowed. some (
        map (publication_data times) (
          take 100 (
            sort_by (λ (x y : Publication). leb y.scheduled_for x.scheduled_for)
              (select (λ (x : Publication). is_listed p tenant.id narrowed x.tenant x.brand)
                db.publications)))))

  -- `PostDetailView.get`
  unfoldable pub show_post : RelayPrincipal → (post_id : ℕ) → Db → Answer PostData
  show_post p post_id db = answer_query (reads "posts:read") p db (
      get_tenant p db >>= λ tenant.
      find (λ (x : Post). x.id == post_id && (x.tenant == tenant.id && elem x.brand p.brand_ids))
        db.posts
      >>= λ post. some (post_data times db post))

  -- `PublicationDetailView.get`
  unfoldable pub show_publication :
      RelayPrincipal → (publication_id : ℕ) → Db → Answer PublicationData
  show_publication p publication_id db = answer_query (reads "publications:read") p db (
      get_tenant p db >>= λ tenant.
      find
        (λ (x : Publication).
          x.id == publication_id && (x.tenant == tenant.id && elem x.brand p.brand_ids))
        db.publications
      >>= λ publication. some (publication_data times publication))
