-- ===== src/Views/Publishing.antt =====
-- What `PublicationCollectionView.post` of relay/api/views.py lets a principal do.
use aleyacloud_relay.Base.{
  ℕ, String, subst, ap, ◌∙◌, ◌∷◌, Bool, true, false, ◌&&◌, ◌||◌, some, leb, ◌==◌, ◌≡◌, refl, ◌⊎◌,
  inl, inr, arith, find, elem, Option-cases, Bool-cases, find_sound,
}
use aleyacloud_relay.Models.Tenancy.{Tenant, Brand}
use aleyacloud_relay.Models.Content.{Post, PostVariant}
use aleyacloud_relay.Models.Social.{SocialAccount, ChannelConnection}
use aleyacloud_relay.Store.{Db}
use aleyacloud_relay.Access.{RelayPrincipal, has_permission, get_tenant, get_brand}
use aleyacloud_relay.Access.Isolation.{get_brand_isolated}
use aleyacloud_relay.Posts.{Payload}
use aleyacloud_relay.Scheduling.{ScheduleRequest, SchedulePublicationResult, has_publication_key}
use aleyacloud_relay.Scheduling.Effects.{IsSchedulable}
use aleyacloud_relay.Scheduling.Idempotency.{schedule-Ends}
use aleyacloud_relay.Views.{
  reply, publications_write, bad_key, post_of, account_of, reaches_post, is_account_in,
  PublicationBody, key_text, schedule_request, create_publication,
}

-- The rows of a request that a principal may make.
abbrev pub InReach : RelayPrincipal → PublicationBody → Db → ScheduleRequest → Type 0
InReach p body db q =
    (q.tenant ≡ p.workspace_id)
    × (elem q.brand p.brand_ids ≡ true)
    × (q.subject ≡ p.subject)
    × (q.post_variant.id ≡ body.post_variant_id)
    × (q.channel_connection.id ≡ body.channel_connection_id)
    × (q.scheduled_for ≡ body.scheduled_for)
    × (q.idempotency_key ≡ key_text body.key)

abbrev reached_variant : ℕ → RelayPrincipal → PublicationBody → Db → PostVariant → Bool
reached_variant tenant p body db v =
    v.id == body.post_variant_id && reaches_post tenant p.brand_ids (post_of v db)

abbrev reached_connection : (tenant brand : ℕ) → PublicationBody → Db → ChannelConnection → Bool
reached_connection tenant brand body db c =
    c.id == body.channel_connection_id && is_account_in tenant brand (account_of c db)

-- What `schedule_request` makes of the rows that it finds.
abbrev request_of :
    RelayPrincipal
    → PublicationBody
    → ℕ
    → PostVariant
    → Post
    → ChannelConnection
    → SocialAccount
    → ℕ
    → ScheduleRequest
request_of p body tenant variant post connection account brand = record {
  tenant = tenant;
  brand = brand;
  subject = p.subject;
  post_variant = variant;
  post = post;
  channel_connection = connection;
  account = account;
  scheduled_for = body.scheduled_for;
  idempotency_key = key_text body.key;
}

schedule_request-some :
    (p : RelayPrincipal) (body : PublicationBody) (db : Db) {q : ScheduleRequest}
    → schedule_request p body db ≡ some q
    → (tenant : Tenant) × (variant : PostVariant) × (post : Post) × (connection : ChannelConnection)
      × (account : SocialAccount) × (brand : Brand) × (get_tenant p db ≡ some tenant)
      × (find (reached_variant tenant.id p body db) db.variants ≡ some variant)
      × (find (reached_connection tenant.id post.brand body db) db.connections ≡ some connection)
      × (get_brand p post.brand db ≡ some brand)
      × (request_of p body tenant.id variant post connection account brand.id ≡ q)
unfolding schedule_request
schedule_request-some p body db {q} h = elim (Option-cases (get_tenant p db)) [
  | inl e ↦ ground arith
  | inr (tenant, e1) ↦
      elim (Option-cases (find (reached_variant tenant.id p body db) db.variants)) [
        | inl e ↦ ground arith
        | inr (variant, e2) ↦ elim (Option-cases (post_of variant db)) [
          | inl e ↦ ground arith
          | inr (post, e3) ↦
              elim (Option-cases
                (find (reached_connection tenant.id post.brand body db) db.connections)) [
                  | inl e ↦ ground arith
                  | inr (connection, e4) ↦ elim (Option-cases (account_of connection db)) [
                    | inl e ↦ ground arith
                    | inr (account, e5) ↦ elim (Option-cases (get_brand p post.brand db)) [
                      | inl e ↦ ground arith
                      | inr (brand, e6) ↦ (
                        tenant,
                        variant,
                        post,
                        connection,
                        account,
                        brand,
                        e1,
                        e2,
                        e4,
                        e6,
                        ground arith,
                      )
                    ]
                  ]
                ]
        ]
      ]
]

pub schedule_request-InReach :
    (p : RelayPrincipal) (body : PublicationBody) (db : Db) {q : ScheduleRequest}
    → schedule_request p body db ≡ some q
    → InReach p body db q
schedule_request-InReach p body db {q} h =
    let (tenant, variant, post, connection, account, brand, here, found, linked, allowed, made) =
      schedule_request-some p body db h in
    let (same, ours, active, among, (t, there, at, on)) =
      get_brand_isolated p post.brand db allowed in
    let variant_fits = find_sound (reached_variant tenant.id p body db) variant db.variants found in
    let connection_fits =
      find_sound (reached_connection tenant.id post.brand body db) connection db.connections
        linked in
    let tenant_is : tenant.id ≡ p.workspace_id = ground (arith, here, there, at) in
    rw (← made) (tenant_is, among, refl, ground arith, ground arith, refl, refl)

-- `PublicationCollectionView.post` creates a publication (201) only for a principal with the scope and
-- the role, under a key and for a time that is to come; the new row is of the principal's workspace and
-- of a brand that the principal may use, for the variant and connection that the body names, whose post
-- and account are of that workspace and brand, with the post approved and the connection active when the
-- handler read them, and with fit images when the row was stored. A row that was there (200) is the one of
-- the principal's workspace with that key, and nothing is written.
pub create_publication-reply :
    (sha256 : Payload → ℕ) (p : RelayPrincipal) (body : PublicationBody) (now id : ℕ)
    (others : Db → Db) (db : Db) {status : ℕ} {r : SchedulePublicationResult}
    → (create_publication sha256 p body now id others db).0 ≡ reply status r
    → (has_permission publications_write (some p) db ≡ true)
      × (bad_key body.key ≡ false)
      × (leb body.scheduled_for now ≡ false)
      × (r.publication.tenant ≡ p.workspace_id)
      × (((status ≡ 200)
            × (find (has_publication_key p.workspace_id (key_text body.key)) db.publications
                ≡ some r.publication)
            × ((create_publication sha256 p body now id others db).1 ≡ db))
          ⊎ ((status ≡ 201)
              × (elem r.publication.brand p.brand_ids ≡ true)
              × (r.publication.post_variant ≡ body.post_variant_id)
              × (r.publication.channel_connection ≡ body.channel_connection_id)
              × (r.publication.scheduled_for ≡ body.scheduled_for)
              × ((create_publication sha256 p body now id others db).1.publications
                  ≡ r.publication ∷ (others db).publications)
              × ((q : ScheduleRequest) × (schedule_request p body db ≡ some q)
                  × IsSchedulable (others db) q)))
unfolding create_publication
create_publication-reply sha256 p body now id others db {status} {r} h =
    elim (Bool-cases (has_permission publications_write (some p) db)) [
      | inr denied ↦ ground arith
      | inl allowed ↦ elim (Bool-cases (bad_key body.key || leb body.scheduled_for now)) [
        | inl bad ↦ ground arith
        | inr good ↦ elim (Option-cases (schedule_request p body db)) [
          | inl missing ↦ ground arith
          | inr (q, made) ↦
              let (ours, among, subject, v, c, t, key) = schedule_request-InReach p body db made in
              elim (schedule-Ends sha256 q id others db) [
                | inl (existing, found, e) ↦
                    let one : existing ≡ r.publication = ground arith in
                    let keyed =
                      find_sound (has_publication_key q.tenant q.idempotency_key) existing
                        db.publications found in
                    (
                      allowed,
                      ground arith,
                      ground arith,
                      ground arith,
                      inl (
                        ground arith,
                        subst
                            (λ (k : ℕ × String).
                              find (has_publication_key k.0 k.1) db.publications
                              ≡ some r.publication)
                            (λ i. (ours i, key i)) (found ∙ ap (λ x. some x) one),
                        ground arith,
                      ),
                    )
                | inr (missing, inl (x, e)) ↦ ground arith
                | inr (missing, inr (fits, fresh, e)) ↦ (
                  allowed,
                  ground arith,
                  ground arith,
                  ground arith,
                  inr (
                    ground arith,
                    ground arith,
                    ground arith,
                    ground arith,
                    ground arith,
                    ground arith,
                    (q, made, fits),
                  ),
                )
              ]
        ]
      ]
    ]
