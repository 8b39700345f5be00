-- ===== src/Views.antt =====
-- relay/api/views.py: the handlers that create a publication and approve a post, with the permission
-- that is checked before them. What `timezone.now` and `uuid4` return is an argument.
pub mod Publishing
pub mod Posting
pub mod Reach
pub mod Data
pub mod Listing
pub mod Uploading
pub mod Linking
pub mod Connecting
pub mod Panel
use aleyacloud_relay.Base.{
  ℕ, Bool, true, false, not, ◌&&◌, ◌||◌, String, List, [], ◌∷◌, Option, none, some, ltb, leb, ◌==◌,
  if◌then◌else◌, find, elem, length, codes,
}
use aleyacloud_relay.Models.Tenancy.{Tenant, Brand, MembershipRole}
use aleyacloud_relay.Models.Content.{Post, PostVariant}
use aleyacloud_relay.Models.Social.{SocialAccount, ChannelConnection}
use aleyacloud_relay.Models.Publications.{Publication}
use aleyacloud_relay.Store.{
  Db, Error, Result, ok, raise, idempotency_conflict, invalid_schedule, invalid_state_transition,
}
use aleyacloud_relay.Access.{RelayPrincipal, Requirement, has_permission, get_tenant, get_brand}
use aleyacloud_relay.Posts.{Payload, approve_post}
use aleyacloud_relay.Scheduling.{ScheduleRequest, SchedulePublicationResult, schedule_publication}

-- A response with its status and its row, an error response, or an exception that no handler catches.
pub data Answer (A : Type 0) : Type 0 where
  reply : (status : ℕ) → A → Answer A
  refused : (status : ℕ) → Answer A
  crashed : Error → Answer A

abbrev pub editors : List MembershipRole
editors = MembershipRole.owner ∷ MembershipRole.manager ∷ MembershipRole.content_creator ∷ []

-- What a service's result becomes: `status` is that of the response, and `catches` gives the error
-- responses of the exceptions that the handler catches.
abbrev pub answer :
    {A : Type 0} → (catches : Error → Option ℕ) (status : A → ℕ) → Result A × Db → Answer A × Db
answer catches status (ok a, db) = (reply (status a) a, db)
answer catches status (raise e, db) = elim (catches e) [
  | none ↦ (crashed e, db)
  | some s ↦ (refused s, db)
]

-- IdempotencyConflictResponse and InvalidStateResponse.
abbrev pub schedule_errors : Error → Option ℕ
schedule_errors idempotency_conflict = some 409
schedule_errors invalid_schedule = some 409
schedule_errors invalid_state_transition = some 409
schedule_errors _ = none

abbrev pub created_status : Bool → ℕ
created_status created = if created then 201 else 200

-- `not idempotency_key or len(idempotency_key) > 255`
unfoldable pub bad_key : Option String → Bool
bad_key none = true
bad_key (some key) = length (codes key) == 0 || ltb 255 (length (codes key))

abbrev pub post_of : PostVariant → Db → Option Post
post_of v db = find (λ (p : Post). p.id == v.post) db.posts

abbrev pub account_of : ChannelConnection → Db → Option SocialAccount
account_of c db = find (λ (a : SocialAccount). a.id == c.social_account) db.accounts

-- `post__tenant=tenant, post__brand_id__in=request.user.brand_ids`
abbrev pub reaches_post : (tenant : ℕ) (brand_ids : List ℕ) → Option Post → Bool
reaches_post tenant brand_ids none = false
reaches_post tenant brand_ids (some p) = p.tenant == tenant && elem p.brand brand_ids

-- `social_account__tenant=tenant, social_account__brand_id=...`
abbrev pub is_account_in : (tenant brand : ℕ) → Option SocialAccount → Bool
is_account_in tenant brand none = false
is_account_in tenant brand (some a) = a.tenant == tenant && a.brand == brand

-- The validated body of PublicationCreateSerializer and the header.
pub record PublicationBody : Type 0 where
  pub key : Option String
  pub post_variant_id : ℕ
  pub channel_connection_id : ℕ
  pub scheduled_for : ℕ

abbrev pub key_text : Option String → String
key_text none = ""
key_text (some key) = key

abbrev pub publications_write : Requirement
publications_write = record {
  required_scope = some "publications:write";
  required_roles = some editors;
}

infixl 5 ◌>>=◌
abbrev pub ◌>>=◌ : {A B : Type 0} → Option A → (A → Option B) → Option B
none >>= f = none
some a >>= f = f a

-- The rows that the handler looks up, as the arguments of the command; none is a 404.
unfoldable pub schedule_request : RelayPrincipal → PublicationBody → Db → Option ScheduleRequest
schedule_request p body db = do
  tenant ← get_tenant p db
  variant ←
      find
        (λ (v : PostVariant).
          v.id == body.post_variant_id && reaches_post tenant.id p.brand_ids (post_of v db))
        db.variants
  post ← post_of variant db
  connection ←
      find
        (λ (c : ChannelConnection).
          c.id == body.channel_connection_id
          && is_account_in tenant.id post.brand (account_of c db))
        db.connections
  account ← account_of connection db
  brand ← get_brand p post.brand db
  some (record {
    tenant = tenant.id;
    brand = brand.id;
    subject = p.subject;
    post_variant = variant;
    post = post;
    channel_connection = connection;
    account = account;
    scheduled_for = body.scheduled_for;
    idempotency_key = key_text body.key;
  })

-- The new row, or the one that was there.
abbrev pub answer_schedule :
    Result SchedulePublicationResult × Db → Answer SchedulePublicationResult × Db
answer_schedule = answer schedule_errors (λ r. created_status r.created)

-- `PublicationCollectionView.post`
unfoldable pub create_publication :
    (sha256 : Payload → ℕ)
    → RelayPrincipal
    → PublicationBody
    → (now publication_id : ℕ) (others : Db → Db) → Db
    → Answer SchedulePublicationResult × Db
create_publication sha256 p body now publication_id others db =
    if not (has_permission publications_write (some p) db)
    then (refused 403, db)
    else if bad_key body.key || leb body.scheduled_for now
    then (refused 400, db)
    else elim (schedule_request p body db) [
      | none ↦ (refused 404, db)
      | some q ↦ answer_schedule (schedule_publication sha256 q publication_id others db)
    ]
