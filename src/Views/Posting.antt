-- ===== src/Views/Posting.antt =====
-- relay/api/views.py: the handlers on posts and on their approvals.
use aleyacloud_relay.Base.{
  ℕ, Bool, not, ◌&&◌, ◌||◌, String, str_eq, List, Option, none, some, ltb, ◌==◌, if◌then◌else◌,
  find, elem, length, codes,
}
use aleyacloud_relay.Models.Content.{Post}
use aleyacloud_relay.Models.Approvals.{ApprovalRequest}
use aleyacloud_relay.Store.{
  Db, Error, idempotency_conflict, invalid_media_asset, invalid_state_transition,
  invalid_approval_state, invalid_approval_link, approval_already_decided, approval_already_revoked,
}
use aleyacloud_relay.Access.{RelayPrincipal, Requirement, has_permission, get_tenant, get_brand}
use aleyacloud_relay.Approvals.{in_workspace, decide_approval, revoke_approval}
use aleyacloud_relay.Posts.{Payload, PostPayload, CreatePostResult, create_post_draft, approve_post}
use aleyacloud_relay.Views.{
  Answer, refused, editors, answer, created_status, bad_key, key_text, ◌>>=◌,
}

abbrev pub posts_write : Requirement
posts_write = record { required_scope = some "posts:write"; required_roles = some editors }

abbrev pub posts_approve : Requirement
posts_approve = record { required_scope = some "posts:approve"; required_roles = some editors }

abbrev pub approvals_write : Requirement
approvals_write = record { required_scope = some "approvals:write"; required_roles = some editors }

abbrev title_length : Option String → ℕ
title_length none = 0
title_length (some t) = length (codes t)

-- What `PostCreateSerializer` refuses.
unfoldable pub bad_post : PostPayload → Bool
bad_post payload =
    str_eq payload.body ""
    || (ltb 255 (title_length payload.title) || ltb 10 (length payload.media_asset_ids))

abbrev pub create_errors : Error → Option ℕ
create_errors idempotency_conflict = some 409
create_errors invalid_media_asset = some 400
create_errors _ = none

-- `PostCollectionView.post`. Where `get_brand` answers, the tenant's id is that of the principal.
unfoldable pub create_post :
    (sha256 : Payload → ℕ)
    → RelayPrincipal
    → (key : Option String) → PostPayload
    → (post_id variant_id : ℕ) (others : Db → Db) → Db
    → Answer CreatePostResult × Db
create_post sha256 p key payload post_id variant_id others db =
    if not (has_permission posts_write (some p) db)
    then (refused 403, db)
    else if bad_key key || bad_post payload
    then (refused 400, db)
    else elim (get_brand p payload.brand_id db) [
      | none ↦ (refused 404, db)
      | some brand ↦
          answer create_errors (λ r. created_status r.created)
            (create_post_draft sha256 p.workspace_id brand.id p.subject (key_text key) payload
              post_id variant_id others db)
    ]

-- `get_object_or_404(Post, id=post_id, tenant=self.get_tenant(), brand_id__in=self.request.user.brand_ids)`
abbrev pub in_reach : RelayPrincipal → (post_id : ℕ) → Post → Bool
in_reach p post_id post =
    post.id == post_id && (post.tenant == p.workspace_id && elem post.brand p.brand_ids)

-- The post, where the workspace and the brand are active; none is a 404.
unfoldable pub reach_post : RelayPrincipal → (post_id : ℕ) → Db → Option Post
reach_post p post_id db = do
  tenant ← get_tenant p db
  post ← find (in_reach p post_id) db.posts
  brand ← get_brand p post.brand db
  some post

abbrev pub approve_errors : Error → Option ℕ
approve_errors invalid_state_transition = some 409
approve_errors _ = none

-- `PostApprovalView.post`
unfoldable pub approve : RelayPrincipal → (post_id : ℕ) → Db → Answer Post × Db
approve p post_id db =
    if not (has_permission posts_approve (some p) db)
    then (refused 403, db)
    else elim (reach_post p post_id db) [
      | none ↦ (refused 404, db)
      | some post ↦
          answer approve_errors (λ r. 200)
            (approve_post post.id p.workspace_id post.brand p.subject db)
    ]

-- The body of `ApprovalDecisionSerializer`, whose choices and `validate` are the tests.
unfoldable pub bad_decision : (decision comment author_label : String) → Bool
bad_decision decision comment author_label =
    not (str_eq decision "APPROVED" || str_eq decision "CHANGES_REQUESTED")
    || (ltb 255 (length (codes author_label))
        || (str_eq decision "CHANGES_REQUESTED" && str_eq comment ""))

abbrev pub decision_errors : Error → Option ℕ
decision_errors invalid_approval_link = some 404
decision_errors approval_already_decided = some 409
decision_errors invalid_approval_state = some 409
decision_errors _ = none

-- `ApprovalLinkDecisionView.post`, which asks for no principal.
unfoldable pub decide :
    (sha256 : List ℕ → ℕ) (token : List ℕ) (decision comment author_label : String)
    (checked decided : ℕ)
    → Db
    → Answer ApprovalRequest × Db
decide sha256 token decision comment author_label checked decided db =
    if bad_decision decision comment author_label
    then (refused 400, db)
    else answer decision_errors (λ r. 200)
        (decide_approval sha256 token decision comment author_label checked decided db)

abbrev pub revoke_errors : Error → Option ℕ
revoke_errors approval_already_revoked = some 409
revoke_errors _ = none

-- `ApprovalRequestDetailView.delete`
unfoldable pub revoke : RelayPrincipal → (request_id now : ℕ) → Db → Answer ApprovalRequest × Db
revoke p request_id now db =
    if not (has_permission approvals_write (some p) db)
    then (refused 403, db)
    else elim (get_tenant p db) [
      | none ↦ (refused 404, db)
      | some tenant ↦
          elim (find
            (λ (r : ApprovalRequest).
              r.id == request_id && (in_workspace tenant.id db r && elem r.brand p.brand_ids))
            db.approval_requests) [
              | none ↦ (refused 404, db)
              | some r ↦
                  answer revoke_errors (λ x. 204) (revoke_approval r.id tenant.id p.subject now db)
            ]
    ]
