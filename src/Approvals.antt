-- ===== src/Approvals.antt =====
-- relay/approvals/services.py: a member asks for an approval, the client decides by the link, and
-- the link can be revoked. What `timezone.now`, `uuid4` and `secrets.token_urlsafe` return is an
-- argument of each operation, in the order in which the code reads them.
pub mod Decide
pub mod Links
pub mod Workflow
use aleyacloud_relay.Base.{
  ℕ, ◌+◌, ◌*◌, Bool, true, false, not, ◌&&◌, ◌||◌, String, str_eq, List, [], ◌∷◌, ◌++◌, Option,
  none, some, leb, ◌==◌, if◌then◌else◌, is_some, find, exists, save, codes, rstrip_slash,
}
use aleyacloud_relay.Models.Lifecycle.{LifecycleState, is_draft, is_pending_approval}
use aleyacloud_relay.Models.Tenancy.{Brand}
use aleyacloud_relay.Models.Content.{Post}
use aleyacloud_relay.Models.Approvals.{
  ApprovalDecision, is_pending, ApprovalRequest, ApprovalComment,
}
use aleyacloud_relay.Models.Audit.{Value, AuditLog}
use aleyacloud_relay.Store.{
  Db, Error, Result, does_not_exist, value_error, invalid_approval_link, approval_already_decided,
  approval_already_revoked, invalid_approval_state, Tx, pure, ◌>>=◌, ◌>>◌, raise_if, get, write,
  insert, atomic, log,
}

pub record ApprovalLink : Type 0 where
  pub request : ApprovalRequest
  pub url : List ℕ

abbrev pub day : ℕ
day = 86400

abbrev pub save_request : ApprovalRequest → Db → Db
save_request r db = record db {
  approval_requests = save (λ (x : ApprovalRequest). x.id) r db.approval_requests;
}

abbrev pub save_post : Post → Db → Db
save_post p db = record db { posts = save (λ (x : Post). x.id) p db.posts }

-- `Post.objects.select_for_update().get(id=..., tenant=..., brand=...)`
abbrev pub has_scope : ℕ → ℕ → ℕ → Post → Bool
has_scope id tenant brand p = p.id == id && (p.tenant == tenant && p.brand == brand)

abbrev pub has_digest : ℕ → ApprovalRequest → Bool
has_digest digest r = r.token_digest == digest

abbrev pub brand_of : ℕ → Db → Option Brand
brand_of id db = find (λ (b : Brand). b.id == id) db.brands

-- `brand__workspace=tenant`
abbrev pub in_workspace : ℕ → Db → ApprovalRequest → Bool
in_workspace tenant db r =
    exists (λ (b : Brand). b.id == r.brand && b.workspace == tenant) db.brands

-- A link that cannot be used at the time `now`: revoked, or past its time.
abbrev pub is_dead : ℕ → ApprovalRequest → Bool
is_dead now r = is_some r.revoked_at || leb r.expires_at now

-- `hashlib.sha256` on the encoded token, and the setting RELAY_PUBLIC_API_URL.
module _ (sha256 : List ℕ → ℕ) where
  unfoldable pub approval_url : List ℕ → List ℕ → List ℕ
  approval_url base token = rstrip_slash base ++ (codes "/approval-links/" ++ (token ++ codes "/"))

  unfoldable pub request_approval :
      (tenant brand post : ℕ) (subject : String) (expires_in_days : ℕ) (base_url token : List ℕ)
      (request_id now : ℕ)
      → Db
      → Result ApprovalLink × Db
  unfolding approval_url
  request_approval tenant brand post_id subject days base_url token request_id now = atomic (do
    post ← get (λ db. find (has_scope post_id tenant brand) db.posts) does_not_exist
    raise_if (not (is_draft post.state || is_pending_approval post.state)) invalid_approval_state
    let request : ApprovalRequest = record {
      id = request_id;
      brand = brand;
      post = post.id;
      requested_by_subject = subject;
      token_digest = sha256 token;
      expires_at = now + days * day;
      revoked_at = none;
      decided_at = none;
      decision = ApprovalDecision.pending;
    }
    insert
        (λ db.
          exists (λ (r : ApprovalRequest). r.id == request_id || has_digest (sha256 token) r)
            db.approval_requests)
        (λ db. record db { approval_requests = request ∷ db.approval_requests })
    if is_pending_approval post.state
        then pure tt
        else write (save_post (record post { state = LifecycleState.pending_approval }))
    log (record {
      tenant = tenant;
      brand = some brand;
      actor_type = "service";
      actor_id = Value.text subject;
      event_type = "approval.requested";
      subject_type = "approval_request";
      subject_id = request.id;
      metadata =
          ("post_id", Value.uuid post.id) ∷ ("expires_at", Value.moment request.expires_at) ∷ [];
    })
    pure (record { request = request; url = approval_url base_url token }))

  unfoldable pub get_active_approval_request : List ℕ → ℕ → Db → Result ApprovalRequest
  get_active_approval_request token now db =
      elim (find (has_digest (sha256 token)) db.approval_requests) [
        | none ↦ Result.raise invalid_approval_link
        | some r ↦ if is_dead now r then Result.raise invalid_approval_link else Result.ok r
      ]

  -- The first half of `decide_approval`: the rows that it locks and its guards.
  unfoldable pub decision_guards :
      (token : List ℕ) (decision comment : String) (checked : ℕ) → Tx (ApprovalRequest × Post)
  decision_guards token decision comment checked = do
    request ←
        get (λ db. find (has_digest (sha256 token)) db.approval_requests) invalid_approval_link
    raise_if (is_dead checked request) invalid_approval_link
    raise_if (not (is_pending request.decision)) approval_already_decided
    raise_if (not (str_eq decision "APPROVED" || str_eq decision "CHANGES_REQUESTED")) value_error
    raise_if (str_eq decision "CHANGES_REQUESTED" && str_eq comment "") value_error
    post ← get (λ db. find (λ (p : Post). p.id == request.post) db.posts) does_not_exist
    raise_if (not (is_pending_approval post.state)) invalid_approval_state
    pure (request, post)

abbrev pub decided_request : String → ℕ → ApprovalRequest → ApprovalRequest
decided_request decision decided request = record request {
  decision =
      if str_eq decision "APPROVED"
      then ApprovalDecision.approved
      else ApprovalDecision.changes_requested;
  decided_at = some decided;
}

abbrev pub decided_post : String → Post → Post
decided_post decision post = record post {
  state = if str_eq decision "APPROVED" then LifecycleState.approved else LifecycleState.draft;
}

-- The second half: what a decision writes.
unfoldable pub record_decision :
    (decision comment author_label : String) (decided : ℕ)
    → ApprovalRequest
    → Post
    → Tx ApprovalRequest
record_decision decision comment author_label decided request post = do
  write (save_request (decided_request decision decided request))
  write (save_post (decided_post decision post))
  if str_eq comment ""
      then pure tt
      else write (λ db. record db {
        comments =
            record { approval_request = request.id; author_label = author_label; body = comment }
            ∷ db.comments;
      })
  brand ← get (brand_of request.brand) does_not_exist
  log (record {
    tenant = brand.workspace;
    brand = some request.brand;
    actor_type = "approval_link";
    actor_id = Value.uuid request.id;
    event_type =
        if str_eq decision "APPROVED" then "approval.approved" else "approval.changes_requested";
    subject_type = "post";
    subject_id = post.id;
    metadata = ("approval_request_id", Value.uuid request.id) ∷ [];
  })
  pure (decided_request decision decided request)

unfoldable pub decide_approval :
    (sha256 : List ℕ → ℕ) (token : List ℕ) (decision comment author_label : String)
    (checked decided : ℕ)
    → Db
    → Result ApprovalRequest × Db
decide_approval sha256 token decision comment author_label checked decided = atomic (
    decision_guards sha256 token decision comment checked >>= λ (request, post).
    record_decision decision comment author_label decided request post)

unfoldable pub revoke_approval :
    (approval_request tenant : ℕ) (subject : String) (now : ℕ) → Db → Result ApprovalRequest × Db
revoke_approval request_id tenant subject now = atomic (do
  request ←
      get
        (λ db.
          find (λ (r : ApprovalRequest). r.id == request_id && in_workspace tenant db r)
            db.approval_requests)
        does_not_exist
  raise_if (is_some request.revoked_at || not (is_pending request.decision))
      approval_already_revoked
  let request' : ApprovalRequest = record request { revoked_at = some now }
  write (save_request request')
  log (record {
    tenant = tenant;
    brand = some request.brand;
    actor_type = "service";
    actor_id = Value.text subject;
    event_type = "approval.revoked";
    subject_type = "approval_request";
    subject_id = request.id;
    metadata = ("post_id", Value.uuid request.post) ∷ [];
  })
  pure request')
