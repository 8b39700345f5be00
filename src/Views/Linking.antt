-- ===== src/Views/Linking.antt =====
-- relay/api/views.py: the handlers that ask for an approval and show what a link is about.
use aleyacloud_relay.Base.{
  ℕ, Bool, not, ◌&&◌, List, Option, none, some, leb, ◌==◌, if◌then◌else◌, find,
}
use aleyacloud_relay.Models.Content.{Post}
use aleyacloud_relay.Models.Approvals.{ApprovalRequest}
use aleyacloud_relay.Store.{
  Db, Error, ok, raise, invalid_approval_link, invalid_approval_state, does_not_exist,
}
use aleyacloud_relay.Access.{RelayPrincipal, has_permission, get_tenant, get_brand}
use aleyacloud_relay.Approvals.{ApprovalLink, request_approval, get_active_approval_request}
use aleyacloud_relay.Views.{Answer, reply, refused, crashed, answer, ◌>>=◌}
use aleyacloud_relay.Views.Data.{
  Timestamps, PostData, ApprovalRequestData, post_data, approval_data,
}
use aleyacloud_relay.Views.Posting.{approvals_write, in_reach}

pub record LinkReply : Type 0 where
  pub request : ApprovalRequestData
  pub approval_url : List ℕ

-- `expires_in_days` is 7 where the request has none.
abbrev pub days_of : Option ℕ → ℕ
days_of none = 7
days_of (some n) = n

-- What ApprovalRequestCreateSerializer refuses.
abbrev pub bad_days : Option ℕ → Bool
bad_days days = not (leb 1 (days_of days) && leb (days_of days) 30)

abbrev pub request_errors : Error → Option ℕ
request_errors invalid_approval_state = some 409
request_errors _ = none

-- The new link, on the rows that hold it.
abbrev pub link_reply : Answer ApprovalLink × Db → Answer LinkReply × Db
link_reply (reply s l, db) =
    (reply s (record { request = approval_data db l.request; approval_url = l.url }), db)
link_reply (refused s, db) = (refused s, db)
link_reply (crashed e, db) = (crashed e, db)

-- `PostApprovalRequestView.post`
unfoldable pub request_link :
    (sha256 : List ℕ → ℕ)
    → RelayPrincipal
    → (post_id : ℕ) (expires_in_days : Option ℕ) → (base_url token : List ℕ) (request_id now : ℕ)
    → Db
    → Answer LinkReply × Db
request_link sha256 p post_id days base_url token request_id now db =
    if not (has_permission approvals_write (some p) db)
    then (refused 403, db)
    else elim (get_tenant p db >>= λ tenant. find (in_reach p post_id) db.posts) [
      | none ↦ (refused 404, db)
      | some post ↦ if bad_days days then (refused 400, db) else elim (get_brand p post.brand db) [
        | none ↦ (refused 404, db)
        | some brand ↦ link_reply (
            answer request_errors (λ r. 201)
              (request_approval sha256 p.workspace_id brand.id post.id p.subject (days_of days)
                base_url token request_id now db))
      ]
    ]

pub record ApprovalLinkReply : Type 0 where
  pub request : ApprovalRequestData
  pub post : PostData

abbrev pub show_post_of : Timestamps → Db → ApprovalRequest → Answer ApprovalLinkReply
show_post_of times db r = elim (find (λ (x : Post). x.id == r.post) db.posts) [
  | none ↦ crashed does_not_exist
  | some post ↦ reply 200 (record { request = approval_data db r; post = post_data times db post })
]

-- `ApprovalLinkView.get`, which asks for no principal.
unfoldable pub show_link :
    Timestamps → (sha256 : List ℕ → ℕ) (token : List ℕ) (now : ℕ) → Db → Answer ApprovalLinkReply
show_link times sha256 token now db = elim (get_active_approval_request sha256 token now db) [
  | ok r ↦ show_post_of times db r
  | raise e ↦ elim e [ invalid_approval_link ↦ refused 404 | other ↦ crashed other ]
]
