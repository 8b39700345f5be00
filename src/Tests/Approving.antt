-- ===== src/Tests/Approving.antt =====
-- Runs of relay/approvals/services.py on the test data.
use aleyacloud_relay.Base.{ℕ, List, some, ◌≡◌, refl, codes, find, exists, save, rstrip_slash, ◌==◌}
use aleyacloud_relay.Models.Lifecycle.{LifecycleState}
use aleyacloud_relay.Models.Content.{Post}
use aleyacloud_relay.Models.Approvals.{ApprovalRequest}
use aleyacloud_relay.Store.{Db, ok, raise, invalid_approval_link, approval_already_decided}
use aleyacloud_relay.Approvals.{
  ApprovalLink, approval_url, request_approval, get_active_approval_request, decision_guards,
  record_decision, decided_request, decide_approval, revoke_approval,
}
use aleyacloud_relay.Approvals.Decide.{decide_twice}
use aleyacloud_relay.Approvals.Links.{revoke_closes}
use aleyacloud_relay.Approvals.Workflow.{pending_request, request_then_decide}
use aleyacloud_relay.Tests.{digest, brand, post_in, start_db}

abbrev token : List ℕ
token = codes "token"

-- The draft waits for the client until two days after the time 1000.
abbrev requested_db : Db
requested_db =
    (request_approval digest 1 10 100 "ana" 2 (codes "https://relay/") token 600 1000 start_db).1

abbrev request : ApprovalRequest
request = pending_request 10 100 "ana" 5 173800 600

abbrev link : ApprovalLink
link = record { request = request; url = codes "https://relay/approval-links/token/" }

requested :
    (request_approval digest 1 10 100 "ana" 2 (codes "https://relay/") token 600 1000 start_db).0
    ≡ ok link
unfolding request_approval find exists approval_url rstrip_slash
requested = refl

approved :
    (decide_approval digest token "APPROVED" "" "" 2000 2001 requested_db).0
    ≡ ok (decided_request "APPROVED" 2001 request)
unfolding decide_approval decision_guards record_decision request_approval find exists approval_url
    rstrip_slash save
approved = refl

decide_twice_example :
    decide_approval digest token "CHANGES_REQUESTED" "Too late" "Bo" 3000 3001
      (decide_approval digest token "APPROVED" "" "" 2000 2001 requested_db).1
    ≡ (
      raise approval_already_decided,
      (decide_approval digest token "APPROVED" "" "" 2000 2001 requested_db).1,
    )
decide_twice_example =
    decide_twice digest token "APPROVED" "" "" 2000 2001 "CHANGES_REQUESTED" "Too late" "Bo" 3000
      3001 requested_db {r = decided_request "APPROVED" 2001 request} approved

revoked :
    (revoke_approval 600 1 "ana" 1500 requested_db).0
    ≡ ok (record request { revoked_at = some 1500 })
unfolding revoke_approval find exists request_approval approval_url rstrip_slash
revoked = refl

revoke_closes_example :
    (get_active_approval_request digest token 2000 (revoke_approval 600 1 "ana" 1500 requested_db).1
      ≡ raise invalid_approval_link)
    × (decide_approval digest token "APPROVED" "" "" 2000 2001
          (revoke_approval 600 1 "ana" 1500 requested_db).1
        ≡ (raise invalid_approval_link, (revoke_approval 600 1 "ana" 1500 requested_db).1))
unfolding find exists request_approval approval_url rstrip_slash
revoke_closes_example =
    revoke_closes digest token 600 1 "ana" 1500 "APPROVED" "" "" 2000 2001 requested_db
      {r = record request { revoked_at = some 1500 }} {old = request} revoked refl refl

request_then_decide_example :
    ((decide_approval digest token "CHANGES_REQUESTED" "Shorter" "Bo" 2000 2001 requested_db).0
      ≡ ok (decided_request "CHANGES_REQUESTED" 2001 request))
    × (find
          (λ (x : Post). x.id == 100)
          (decide_approval digest token "CHANGES_REQUESTED" "Shorter" "Bo" 2000 2001
            requested_db).1.posts
        ≡ some (post_in LifecycleState.draft))
unfolding find
request_then_decide_example =
    request_then_decide digest 1 10 100 "ana" 2 (codes "https://relay/") token 600 1000
      "CHANGES_REQUESTED" "Shorter" "Bo" 2000 2001 start_db (post_in LifecycleState.draft) brand
      {link = link} requested refl refl refl refl refl refl
