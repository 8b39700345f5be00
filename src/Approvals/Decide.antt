-- ===== src/Approvals/Decide.antt =====
-- What `decide_approval` of relay/approvals/services.py does.
use aleyacloud_relay.Base.{
  ℕ, Bool, true, false, String, str_eq, List, ◌≡◌, some, arith, leb, if◌then◌else◌, find, save,
  find-save, ◌==◌, ap, find_sound, ◌||◌, ◌&&◌, ◌∙◌,
}
use aleyacloud_relay.Models.Lifecycle.{is_pending_approval}
use aleyacloud_relay.Models.Content.{Post}
use aleyacloud_relay.Models.Approvals.{is_pending, ApprovalRequest}
use aleyacloud_relay.Store.{Db, Result, ok, raise, invalid_approval_link, approval_already_decided}
use aleyacloud_relay.Store.Laws.{atomic->>=}
use aleyacloud_relay.Approvals.{
  has_digest, is_dead, decision_guards, record_decision, decided_request, decided_post,
  decide_approval,
}

-- What the guards have found where they pass. They write nothing.
abbrev pub Decidable :
    (digest : ℕ) (decision comment : String) (checked : ℕ) → Db → ApprovalRequest → Post → Type 0
Decidable digest decision comment checked db request post =
    (find (has_digest digest) db.approval_requests ≡ some request)
    × (is_dead checked request ≡ false)
    × (is_pending request.decision ≡ true)
    × ((str_eq decision "APPROVED" || str_eq decision "CHANGES_REQUESTED") ≡ true)
    × ((str_eq decision "CHANGES_REQUESTED" && str_eq comment "") ≡ false)
    × (find (λ (p : Post). p.id == request.post) db.posts ≡ some post)
    × (is_pending_approval post.state ≡ true)

module _ (sha256 : List ℕ → ℕ) (token : List ℕ) where
  pub decision_guards-ok :
      (d c : String) (t : ℕ) (db mid : Db) (request : ApprovalRequest) (post : Post)
      → decision_guards sha256 token d c t false db ≡ ok ((request, post), mid)
      → (mid ≡ db) × Decidable (sha256 token) d c t db request post
  unfolding decision_guards
  decision_guards-ok d c t db mid request post h = ground arith

  pub decision_guards-passes :
      (d c : String) (t : ℕ) (db : Db) (request : ApprovalRequest) (post : Post)
      → Decidable (sha256 token) d c t db request post
      → decision_guards sha256 token d c t false db ≡ ok ((request, post), db)
  unfolding decision_guards
  decision_guards-passes d c t db request post h = ground arith

pub record_decision-ok :
    (d c a : String) (u : ℕ) (db after : Db) (request r : ApprovalRequest) (post : Post)
    → record_decision d c a u request post false db ≡ ok (r, after)
    → (r ≡ decided_request d u request)
      × (after.approval_requests ≡ save (λ (x : ApprovalRequest). x.id) r db.approval_requests)
      × (after.posts ≡ save (λ (x : Post). x.id) (decided_post d post) db.posts)
unfolding record_decision
record_decision-ok d c a u db after request r post h = ground arith

module _ (sha256 : List ℕ → ℕ) (token : List ℕ) where
  -- What a decision that goes through has found, and what it leaves.
  pub decide_approval-ok :
      (d c a : String) (t u : ℕ) (db : Db) {r : ApprovalRequest}
      → (decide_approval sha256 token d c a t u db).0 ≡ ok r
      → (request : ApprovalRequest) × (post : Post) × Decidable (sha256 token) d c t db request post
        × (r ≡ decided_request d u request)
        × ((decide_approval sha256 token d c a t u db).1.approval_requests
            ≡ save (λ (x : ApprovalRequest). x.id) r db.approval_requests)
        × ((decide_approval sha256 token d c a t u db).1.posts
            ≡ save (λ (x : Post). x.id) (decided_post d post) db.posts)
  unfolding decide_approval
  decide_approval-ok d c a t u db {r} h =
      let ((request, post), mid, guards, writes) =
        atomic->>= (decision_guards sha256 token d c t)
          (λ (x : ApprovalRequest × Post). record_decision d c a u x.0 x.1) db h in
      let (same, found) = decision_guards-ok sha256 token d c t db mid request post guards in
      let written = record_decision-ok d c a u mid _ request r post writes in
      (
        request,
        post,
        found,
        written.0,
        written.1
            ∙ ap (λ (x : Db). save (λ (y : ApprovalRequest). y.id) r x.approval_requests) same,
        written.2 ∙ ap (λ (x : Db). save (λ (y : Post). y.id) (decided_post d post) x.posts) same,
      )

  -- A link that has been decided is refused, and nothing is written.
  pub decide_approval_again :
      (d c a : String) (t u : ℕ) (db : Db) (r : ApprovalRequest)
      → find (has_digest (sha256 token)) db.approval_requests ≡ some r
      → is_pending r.decision ≡ false
      → decide_approval sha256 token d c a t u db
        ≡ (raise (if is_dead t r then invalid_approval_link else approval_already_decided), db)
  unfolding decide_approval decision_guards
  decide_approval_again d c a t u db r found decided = ground arith

  decided_not_pending :
      (d : String) (u : ℕ) (r : ApprovalRequest)
      → is_pending (decided_request d u r).decision ≡ false
  decided_not_pending d u r = ground arith

  -- A decision does not revoke: only the time can still close the link.
  decided_is_dead :
      (d : String) (t u t' : ℕ) (request : ApprovalRequest)
      → is_dead t request ≡ false
      → is_dead t' (decided_request d u request) ≡ leb (decided_request d u request).expires_at t'
  decided_is_dead d t u t' request h = ground arith

  -- An approval link answers only once: after a `decide_approval` that returned, a second one with the same
  -- token, whatever its decision and time, changes nothing and is refused, as an invalid link where the
  -- time of the request is over and as already decided otherwise.
  pub decide_twice :
      (d c a : String) (t u : ℕ) (d' c' a' : String) (t' u' : ℕ) (db : Db) {r : ApprovalRequest}
      → (decide_approval sha256 token d c a t u db).0 ≡ ok r
      → let after = (decide_approval sha256 token d c a t u db).1 in
        decide_approval sha256 token d' c' a' t' u' after ≡ (
          raise (if leb r.expires_at t' then invalid_approval_link else approval_already_decided),
          after,
        )
  decide_twice d c a t u d' c' a' t' u' db {r} h =
      let (request, post, found, e, requests, posts) = decide_approval-ok d c a t u db h in
      let stored =
        find-save (has_digest (sha256 token)) (λ (x : ApprovalRequest). x.id) request r
          db.approval_requests (ap (λ (x : ApprovalRequest). x.id) e)
          (rw e (find_sound (has_digest (sha256 token)) request db.approval_requests found.0))
          found.0 in
      let after : Db = (decide_approval sha256 token d c a t u db).1 in
      decide_approval_again d' c' a' t' u' after r (rw requests stored)
        (rw e (decided_not_pending d u request))
      ∙ ap
          (λ (b : Bool).
            let out : Result ApprovalRequest × Db =
              (raise (if b then invalid_approval_link else approval_already_decided), after) in
            out)
          (rw e (decided_is_dead d t u t' request found.1))
