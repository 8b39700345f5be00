-- ===== src/Approvals/Links.antt =====
-- Which approval links of relay/approvals/services.py can be used, and what `revoke_approval` does to
-- them.
use aleyacloud_relay.Base.{
  ℕ, true, false, ◌&&◌, String, List, none, some, ◌≡◌, inl, inr, arith, ◌==◌, find, save,
  Option-cases, find_sound, find-save,
}
use aleyacloud_relay.Models.Approvals.{is_pending, ApprovalRequest}
use aleyacloud_relay.Store.{Db, ok, raise, invalid_approval_link}
use aleyacloud_relay.Approvals.{
  has_digest, is_dead, in_workspace, get_active_approval_request, decision_guards, decide_approval,
  revoke_approval,
}

module _ (sha256 : List ℕ → ℕ) (token : List ℕ) where
  -- The holder of a token sees a request exactly where one has its digest that is not revoked and whose
  -- time is not over.
  get_active_iff :
      (now : ℕ) (db : Db) (r : ApprovalRequest)
      → ((get_active_approval_request sha256 token now db ≡ ok r)
          → (find (has_digest (sha256 token)) db.approval_requests ≡ some r)
            × (is_dead now r ≡ false))
        × ((find (has_digest (sha256 token)) db.approval_requests ≡ some r)
              × (is_dead now r ≡ false)
            → get_active_approval_request sha256 token now db ≡ ok r)
  unfolding get_active_approval_request
  get_active_iff now db r = ((λ h. ground arith), (λ (found, alive). ground arith))

  dead_active :
      (now : ℕ) (db : Db) (r : ApprovalRequest)
      → find (has_digest (sha256 token)) db.approval_requests ≡ some r
      → is_dead now r ≡ true
      → get_active_approval_request sha256 token now db ≡ raise invalid_approval_link
  unfolding get_active_approval_request
  dead_active now db r found dead = ground arith

  dead_decide :
      (d c a : String) (t u : ℕ) (db : Db) (r : ApprovalRequest)
      → find (has_digest (sha256 token)) db.approval_requests ≡ some r
      → is_dead t r ≡ true
      → decide_approval sha256 token d c a t u db ≡ (raise invalid_approval_link, db)
  unfolding decide_approval decision_guards
  dead_decide d c a t u db r found dead = ground arith

-- What a revocation that goes through has found and written.
pub revoke_approval-ok :
    (id tenant : ℕ) (subject : String) (now : ℕ) (db : Db) {r : ApprovalRequest}
    → (revoke_approval id tenant subject now db).0 ≡ ok r
    → (old : ApprovalRequest) × (find
          (λ (x : ApprovalRequest). x.id == id && in_workspace tenant db x)
          db.approval_requests
        ≡ some old)
      × (old.revoked_at ≡ none)
      × (is_pending old.decision ≡ true)
      × (r ≡ record old { revoked_at = some now })
      × ((revoke_approval id tenant subject now db).1.approval_requests
          ≡ save (λ (x : ApprovalRequest). x.id) r db.approval_requests)
unfolding revoke_approval
revoke_approval-ok id tenant subject now db {r} h =
    elim (Option-cases (
      find (λ (x : ApprovalRequest). x.id == id && in_workspace tenant db x)
        db.approval_requests)) [
          | inl missing ↦ ground arith
          | inr (old, found) ↦ (old, found, ground arith, ground arith, ground arith, ground arith)
        ]

module _ (sha256 : List ℕ → ℕ) (token : List ℕ) where
  -- Once the request of a token was revoked, its link shows nothing and takes no decision, at any time.
  pub revoke_closes :
      (id tenant : ℕ) (subject : String) (now : ℕ) (d c a : String) (t u : ℕ) (db : Db)
      {r old : ApprovalRequest}
      → (revoke_approval id tenant subject now db).0 ≡ ok r
      → find (λ (x : ApprovalRequest). x.id == id && in_workspace tenant db x) db.approval_requests
        ≡ some old
      → find (has_digest (sha256 token)) db.approval_requests ≡ some old
      → (get_active_approval_request sha256 token t (revoke_approval id tenant subject now db).1
          ≡ raise invalid_approval_link)
        × (decide_approval sha256 token d c a t u (revoke_approval id tenant subject now db).1
            ≡ (raise invalid_approval_link, (revoke_approval id tenant subject now db).1))
  revoke_closes id tenant subject now d c a t u db {r} {old} h here found =
      let (old', found', _, _, e, after) = revoke_approval-ok id tenant subject now db h in
      let same : old' ≡ old = ground (arith, found', here) in
      let after_db : Db = (revoke_approval id tenant subject now db).1 in
      let fits = find_sound (has_digest (sha256 token)) old db.approval_requests found in
      let stored : find (has_digest (sha256 token)) after_db.approval_requests ≡ some r = rw after (
        find-save (has_digest (sha256 token)) (λ (x : ApprovalRequest). x.id) old r
          db.approval_requests (ground arith) (ground arith) found) in
      (
        dead_active sha256 token t after_db r stored (ground arith),
        dead_decide sha256 token d c a t u after_db r stored (ground arith),
      )
