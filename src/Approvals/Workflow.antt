-- ===== src/Approvals/Workflow.antt =====
-- From `request_approval` to the decision by its link (relay/approvals/services.py).
use aleyacloud_relay.Base.{
  ℕ, ◌+◌, ◌*◌, true, false, ◌&&◌, ◌||◌, String, str_eq, List, ◌∷◌, none, some, ◌≡◌, refl, sym,
  subst, inl, inr, arith, leb, ◌==◌, if◌then◌else◌, find, save, Option-cases, Bool-cases,
  find_sound, find-save, ==_refl,
}
use aleyacloud_relay.Models.Lifecycle.{LifecycleState, is_draft, is_pending_approval}
use aleyacloud_relay.Models.Tenancy.{Brand}
use aleyacloud_relay.Models.Content.{Post}
use aleyacloud_relay.Models.Approvals.{ApprovalDecision, ApprovalRequest}
use aleyacloud_relay.Store.{Db, ok}
use aleyacloud_relay.Approvals.{
  ApprovalLink, day, has_scope, brand_of, request_approval, record_decision, decided_request,
  decided_post, decide_approval,
}
use aleyacloud_relay.Approvals.Decide.{Decidable, decision_guards-passes}

abbrev pub pending_request :
    (brand post : ℕ) (subject : String) (digest expires_at id : ℕ) → ApprovalRequest
pending_request brand post subject digest expires_at id = record {
  id = id;
  brand = brand;
  post = post;
  requested_by_subject = subject;
  token_digest = digest;
  expires_at = expires_at;
  revoked_at = none;
  decided_at = none;
  decision = ApprovalDecision.pending;
}

abbrev pub pending_post : Post → Post
pending_post p = record p { state = LifecycleState.pending_approval }

module _ (sha256 : List ℕ → ℕ) (tenant brand post_id : ℕ) (subject : String) (days : ℕ)
    (base_url token : List ℕ) (id now : ℕ) where
  -- What a request that goes through has found and written.
  pub request_approval-ok :
      (db : Db) {link : ApprovalLink}
      → (request_approval sha256 tenant brand post_id subject days base_url token id now db).0
        ≡ ok link
      → (p : Post) × (find (has_scope post_id tenant brand) db.posts ≡ some p)
        × ((is_draft p.state || is_pending_approval p.state) ≡ true)
        × (link.request ≡ pending_request brand p.id subject (sha256 token) (now + days * day) id)
        × ((request_approval sha256 tenant brand post_id subject days base_url token id now
              db).1.approval_requests
            ≡ link.request ∷ db.approval_requests)
        × ((request_approval sha256 tenant brand post_id subject days base_url token id now
              db).1.posts
            ≡ (if is_pending_approval p.state
                then db.posts
                else save (λ (x : Post). x.id) (pending_post p) db.posts))
        × ((request_approval sha256 tenant brand post_id subject days base_url token id now
              db).1.brands
            ≡ db.brands)
  unfolding request_approval
  request_approval-ok db {link} h =
      elim (Option-cases (find (has_scope post_id tenant brand) db.posts)) [
        | inl missing ↦ ground arith
        | inr (p, found) ↦
            (p, found, ground arith, ground arith, ground arith, ground arith, ground arith)
      ]

module _ (sha256 : List ℕ → ℕ) (token : List ℕ) where
  decide_approval-passes :
      (d c a : String) (t u : ℕ) (db : Db) (request : ApprovalRequest) (p : Post) (b : Brand)
      → Decidable (sha256 token) d c t db request p
      → brand_of request.brand db ≡ some b
      → ((decide_approval sha256 token d c a t u db).0 ≡ ok (decided_request d u request))
        × ((decide_approval sha256 token d c a t u db).1.posts
            ≡ save (λ (x : Post). x.id) (decided_post d p) db.posts)
  unfolding decide_approval record_decision
  decide_approval-passes d c a t u db request p b able known =
      let guards = decision_guards-passes sha256 token d c t db request p able in
      (ground arith, ground arith)

state_pending :
    (s : LifecycleState) → is_pending_approval s ≡ true → s ≡ LifecycleState.pending_approval
state_pending s h = ground arith

requested_post :
    (id : ℕ) (db : Db) (p : Post)
    → find (λ (x : Post). x.id == id) db.posts ≡ some p
    → find
        (λ (x : Post). x.id == id)
        (if is_pending_approval p.state
          then db.posts
          else save (λ (x : Post). x.id) (pending_post p) db.posts)
      ≡ some (pending_post p)
requested_post id db p found = elim (Bool-cases (is_pending_approval p.state)) [
  | inl e ↦ let s = state_pending p.state e in ground arith
  | inr e ↦
      let fits = find_sound (λ (x : Post). x.id == id) p db.posts found in
      rw e (
        find-save (λ (x : Post). x.id == id) (λ (x : Post). x.id) p (pending_post p) db.posts refl
          fits found)
]

module _ (sha256 : List ℕ → ℕ) (tenant brand post_id : ℕ) (subject : String) (days : ℕ)
    (base_url token : List ℕ) (id now : ℕ) where
  requested_Decidable :
      (d c : String) (t : ℕ) (db : Db) (p : Post) {link : ApprovalLink}
      → (request_approval sha256 tenant brand post_id subject days base_url token id now db).0
        ≡ ok link
      → find (λ (x : Post). x.id == post_id) db.posts ≡ some p
      → find (has_scope post_id tenant brand) db.posts ≡ some p
      → leb (now + days * day) t ≡ false
      → (str_eq d "APPROVED" || str_eq d "CHANGES_REQUESTED") ≡ true
      → (str_eq d "CHANGES_REQUESTED" && str_eq c "") ≡ false
      → Decidable
          (sha256 token)
          d
          c
          t
          (request_approval sha256 tenant brand post_id subject days base_url token id now db).1
          link.request
          (pending_post p)
  unfolding find
  requested_Decidable d c t db p {link} h found scoped alive known filled =
      let (q, scoped', _, request, requests, posts, _) =
        request_approval-ok sha256 tenant brand post_id subject days base_url token id now db h in
      let same : q ≡ p = ground (arith, scoped, scoped') in
      let here : p.id ≡ post_id =
        ground (arith, find_sound (λ (x : Post). x.id == post_id) p db.posts found) in
      let stored =
        requested_post p.id db p
          (subst (λ (i : ℕ). find (λ (x : Post). x.id == i) db.posts ≡ some p) (sym here) found) in
      (
        rw (requests, request) (ground (arith, ==_refl (sha256 token))),
        rw request alive,
        rw request refl,
        known,
        filled,
        rw (posts, request, same) stored,
        refl,
      )

  -- A client who opens the link of a request within its days decides the post: after a
  -- `request_approval` that went through, on a post whose id no other post has first and with its brand
  -- there, a decision with the token that comes before the end of the last day and is APPROVED, or
  -- CHANGES_REQUESTED with a comment, is accepted, and leaves the post APPROVED or back in DRAFT.
  pub request_then_decide :
      (d c a : String) (t u : ℕ) (db : Db) (p : Post) (b : Brand) {link : ApprovalLink}
      → (request_approval sha256 tenant brand post_id subject days base_url token id now db).0
        ≡ ok link
      → find (λ (x : Post). x.id == post_id) db.posts ≡ some p
      → find (has_scope post_id tenant brand) db.posts ≡ some p
      → brand_of brand db ≡ some b
      → leb (now + days * day) t ≡ false
      → (str_eq d "APPROVED" || str_eq d "CHANGES_REQUESTED") ≡ true
      → (str_eq d "CHANGES_REQUESTED" && str_eq c "") ≡ false
      → let requested =
          (request_approval sha256 tenant brand post_id subject days base_url token id now db).1 in
        ((decide_approval sha256 token d c a t u requested).0
          ≡ ok (decided_request d u link.request))
        × (find
              (λ (x : Post). x.id == post_id)
              (decide_approval sha256 token d c a t u requested).1.posts
            ≡ some (record p {
              state = if str_eq d "APPROVED" then LifecycleState.approved else LifecycleState.draft;
            }))
  request_then_decide d c a t u db p b {link} h found scoped branded alive known filled =
      let (q, scoped', _, request, requests, posts, brands) =
        request_approval-ok sha256 tenant brand post_id subject days base_url token id now db h in
      let requested : Db =
        (request_approval sha256 tenant brand post_id subject days base_url token id now db).1 in
      let able = requested_Decidable d c t db p h found scoped alive known filled in
      let passed =
        decide_approval-passes sha256 token d c a t u requested link.request (pending_post p) b able
          (rw (brands, request) branded) in
      let same : q ≡ p = ground (arith, scoped, scoped') in
      let fits = find_sound (λ (x : Post). x.id == post_id) p db.posts found in
      (
        passed.0,
        rw passed.1 (
            find-save (λ (x : Post). x.id == post_id) (λ (x : Post). x.id) (pending_post p)
              (decided_post d (pending_post p)) requested.posts refl fits
              (rw (posts, same) (requested_post post_id db p found))),
      )
