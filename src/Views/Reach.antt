-- ===== src/Views/Reach.antt =====
-- What the handlers of relay/api/views.py on posts and approvals let a caller do.
use aleyacloud_relay.Base.{
  ℕ, true, false, ◌&&◌, ◌||◌, String, str_eq, List, none, some, ◌==◌, ◌≡◌, ◌≢◌, refl, subst, ◌⊎◌,
  inl, inr, ap, ◌∙◌, arith, find, save, elem, Option-cases, Bool-cases, find_sound,
}
use aleyacloud_relay.Models.Lifecycle.{LifecycleState, is_draft, is_pending_approval, is_approved}
use aleyacloud_relay.Models.Content.{Post}
use aleyacloud_relay.Models.Approvals.{ApprovalRequest, is_pending}
use aleyacloud_relay.Store.{Db, Error, Result, ok, raise, does_not_exist}
use aleyacloud_relay.Store.Laws.{Result-cases}
use aleyacloud_relay.Access.{RelayPrincipal, has_permission, get_tenant, get_brand}
use aleyacloud_relay.Approvals.{
  has_digest, is_dead, decide_approval, decision_guards, record_decision,
}
use aleyacloud_relay.Posts.{in_scope, approve_post}
use aleyacloud_relay.Posts.Approve.{approved_post, approve_post-outcome}
use aleyacloud_relay.Views.{reply, crashed}
use aleyacloud_relay.Views.Posting.{
  decision_errors, approve_errors, posts_approve, in_reach, reach_post, approve, bad_decision,
  decide,
}

reach_post-some :
    (p : RelayPrincipal) (id : ℕ) (db : Db) {post : Post}
    → reach_post p id db ≡ some post
    → find (in_reach p id) db.posts ≡ some post
unfolding reach_post
reach_post-some p id db {post} h = elim (Option-cases (get_tenant p db)) [
  | inl e ↦ ground arith
  | inr (tenant, e1) ↦ elim (Option-cases (find (in_reach p id) db.posts)) [
    | inl e ↦ ground arith
    | inr (found, e2) ↦ elim (Option-cases (get_brand p found.brand db)) [
      | inl e ↦ ground arith
      | inr (brand, e3) ↦ ground arith
    ]
  ]
]

module _ (sha256 : List ℕ → ℕ) (token : List ℕ) (d c : String) where
  guards_raise :
      (t : ℕ) (db : Db) (e : Error)
      → (str_eq d "APPROVED" || str_eq d "CHANGES_REQUESTED") ≡ true
      → (str_eq d "CHANGES_REQUESTED" && str_eq c "") ≡ false
      → decision_guards sha256 token d c t false db ≡ raise e
      → (decision_errors e ≢ none) ⊎ (e ≡ does_not_exist)
  unfolding decision_guards
  guards_raise t db e known filled h =
      elim (Option-cases (find (has_digest (sha256 token)) db.approval_requests)) [
        | inl missing ↦ inl (λ q. ground arith)
        | inr (r, found) ↦ elim (Bool-cases (is_dead t r)) [
          | inl dead ↦ inl (λ q. ground arith)
          | inr alive ↦ elim (Bool-cases (is_pending r.decision)) [
            | inr decided ↦ inl (λ q. ground arith)
            | inl pending ↦ elim (Option-cases (find (λ (p : Post). p.id == r.post) db.posts)) [
              | inl gone ↦ inr (ground arith)
              | inr (post, there) ↦ inl (λ q. ground arith)
            ]
          ]
        ]
      ]

  record_raise :
      (a : String) (u : ℕ) (db : Db) (r : ApprovalRequest) (post : Post) (e : Error)
      → record_decision d c a u r post false db ≡ raise e
      → e ≡ does_not_exist
  unfolding record_decision
  record_raise a u db r post e h = ground arith

  decide_raise :
      (a : String) (t u : ℕ) (db : Db) (e : Error)
      → (str_eq d "APPROVED" || str_eq d "CHANGES_REQUESTED") ≡ true
      → (str_eq d "CHANGES_REQUESTED" && str_eq c "") ≡ false
      → (decide_approval sha256 token d c a t u db).0 ≡ raise e
      → (decision_errors e ≢ none) ⊎ (e ≡ does_not_exist)
  unfolding decide_approval
  decide_raise a t u db e known filled h =
      elim (Result-cases (decision_guards sha256 token d c t false db)) [
        | inr (x, e1) ↦ guards_raise t db e known filled (ground arith)
        | inl (((r, post), mid), e1) ↦
            elim (Result-cases (record_decision d c a u r post false mid)) [
              | inr (x, e2) ↦ inr (record_raise a u mid r post e (ground arith))
              | inl (done_, e2) ↦ ground arith
            ]
      ]

-- The decision handler lets no exception of `decide_approval` out but DoesNotExist, which is one of rows
-- that are gone: the ValueErrors of a decision that is unknown or lacks its comment cannot occur, since
-- the serializer has refused those bodies.
decide-crashed :
    (sha256 : List ℕ → ℕ) (token : List ℕ) (d c a : String) (t u : ℕ) (db : Db) {e : Error}
    → (decide sha256 token d c a t u db).0 ≡ crashed e
    → e ≡ does_not_exist
unfolding decide bad_decision
decide-crashed sha256 token d c a t u db {e} h = elim (Bool-cases (bad_decision d c a)) [
  | inl bad ↦ ground arith
  | inr good ↦ elim (Result-cases (decide_approval sha256 token d c a t u db).0) [
    | inl (r, e1) ↦ ground arith
    | inr (x, e1) ↦
        elim (decide_raise sha256 token d c a t u db x (ground arith) (ground arith) e1) [
          | inl caught ↦ elim (Option-cases (decision_errors x)) [
            | inl n ↦ absurd (caught n)
            | inr (status, e2) ↦ ground arith
          ]
          | inr gone ↦ ground arith
        ]
  ]
]

approve_found :
    (p : RelayPrincipal) (id : ℕ) (db : Db) {status : ℕ} {post : Post}
    → (approve p id db).0 ≡ reply status post
    → (has_permission posts_approve (some p) db ≡ true)
      × ((old : Post) × (find (in_reach p id) db.posts ≡ some old)
          × ((approve_post old.id p.workspace_id old.brand p.subject db).0 ≡ ok post)
          × ((approve p id db).1 ≡ (approve_post old.id p.workspace_id old.brand p.subject db).1)
          × (status ≡ 200))
unfolding approve
approve_found p id db {status} {post} h =
    elim (Bool-cases (has_permission posts_approve (some p) db)) [
      | inr denied ↦ ground arith
      | inl allowed ↦ elim (Option-cases (reach_post p id db)) [
        | inl e ↦ ground arith
        | inr (old, e) ↦
            let found = reach_post-some p id db e in
            elim (Result-cases (approve_post old.id p.workspace_id old.brand p.subject db).0) [
              | inl (r, e2) ↦ (allowed, (old, found, ground arith, ground arith, ground arith))
              | inr (x, e2) ↦ elim (Option-cases (approve_errors x)) [
                | inl n ↦ ground arith
                | inr (s, n) ↦ ground arith
              ]
            ]
      ]
    ]

-- `PostApprovalView.post` answers with a post only for a principal with the scope and the role; the
-- status is 200, and the post is the one of that id, in the principal's workspace and of a brand that the
-- principal may use. Either its row was approved, comes back as it is, and nothing is written; or it was a
-- draft or waited for its approval, and it is stored and comes back as approved.
pub approve-reply :
    (p : RelayPrincipal) (id : ℕ) (db : Db) {status : ℕ} {post : Post}
    → (approve p id db).0 ≡ reply status post
    → (has_permission posts_approve (some p) db ≡ true)
      × (status ≡ 200)
      × (elem post.brand p.brand_ids ≡ true)
      × ((old : Post) × (find
              (λ (x : Post). x.id == id && (x.tenant == p.workspace_id && x.brand == post.brand))
              db.posts
            ≡ some old)
          × (((is_approved old.state ≡ true) × (post ≡ old) × ((approve p id db).1 ≡ db))
              ⊎ (((is_draft old.state || is_pending_approval old.state) ≡ true)
                  × (post ≡ record old { state = LifecycleState.approved })
                  × ((approve p id db).1.posts ≡ save (λ (x : Post). x.id) post db.posts))))
approve-reply p id db {status} {post} h =
    let (allowed, (old, found, result, after, code)) = approve_found p id db h in
    let fits = find_sound (in_reach p id) old db.posts found in
    let id_is : old.id ≡ id = ground arith in
    let old_among : elem old.brand p.brand_ids ≡ true = ground arith in
    elim (approve_post-outcome old.id p.workspace_id old.brand p.subject db) [
      | inl (missing, e) ↦ ground arith
      | inr (q, scoped, outcome) ↦
          let inside = find_sound (in_scope old.id p.workspace_id old.brand) q db.posts scoped in
          let brand_is : old.brand ≡ q.brand = ground arith in
          let among = subst (λ (x : ℕ). elem x p.brand_ids ≡ true) brand_is old_among in
          let placed : find (in_scope id p.workspace_id q.brand) db.posts ≡ some q =
            subst (λ (k : ℕ × ℕ). find (in_scope k.0 p.workspace_id k.1) db.posts ≡ some q)
              (λ i. (id_is i, brand_is i)) scoped in
          elim outcome [
            | inl (approved, e) ↦
                let q_is : q ≡ post = ground arith in
                rw (← q_is) (
                  allowed,
                  code,
                  among,
                  (q, placed, inl (approved, refl, after ∙ ap (λ (x : Result Post × Db). x.1) e)),
                )
            | inr (inl (opened, e, rows)) ↦
                let q_is : approved_post q ≡ post = ground arith in
                rw (← q_is) (
                  allowed,
                  code,
                  among,
                  (q, placed, inr (opened, refl, ap (λ (x : Db). x.posts) after ∙ rows)),
                )
            | inr (inr (closed, e)) ↦ ground arith
          ]
    ]
