-- ===== src/System/Edits.antt =====
-- The operations of the services that write posts (relay/api/services.py, relay/approvals/services.py):
-- each saves one post with its state moved, or adds one.
use aleyacloud_relay.Base.{
  ℕ, Bool, true, false, ◌||◌, String, List, ◌∷◌, none, some, ◌≡◌, ◌⊎◌, refl, inl, inr, arith, ◌==◌,
  find, save, exists-find, Option-cases, Bool-cases,
}
use aleyacloud_relay.Models.Lifecycle.{LifecycleState, is_draft, is_pending_approval}
use aleyacloud_relay.Models.Content.{Post}
use aleyacloud_relay.Store.{Db}
use aleyacloud_relay.Posts.{
  Payload, PostPayload, create_post_draft, insert_draft, replay_draft, in_scope, approve_post,
  new_post, post_clash, has_post_key, request_fingerprint, post_entries,
}
use aleyacloud_relay.Approvals.{
  request_approval, decide_approval, decision_guards, record_decision, has_scope, has_digest,
  decided_post,
}
use aleyacloud_relay.Media.{ready_assets_for_post}

-- What a post's state may become in one step.
abbrev pub may_move : LifecycleState → LifecycleState → Bool
may_move LifecycleState.draft LifecycleState.draft = true
may_move LifecycleState.draft LifecycleState.pending_approval = true
may_move LifecycleState.draft LifecycleState.approved = true
may_move LifecycleState.pending_approval LifecycleState.pending_approval = true
may_move LifecycleState.pending_approval LifecycleState.approved = true
may_move LifecycleState.pending_approval LifecycleState.draft = true
may_move LifecycleState.approved LifecycleState.approved = true
may_move LifecycleState.scheduled LifecycleState.scheduled = true
may_move LifecycleState.publishing LifecycleState.publishing = true
may_move LifecycleState.published LifecycleState.published = true
may_move LifecycleState.failed LifecycleState.failed = true
may_move LifecycleState.cancelled LifecycleState.cancelled = true
may_move _ _ = false

-- The row of a post with its state moved, and nothing else changed.
abbrev pub Becomes : Post → Post → Type 0
Becomes old row = (may_move old.state row.state ≡ true) × (row ≡ record old { state = row.state })

abbrev pub post_id : Post → ℕ
post_id p = p.id

-- One post of the table has been saved, or none.
abbrev pub Edits : (posts posts' : List Post) → Type 0
Edits posts posts' =
    (posts' ≡ posts)
    ⊎ ((q : Post → Bool) × (old : Post) × (row : Post) × (find q posts ≡ some old)
        × Becomes old row
        × (posts' ≡ save post_id row posts))

pub approve-Edits :
    (post tenant brand : ℕ) (subject : String) (db : Db)
    → Edits db.posts (approve_post post tenant brand subject db).1.posts
unfolding approve_post
approve-Edits post tenant brand subject db =
    elim (Option-cases (find (in_scope post tenant brand) db.posts)) [
      | inl missing ↦ inl (ground arith)
      | inr (p, found) ↦ elim (Bool-cases (is_draft p.state || is_pending_approval p.state)) [
        | inr other ↦ inl (ground arith)
        | inl open_lem ↦ inr (
          in_scope post tenant brand,
          p,
          record p { state = LifecycleState.approved },
          found,
          (ground arith, refl),
          ground arith,
        )
      ]
    ]

pub request-Edits :
    (sha256 : List ℕ → ℕ) (tenant brand post : ℕ) (subject : String) (days : ℕ)
    (base token : List ℕ) (request_id now : ℕ) (db : Db)
    → Edits db.posts
        (request_approval sha256 tenant brand post subject days base token request_id now
          db).1.posts
unfolding request_approval
request-Edits sha256 tenant brand post subject days base token request_id now db =
    elim (Option-cases (find (has_scope post tenant brand) db.posts)) [
      | inl missing ↦ inl (ground arith)
      | inr (p, found) ↦
          let after =
            (request_approval sha256 tenant brand post subject days base token request_id now
              db).1.posts in
          let row : Post = record p { state = LifecycleState.pending_approval } in
          let either : (after ≡ db.posts)
              ⊎ ((is_draft p.state ≡ true) × (after ≡ save post_id row db.posts)) =
            ground arith in
          elim either [
            | inl same ↦ inl same
            | inr (draft, saved) ↦
                inr (has_scope post tenant brand, p, row, found, (ground arith, refl), saved)
          ]
    ]

pub decide-Edits :
    (sha256 : List ℕ → ℕ) (token : List ℕ) (decision comment author_label : String)
    (checked decided : ℕ) (db : Db)
    → Edits db.posts
        (decide_approval sha256 token decision comment author_label checked decided db).1.posts
unfolding decide_approval decision_guards record_decision
decide-Edits sha256 token decision comment author_label checked decided db =
    let after =
      (decide_approval sha256 token decision comment author_label checked decided db).1.posts in
    elim (Option-cases (find (has_digest (sha256 token)) db.approval_requests)) [
      | inl missing ↦ inl (ground arith)
      | inr (r, asked) ↦ elim (Option-cases (find (λ (p : Post). p.id == r.post) db.posts)) [
        | inl missing ↦ inl (ground arith)
        | inr (p, found) ↦
            let row : Post = decided_post decision p in
            let either : (after ≡ db.posts)
                ⊎ ((is_pending_approval p.state ≡ true) × (after ≡ save post_id row db.posts)) =
              ground arith in
            elim either [
              | inl same ↦ inl same
              | inr (waits, saved) ↦
                  inr ((λ (x : Post). x.id == r.post), p, row, found, (ground arith, refl), saved)
            ]
      ]
    ]

-- A new row on top, whose id was free, or nothing.
abbrev pub Adds : (posts posts' : List Post) → Type 0
Adds posts posts' =
    (posts' ≡ posts)
    ⊎ ((row : Post) × (find (λ (x : Post). x.id == row.id) posts ≡ none) × (posts' ≡ row ∷ posts))

pub create-Adds :
    (sha256 : Payload → ℕ) (tenant brand : ℕ) (subject key : String) (payload : PostPayload)
    (post_id variant_id : ℕ) (db : Db)
    → Adds db.posts
        (create_post_draft sha256 tenant brand subject key payload post_id variant_id
          (λ x. x)
          db).1.posts
unfolding create_post_draft insert_draft replay_draft ready_assets_for_post
create-Adds sha256 tenant brand subject key payload post_id variant_id db =
    let after =
      (create_post_draft sha256 tenant brand subject key payload post_id variant_id (λ x. x)
        db).1.posts in
    let row : Post =
      new_post (request_fingerprint sha256 (post_entries payload)) tenant brand subject key payload
        post_id in
    let either : (after ≡ db.posts) ⊎ ((post_clash row db ≡ false) × (after ≡ row ∷ db.posts)) =
      ground arith in
    elim either [
      | inl same ↦ inl same
      | inr (free, added) ↦ inr (
        row,
        exists-find (λ (p : Post). p.id == row.id || has_post_key row.tenant row.idempotency_key p)
            (λ (p : Post). p.id == row.id) db.posts (λ p h. ground arith) free,
        added,
      )
    ]
