-- ===== src/System/Moves.antt =====
-- The posts under the operations of the services, against an abstract lifecycle.
use aleyacloud_relay.Base.{
  ℕ, ◌≤◌, Bool, true, List, [], ◌∷◌, none, some, ◌≡◌, refl, inl, inr, sym, ap, subst, ◌∙◌, arith,
  ◌==◌, find, count, save, find_sound, find-save, find-save_other, find_unique, count-save_keys,
  count_missing, Bool-cases,
}
use aleyacloud_relay.Models.Lifecycle.{LifecycleState}
use aleyacloud_relay.Models.Content.{Post}
use aleyacloud_relay.Store.{Db}
use aleyacloud_relay.System.Frames.{
  schedule_posts, claim_posts, settle_posts, confirm_posts, revoke_posts, start_posts, intent_posts,
  complete_posts, revoke_promoted_posts,
}
use aleyacloud_relay.Commands.Writes.{issue_token-WritesTenancy, provision-WritesTenancy}
use aleyacloud_relay.System.{Outside, Operation, perform, perform_all}
use aleyacloud_relay.System.Edits.{
  may_move, Becomes, post_id, Edits, Adds, approve-Edits, request-Edits, decide-Edits, create-Adds,
}

-- An id stands once at most.
abbrev pub HasUniqueIds : List Post → Type 0
HasUniqueIds posts = (j : ℕ) → count (λ (x : Post). x.id == j) posts ≤ 1

abbrev pub by_id : ℕ → Post → Bool
by_id j x = x.id == j

-- Each post is still there, with its state moved as the lifecycle allows and nothing else changed.
abbrev Moves : (posts posts' : List Post) → Type 0
Moves posts posts' =
    (j : ℕ) (p : Post)
    → find (by_id j) posts ≡ some p
    → (p' : Post) × (find (by_id j) posts' ≡ some p') × Becomes p p'

abbrev Steps : (posts posts' : List Post) → Type 0
Steps posts posts' = HasUniqueIds posts' × Moves posts posts'

may_move_refl : (s : LifecycleState) → may_move s s ≡ true
may_move_refl LifecycleState.draft = refl
may_move_refl LifecycleState.pending_approval = refl
may_move_refl LifecycleState.approved = refl
may_move_refl LifecycleState.scheduled = refl
may_move_refl LifecycleState.publishing = refl
may_move_refl LifecycleState.published = refl
may_move_refl LifecycleState.failed = refl
may_move_refl LifecycleState.cancelled = refl

same-Steps : (posts posts' : List Post) → HasUniqueIds posts → posts' ≡ posts → Steps posts posts'
same-Steps posts posts' once e = rw e (once, λ j p found. (p, found, (may_move_refl p.state, refl)))

saved-Moves :
    (posts : List Post) (q : Post → Bool) (old row : Post)
    → HasUniqueIds posts
    → find q posts ≡ some old
    → Becomes old row
    → Moves posts (save post_id row posts)
saved-Moves posts q old row once hit (moves, whole) j p found =
    let key : p.id ≡ j = ground (arith, find_sound (by_id j) p posts found) in
    let row_key : row.id ≡ old.id = ap post_id whole in
    elim (Bool-cases (old.id == j)) [
      | inl here ↦
          let at : old.id ≡ j = ground arith in
          let same : old ≡ p =
            find_unique post_id q old p posts (once old.id) hit
              (subst (λ (k : ℕ). find (by_id k) posts ≡ some p) (sym at) found) in
          (
            row,
            find-save (by_id j) post_id p row posts (ground arith) (ground arith) found,
            subst (λ (x : Post). Becomes x row) same (moves, whole),
          )
      | inr there ↦ (
        p,
        find-save_other (by_id j) post_id row posts (λ x same. ground arith) ∙ found,
        (may_move_refl p.state, refl),
      )
    ]

edited-Steps :
    (posts posts' : List Post) → HasUniqueIds posts → Edits posts posts' → Steps posts posts'
edited-Steps posts posts' once (inl same) = same-Steps posts posts' once same
edited-Steps posts posts' once (inr (q, old, row, hit, becomes, saved)) = rw saved (
  (λ j. omega (arith, count-save_keys post_id j row posts, once j)),
  saved-Moves posts q old row once hit becomes,
)

still_found :
    (row : Post) (posts : List Post) (j : ℕ) (p : Post)
    → find (by_id row.id) posts ≡ none
    → find (by_id j) posts ≡ some p
    → find (by_id j) (row ∷ posts) ≡ some p
unfolding find
still_found row posts j p free found = elim (Bool-cases (row.id == j)) [
  | inl here ↦
      let at : row.id ≡ j = ground arith in
      let gone = subst (λ (k : ℕ). find (by_id k) posts ≡ none) at free in ground arith
  | inr there ↦ ground arith
]

added-Steps :
    (posts posts' : List Post) → HasUniqueIds posts → Adds posts posts' → Steps posts posts'
added-Steps posts posts' once (inl same) = same-Steps posts posts' once same
added-Steps posts posts' once (inr (row, free, added)) = rw added (
  (λ j. unfold count in ground (arith, once j, count_missing post_id row.id posts free)),
  (λ j p found. (p, still_found row posts j p free found, (may_move_refl p.state, refl))),
)

-- The states of a post that are reached from one of them.
pub data Reaches (s : LifecycleState) : LifecycleState → Type 0 where
  here : Reaches s s
  moves : {t u : LifecycleState} → Reaches s t → may_move t u ≡ true → Reaches s u

Reaches-trans : {s t u : LifecycleState} → Reaches s t → Reaches t u → Reaches s u
Reaches-trans r here = r
Reaches-trans r (moves r' m) = moves (Reaches-trans r r') m

module _ (o : Outside) where
  perform-Steps :
      (op : Operation) (db : Db) → HasUniqueIds db.posts → Steps db.posts (perform o op db).posts
  unfolding perform
  perform-Steps (Operation.creates_post tenant brand subject key payload post_id variant_id) db
        once =
      added-Steps _ _ once
        (create-Adds o.payload_digest tenant brand subject key payload post_id variant_id db)
  perform-Steps (Operation.approves_post post tenant brand subject) db once =
      edited-Steps _ _ once (approve-Edits post tenant brand subject db)
  perform-Steps (Operation.requests_approval tenant brand post subject days token request_id now) db
        once =
      edited-Steps _ _ once (
        request-Edits o.token_digest tenant brand post subject days o.base_url token request_id now
          db)
  perform-Steps (Operation.decides token decision comment author_label checked decided) db once =
      edited-Steps _ _ once
        (decide-Edits o.token_digest token decision comment author_label checked decided db)
  perform-Steps (Operation.revokes request tenant subject now) db once =
      same-Steps _ _ once (revoke_posts request tenant subject now db)
  perform-Steps (Operation.schedules q publication_id) db once =
      same-Steps _ _ once (schedule_posts o.payload_digest q publication_id db)
  perform-Steps
        (Operation.intends_upload tenant brand subject filename content_type size checksum asset_id
          now)
        db once =
      same-Steps _ _ once (
        intent_posts o.isalnum o.isspace o.uuid_text o.storage o.signer tenant brand subject
          filename content_type size checksum asset_id now db)
  perform-Steps (Operation.confirms_upload asset tenant subject) db once =
      same-Steps _ _ once (confirm_posts o.head_object asset tenant subject db)
  perform-Steps (Operation.starts_oauth tenant brand subject raw_state state_id now) db once =
      same-Steps _ _ once (
        start_posts o.token_digest o.authorization_url tenant brand subject raw_state state_id now
          db)
  perform-Steps (Operation.completes_oauth code raw_state checked used account_id new_ids) db once =
      same-Steps _ _ once (
        complete_posts o.encrypt_token o.token_digest o.connect code raw_state checked used
          account_id new_ids db)
  perform-Steps (Operation.claims publication now attempt_id) db once =
      same-Steps _ _ once (claim_posts publication now attempt_id db)
  perform-Steps (Operation.settles run publication attempt outcome) db once =
      same-Steps _ _ once (settle_posts o.max_attempts run publication attempt outcome db)
  perform-Steps (Operation.revokes_promoted workspace_slug brand_slug apply) db once =
      same-Steps _ _ once (revoke_promoted_posts workspace_slug brand_slug apply db)
  perform-Steps
        (Operation.issues_token workspace_slug brand_slug subject days purpose new_id now jti) db
        once =
      same-Steps _ _ once (
        ap (λ (x : Db). x.posts)
          (issue_token-WritesTenancy o.jwt_encode o.jwt_settings workspace_slug brand_slug subject
            days purpose new_id now jti db))
  perform-Steps
        (Operation.provisions workspace_slug workspace_name brands owner workspace_id membership_id
          brand_ids)
        db once =
      same-Steps _ _ once (
        ap (λ (x : Db). x.posts)
          (provision-WritesTenancy o.isspace o.owner_of workspace_slug workspace_name brands owner
            workspace_id membership_id brand_ids db))

  -- Whatever operations run, in whatever order and with whatever result, on posts with unique ids: the ids
  -- stay unique, and each post is still there afterwards, with the title, body, owner and key that it had
  -- and with a state that the lifecycle reaches from the one before (a draft is submitted or approved, a
  -- submitted post is approved or goes back to draft, and an approved post stays approved).
  pub perform_all-Reaches :
      (ops : List Operation) (db : Db)
      → HasUniqueIds db.posts
      → HasUniqueIds (perform_all o ops db).posts
        × ((j : ℕ) (p : Post)
            → find (by_id j) db.posts ≡ some p
            → (p' : Post) × (find (by_id j) (perform_all o ops db).posts ≡ some p')
              × (p' ≡ record p { state = p'.state })
              × Reaches p.state p'.state)
  unfolding perform_all
  perform_all-Reaches [] db once = (once, λ j p found. (p, found, refl, here))
  perform_all-Reaches (op ∷ ops) db once =
      let (once', step) = perform-Steps op db once in
      let (once'', rest) = perform_all-Reaches ops (perform o op db) once' in
      (
        once'',
        λ j p found.
            let (q, found', (allowed, whole)) = step j p found in
            let (r, found'', whole', reached) = rest j q found' in
            (
              r,
              found'',
              whole' ∙ ap (λ (x : Post). record x { state = r.state }) whole,
              Reaches-trans (moves here allowed) reached,
            ),
      )
