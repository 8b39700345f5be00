-- ===== src/Posts/Idempotency.antt =====
-- The idempotency keys of `create_post_draft` (relay/api/services.py), and what a new draft is.
use aleyacloud_relay.Base.{
  ℕ, true, false, ◌||◌, String, eq_refl, List, ◌∷◌, map, none, some, ◌≡◌, ◌≢◌, sym, refl, inl, inr,
  ap, ◌∙◌, arith, ◌==◌, if◌then◌else◌, find, find-exists, from_keys, elem, All, Option-cases,
}
use aleyacloud_relay.Models.Lifecycle.{LifecycleState}
use aleyacloud_relay.Models.Content.{Post, PostVariant, MediaAsset}
use aleyacloud_relay.Store.{
  Db, Result, ok, raise, idempotency_conflict, transaction_management_error,
}
use aleyacloud_relay.Store.Laws.{Result-cases}
use aleyacloud_relay.Media.{asset_id, is_usable, ordered_media_assets}
use aleyacloud_relay.Media.Ready.{ready_assets_for_post-ok}
use aleyacloud_relay.Media.Order.{ids, ordered_media_assets-order}
use aleyacloud_relay.Posts.{
  Payload, request_fingerprint, PostPayload, post_entries, CreatePostResult, has_post_key,
  post_clash, new_post, insert_draft, replay_draft, create_post_draft,
}
use aleyacloud_relay.Posts.Drafts.{
  draft_variant, with_draft, insert_draft-ok, insert_draft_clash, find-draft_variant,
}

-- The arguments of a call of `create_post_draft`.
module _ (sha256 : Payload → ℕ) (tenant brand : ℕ) (subject key : String)
    (payload : PostPayload) where
  abbrev pub draft_fingerprint : ℕ
  draft_fingerprint = request_fingerprint sha256 (post_entries payload)

  -- The key has been used: the stored post comes back, or a conflict. Nothing is written.
  pub create_known :
      (post_id variant_id : ℕ) (others : Db → Db) (db : Db) (existing : Post)
      → find (has_post_key tenant key) db.posts ≡ some existing
      → create_post_draft sha256 tenant brand subject key payload post_id variant_id others db ≡ (
          if existing.request_fingerprint == request_fingerprint sha256 (post_entries payload)
          then (ok (record { post = existing; created = false }), db)
          else (raise idempotency_conflict, db))
  unfolding create_post_draft
  create_known post_id variant_id others db existing e = rw (e, create_post_draft)

  module _ (post_id variant_id : ℕ) (others : Db → Db) (db : Db) where
    abbrev outcome : Result CreatePostResult × Db
    outcome = create_post_draft sha256 tenant brand subject key payload post_id variant_id others db

    abbrev row : Post
    row =
        new_post (request_fingerprint sha256 (post_entries payload)) tenant brand subject key
          payload post_id

    -- The key is new and another transaction takes it before the insert: the handler's own query
    -- raises.
    create_clash :
        find (has_post_key tenant key) db.posts ≡ none
        → post_clash row (others db) ≡ true
        → outcome ≡ (raise transaction_management_error, others db)
    unfolding create_post_draft replay_draft
    create_clash missing clash =
        rw (missing, create_post_draft)
          (ground (
            arith,
            insert_draft_clash row payload.media_asset_ids subject variant_id (others db) clash,
          ))

    -- The key is new and the call returns: a new draft.
    create_new :
        {r : CreatePostResult}
        → find (has_post_key tenant key) db.posts ≡ none
        → outcome.0 ≡ ok r
        → insert_draft row payload.media_asset_ids subject variant_id false (others db)
          ≡ ok (r, outcome.1)
    unfolding create_post_draft replay_draft
    create_new {r} missing h =
        elim (Result-cases
          (insert_draft row payload.media_asset_ids subject variant_id false (others db))) [
            | inl ((r', after), e) ↦ ground arith
            | inr (x, e) ↦ ground arith
          ]

    -- What a new draft leaves.
    pub create_post_draft-new :
        {r : CreatePostResult}
        → find (has_post_key tenant key) db.posts ≡ none
        → outcome.0 ≡ ok r
        → (assets : List MediaAsset) × (r ≡ record { post = row; created = true })
          × (post_clash row (others db) ≡ false)
          × (map asset_id assets ≡ from_keys payload.media_asset_ids)
          × All (λ a. is_usable tenant brand (from_keys payload.media_asset_ids) a ≡ true) assets
          × ((i : ℕ)
              → elem i (from_keys payload.media_asset_ids) ≡ true
              → elem i (map asset_id (others db).assets) ≡ true)
          × (outcome.1 ≡ with_draft row variant_id assets subject (others db))
    create_post_draft-new missing h =
        let (assets, fresh, ready, e, after) =
          insert_draft-ok row payload.media_asset_ids subject variant_id (others db) outcome.1
            (create_new missing h) in
        let ready_ok =
          ready_assets_for_post-ok tenant brand payload.media_asset_ids
            (record (others db) { posts = row ∷ (others db).posts })
            (record (others db) { posts = row ∷ (others db).posts }) assets ready in
        (assets, e, fresh, ready_ok.0, ready_ok.1, ready_ok.4, after)

    draft_has_key : has_post_key tenant key row ≡ true
    draft_has_key = ground (arith, eq_refl key)

    draft_stored :
        {r : CreatePostResult}
        → outcome.0 ≡ ok r
        → (find (has_post_key tenant key) outcome.1.posts ≡ some r.post)
          × (r.post.request_fingerprint ≡ row.request_fingerprint)
    unfolding find
    draft_stored {r} h = elim (Option-cases (find (has_post_key tenant key) db.posts)) [
      | inr (existing, e) ↦ ground (arith, create_known post_id variant_id others db existing e)
      | inl missing ↦
          let (assets, e, _, _, _, _, after) = create_post_draft-new missing h in
          rw (after, e) (ground (arith, draft_has_key))
    ]

-- A `create_post_draft` that returned, repeated for the same tenant, key, brand and payload right after
-- it, returns the post of the first time as not created and writes nothing.
pub create_twice :
    (sha256 : Payload → ℕ) (tenant brand : ℕ) (subject key : String) (payload : PostPayload)
    (post_id variant_id post_id' variant_id' : ℕ) (others others' : Db → Db) (db : Db)
    {r : CreatePostResult}
    → (create_post_draft sha256 tenant brand subject key payload post_id variant_id others db).0
      ≡ ok r
    → let after =
        (create_post_draft sha256 tenant brand subject key payload post_id variant_id others
          db).1 in
      create_post_draft sha256 tenant brand subject key payload post_id' variant_id' others' after
      ≡ (ok (record { post = r.post; created = false }), after)
create_twice sha256 tenant brand subject key payload post_id variant_id post_id' variant_id' others
      others' db {r} h =
    let stored =
      draft_stored sha256 tenant brand subject key payload post_id variant_id others db h in
    create_known sha256 tenant brand subject key payload post_id' variant_id' others'
      (create_post_draft sha256 tenant brand subject key payload post_id variant_id others db).1
      r.post stored.0
    ∙ ground (arith, stored.1)

-- After a `create_post_draft` that returned, the same tenant's call with the same key and a payload of
-- another fingerprint is refused as a conflict, and nothing is written.
create_other_payload :
    (sha256 : Payload → ℕ) (tenant brand brand' : ℕ) (subject subject' key : String)
    (payload payload' : PostPayload) (post_id variant_id post_id' variant_id' : ℕ)
    (others others' : Db → Db) (db : Db) {r : CreatePostResult}
    → (create_post_draft sha256 tenant brand subject key payload post_id variant_id others db).0
      ≡ ok r
    → request_fingerprint sha256 (post_entries payload)
      ≢ request_fingerprint sha256 (post_entries payload')
    → let after =
        (create_post_draft sha256 tenant brand subject key payload post_id variant_id others
          db).1 in
      create_post_draft sha256 tenant brand' subject' key payload' post_id' variant_id' others'
        after
      ≡ (raise idempotency_conflict, after)
create_other_payload sha256 tenant brand brand' subject subject' key payload payload' post_id
      variant_id post_id' variant_id' others others' db {r} h differ =
    let stored =
      draft_stored sha256 tenant brand subject key payload post_id variant_id others db h in
    create_known sha256 tenant brand' subject' key payload' post_id' variant_id' others'
      (create_post_draft sha256 tenant brand subject key payload post_id variant_id others db).1
      r.post stored.0
    ∙ ground (arith, stored.1, differ)

-- The race that the `except IntegrityError` of `create_post_draft` is there for: where no post had the
-- key at the look-up and one of that tenant has it when the post is inserted, the handler's own query
-- raises a TransactionManagementError, and the stored post is neither returned nor compared.
pub create_race :
    (sha256 : Payload → ℕ) (tenant brand : ℕ) (subject key : String) (payload : PostPayload)
    (post_id variant_id : ℕ) (others : Db → Db) (db : Db) (winner : Post)
    → find (has_post_key tenant key) db.posts ≡ none
    → find (has_post_key tenant key) (others db).posts ≡ some winner
    → create_post_draft sha256 tenant brand subject key payload post_id variant_id others db
      ≡ (raise transaction_management_error, others db)
create_race sha256 tenant brand subject key payload post_id variant_id others db winner missing
      won =
    create_clash sha256 tenant brand subject key payload post_id variant_id others db missing (
      find-exists (λ (p : Post). p.id == post_id || has_post_key tenant key p)
        (has_post_key tenant key) winner (others db).posts (λ x k. ground arith) won)

-- Where the key is new and `create_post_draft` returns, its post is a draft with the variant stored under
-- the given id, and the images of that variant come in the order in which the payload names them, each
-- once.
draft_slides :
    (sha256 : Payload → ℕ) (tenant brand : ℕ) (subject key : String) (payload : PostPayload)
    (post_id variant_id : ℕ) (others : Db → Db) (db : Db) {r : CreatePostResult}
    → find (has_post_key tenant key) db.posts ≡ none
    → (create_post_draft sha256 tenant brand subject key payload post_id variant_id others db).0
      ≡ ok r
    → let after =
        (create_post_draft sha256 tenant brand subject key payload post_id variant_id others
          db).1 in
      (v : PostVariant) × (find (λ (x : PostVariant). x.id == variant_id) after.variants ≡ some v)
      × (v.post ≡ r.post.id)
      × (r.post.state ≡ LifecycleState.draft)
      × (ids (ordered_media_assets v after) ≡ from_keys payload.media_asset_ids)
draft_slides sha256 tenant brand subject key payload post_id variant_id others db {r} missing h =
    let (assets, e, _, named, _, known, after) =
      create_post_draft-new sha256 tenant brand subject key payload post_id variant_id others db
        missing h in
    let post =
      new_post (request_fingerprint sha256 (post_entries payload)) tenant brand subject key payload
        post_id in
    let v = draft_variant post variant_id assets in
    let found = find-draft_variant post variant_id assets subject (others db) in
    rw (after, e)
      (
        v,
        found,
        refl,
        refl,
        ordered_media_assets-order v v (with_draft post variant_id assets subject (others db)) found
              refl (λ i k. known i (sym (ap (elem i) named) ∙ k))
            ∙ named,
      )
