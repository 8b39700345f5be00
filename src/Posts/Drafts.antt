-- ===== src/Posts/Drafts.antt =====
-- `create_post_draft` of relay/api/services.py.
use aleyacloud_relay.Base.{
  ℕ, Bool, true, false, String, List, ◌∷◌, map, some, ◌≡◌, inl, inr, ap, ◌∙◌, arith, ◌==◌, find,
  exists, save, ==_refl,
}
use aleyacloud_relay.Models.Content.{Post, PostVariant, MediaAsset}
use aleyacloud_relay.Store.{Db, Result, ok, raise, integrity_error}
use aleyacloud_relay.Store.Laws.{Result-cases}
use aleyacloud_relay.Media.{asset_id, ready_assets_for_post}
use aleyacloud_relay.Media.Ready.{ready_assets_for_post-ok}
use aleyacloud_relay.Posts.{CreatePostResult, post_clash, default_variant, draft_log, insert_draft}

abbrev pub variant_clash : ℕ → Db → Bool
variant_clash variant_id db = exists (λ (v : PostVariant). v.id == variant_id) db.variants

-- The variant as it is left, with the images and their order.
abbrev pub draft_variant : Post → ℕ → List MediaAsset → PostVariant
draft_variant post variant_id assets = record (default_variant post variant_id) {
  media_assets = map asset_id assets;
  media_asset_order = map asset_id assets;
}

-- The rows that a new draft adds.
abbrev pub with_draft : Post → ℕ → List MediaAsset → String → Db → Db
with_draft post variant_id assets subject db = record db {
  posts = post ∷ db.posts;
  variants =
      save (λ (v : PostVariant). v.id) (draft_variant post variant_id assets)
        (save (λ (v : PostVariant). v.id)
          (record (default_variant post variant_id) { media_assets = map asset_id assets })
          (default_variant post variant_id ∷ db.variants));
  audit = draft_log post subject ∷ db.audit;
}

pub insert_draft-ok :
    (post : Post) (ids : List ℕ) (subject : String) (variant_id : ℕ) (db after : Db)
    {r : CreatePostResult}
    → insert_draft post ids subject variant_id false db ≡ ok (r, after)
    → (assets : List MediaAsset) × (post_clash post db ≡ false)
      × (ready_assets_for_post post.tenant post.brand ids false
            (record db { posts = post ∷ db.posts })
          ≡ ok (assets, record db { posts = post ∷ db.posts }))
      × (r ≡ record { post = post; created = true })
      × (after ≡ with_draft post variant_id assets subject db)
unfolding insert_draft
insert_draft-ok post ids subject variant_id db after {r} h =
    elim (Result-cases (
      ready_assets_for_post post.tenant post.brand ids false
        (record db { posts = post ∷ db.posts }))) [
          | inr (e, f) ↦ ground arith
          | inl ((assets, mid), f) ↦
              let sound =
                ready_assets_for_post-ok post.tenant post.brand ids
                  (record db { posts = post ∷ db.posts }) mid assets f in
              (
                assets,
                ground arith,
                f
                    ∙ ap (λ (d : Db). let x : Result (List MediaAsset × Db) = ok (assets, d) in x)
                        sound.3,
                ground arith,
                ground (arith, sound.3),
              )
        ]

-- A constraint that stops the post row is an IntegrityError.
pub insert_draft_clash :
    (post : Post) (ids : List ℕ) (subject : String) (variant_id : ℕ) (db : Db)
    → post_clash post db ≡ true
    → insert_draft post ids subject variant_id false db ≡ raise integrity_error
unfolding insert_draft
insert_draft_clash post ids subject variant_id db clash = ground arith

-- The variant row that a new draft leaves.
pub find-draft_variant :
    (post : Post) (variant_id : ℕ) (assets : List MediaAsset) (subject : String) (db : Db)
    → find
        (λ (v : PostVariant). v.id == variant_id)
        (with_draft post variant_id assets subject db).variants
      ≡ some (draft_variant post variant_id assets)
unfolding find save
find-draft_variant post variant_id assets subject db = ground (arith, ==_refl variant_id)
