-- ===== src/Media.antt =====
-- relay/content/services.py: images of posts. `create_media_upload_intent` and
-- `confirm_media_upload` are in the child `Upload`.
pub mod Ready
pub mod Upload
pub mod Confirm
pub mod Filenames
pub mod Intent
pub mod Order
use aleyacloud_relay.Base.{
  ℕ, Bool, not, ◌&&◌, ◌||◌, List, [], ◌∷◌, ◌++◌, map, none, some, ltb, leb, ◌==◌, if◌then◌else◌,
  find, select, elem, from_keys, get_all, length,
}
use aleyacloud_relay.Models.Content.{MediaAsset, PostVariant, is_ready}
use aleyacloud_relay.Store.{
  Db, key_error, invalid_media_asset, Tx, ◌>>=◌, ◌>>◌, raise_if, query, get,
}

abbrev pub max_image_bytes : ℕ
max_image_bytes = 10485760

abbrev pub max_post_images : ℕ
max_post_images = 10

abbrev pub asset_id : MediaAsset → ℕ
asset_id a = a.id

-- The rows that `ready_assets_for_post` selects.
abbrev pub is_usable : (tenant brand : ℕ) → List ℕ → MediaAsset → Bool
is_usable tenant brand ids a =
    elem a.id ids && (a.tenant == tenant && (a.brand == brand && is_ready a.upload_state))

unfoldable pub ready_assets_for_post : (tenant brand : ℕ) → List ℕ → Tx (List MediaAsset)
ready_assets_for_post tenant brand asset_ids = do
  let ids : List ℕ = from_keys asset_ids
  raise_if (ltb max_post_images (length ids)) invalid_media_asset
  assets ← query (λ db. select (is_usable tenant brand ids) db.assets)
  raise_if (not (length assets == length ids)) invalid_media_asset
  get (λ _. get_all asset_id assets ids) key_error

-- `.order_by("created_at", "id")`
abbrev pub created_before : MediaAsset → MediaAsset → Bool
created_before a b =
    ltb a.created_at b.created_at || (a.created_at == b.created_at && leb a.id b.id)

unfoldable pub insert_asset : MediaAsset → List MediaAsset → List MediaAsset
insert_asset a [] = a ∷ []
insert_asset a (b ∷ bs) = if created_before a b then a ∷ b ∷ bs else b ∷ insert_asset a bs

unfoldable pub sort_assets : List MediaAsset → List MediaAsset
sort_assets [] = []
sort_assets (a ∷ as') = insert_asset a (sort_assets as')

-- `[assets_by_id[i] for i in order if i in assets_by_id]`
unfoldable pub pick : List MediaAsset → List ℕ → List MediaAsset
pick assets [] = []
pick assets (i ∷ is) = elim (find (λ (a : MediaAsset). a.id == i) assets) [
  | none ↦ pick assets is
  | some a ↦ a ∷ pick assets is
]

-- The images of a variant: `variant.media_assets.all()`.
unfoldable pub variant_assets : ℕ → Db → List MediaAsset
variant_assets variant_id db = elim (find (λ (v : PostVariant). v.id == variant_id) db.variants) [
  | none ↦ []
  | some v ↦ select (λ (a : MediaAsset). elem a.id v.media_assets) db.assets
]

-- `ordered_media_assets` on the images of the variant and its stored order: the images in the order
-- that the author chose, and then the others as they were created.
unfoldable pub in_author_order : List MediaAsset → List ℕ → List MediaAsset
in_author_order unordered order =
    let assets : List MediaAsset = sort_assets unordered in
    let ordered : List MediaAsset = pick assets order in
    ordered ++ select (λ (a : MediaAsset). not (elem a.id (map asset_id ordered))) assets

unfoldable pub ordered_media_assets : PostVariant → Db → List MediaAsset
ordered_media_assets variant db =
    in_author_order (variant_assets variant.id db) variant.media_asset_order
