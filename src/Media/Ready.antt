-- ===== src/Media/Ready.antt =====
-- `ready_assets_for_post` of relay/content/services.py.
use aleyacloud_relay.Base.{
  ℕ, ◌≤◌, true, false, List, map, ◌≡◌, inl, inr, arith, select, from_keys, get_all, length, All,
  get_all_sound, get_all-elem, elem, elem-map-select, Option-cases,
}
use aleyacloud_relay.Models.Content.{MediaAsset}
use aleyacloud_relay.Store.{Db, ok}
use aleyacloud_relay.Media.{max_post_images, asset_id, is_usable, ready_assets_for_post}

-- What `ready_assets_for_post` returns, where it returns, are at most ten images: for each id asked for,
-- once and in the order of its first mention, a stored and ready image of that workspace and brand.
-- Nothing is written.
pub ready_assets_for_post-ok :
    (tenant brand : ℕ) (ids : List ℕ) (db after : Db) (assets : List MediaAsset)
    → ready_assets_for_post tenant brand ids false db ≡ ok (assets, after)
    → (map asset_id assets ≡ from_keys ids)
      × All (λ a. is_usable tenant brand (from_keys ids) a ≡ true) assets
      × (length (from_keys ids) ≤ max_post_images)
      × (after ≡ db)
      × ((i : ℕ) → elem i (from_keys ids) ≡ true → elem i (map asset_id db.assets) ≡ true)
unfolding ready_assets_for_post
ready_assets_for_post-ok tenant brand ids db after assets h =
    let usable : List MediaAsset = select (is_usable tenant brand (from_keys ids)) db.assets in
    elim (Option-cases (get_all asset_id usable (from_keys ids))) [
      | inl missing ↦ ground arith
      | inr (found, e) ↦
          let sound =
            get_all_sound asset_id (is_usable tenant brand (from_keys ids)) db.assets found
              (from_keys ids) e in
          let same : found ≡ assets = ground arith in
          (
            rw (← same) sound.0,
            rw (← same) sound.1,
            ground arith,
            ground arith,
            λ i e'.
                elem-map-select i asset_id (is_usable tenant brand (from_keys ids)) db.assets
                  (get_all-elem asset_id usable found (from_keys ids) i e e'),
          )
    ]
