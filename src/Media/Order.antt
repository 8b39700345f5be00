-- ===== src/Media/Order.antt =====
-- `ordered_media_assets` of relay/content/services.py: the slide order of a carousel.
use aleyacloud_relay.Base.{
  ℕ, Bool, true, false, not, ◌&&◌, ◌||◌, List, [], ◌∷◌, ◌++◌, map, none, some, ◌≡◌, refl, ◌⊎◌, inl,
  inr, ap, ◌∙◌, arith, ◌==◌, find, select, elem, Bool-cases,
}
use mathlib.Core.List.{map-append, append-nil}
use aleyacloud_relay.Models.Content.{MediaAsset, PostVariant}
use aleyacloud_relay.Store.{Db}
use aleyacloud_relay.Media.{
  asset_id, insert_asset, sort_assets, pick, variant_assets, in_author_order, ordered_media_assets,
}

abbrev pub ids : List MediaAsset → List ℕ
ids = map asset_id

elem-insert_asset :
    (i : ℕ) (a : MediaAsset) (xs : List MediaAsset)
    → elem i (ids (insert_asset a xs)) ≡ (i == a.id || elem i (ids xs))
unfolding elem insert_asset
elem-insert_asset i a [] = refl
elem-insert_asset i a (x ∷ xs) = ground (arith, elem-insert_asset i a xs)

elem-sort_assets : (i : ℕ) (xs : List MediaAsset) → elem i (ids (sort_assets xs)) ≡ elem i (ids xs)
unfolding elem sort_assets
elem-sort_assets i [] = refl
elem-sort_assets i (x ∷ xs) =
    ground (arith, elem-insert_asset i x (sort_assets xs), elem-sort_assets i xs)

-- An id is found exactly where it is listed.
find-elem :
    (i : ℕ) (xs : List MediaAsset)
    → (find (λ (a : MediaAsset). a.id == i) xs ≡ none) × (elem i (ids xs) ≡ false)
      ⊎ ((a : MediaAsset) × (find (λ (a : MediaAsset). a.id == i) xs ≡ some a)
          × (elem i (ids xs) ≡ true)
          × (a.id ≡ i))
unfolding find elem
find-elem i [] = inl (refl, refl)
find-elem i (x ∷ xs) = elim (Bool-cases (x.id == i)) [
  | inl here ↦ inr (x, ground arith, ground arith, ground arith)
  | inr there ↦ elim (find-elem i xs) [
    | inl (e, f) ↦ inl (ground arith, ground arith)
    | inr (a, e, f, g) ↦ inr (a, ground arith, ground arith, g)
  ]
]

ids-pick :
    (assets : List MediaAsset) (order : List ℕ)
    → ids (pick assets order) ≡ select (λ i. elem i (ids assets)) order
unfolding pick select
ids-pick assets [] = refl
ids-pick assets (i ∷ order) = elim (find-elem i assets) [
  | inl (e, f) ↦ ground (arith, ids-pick assets order)
  | inr (a, e, f, g) ↦ ground (arith, ids-pick assets order)
]

-- Selecting by a test that all pass, or that none passes.
select-all :
    (p : ℕ → Bool) (xs : List ℕ) → ((i : ℕ) → elem i xs ≡ true → p i ≡ true) → select p xs ≡ xs
unfolding select elem
select-all p [] h = refl
select-all p (x ∷ xs) h = ground (arith, h x, select-all p xs (λ i e. h i (ground arith)))

select-nil :
    (p : MediaAsset → Bool) (xs : List MediaAsset)
    → ((a : MediaAsset) → elem a.id (ids xs) ≡ true → p a ≡ false)
    → select p xs ≡ []
unfolding select elem
select-nil p [] h = refl
select-nil p (x ∷ xs) h = ground (arith, h x, select-nil p xs (λ a e. h a (ground arith)))

elem-append : (i : ℕ) (xs ys : List ℕ) → elem i (xs ++ ys) ≡ (elem i xs || elem i ys)
unfolding elem
elem-append i [] ys = refl
elem-append i (x ∷ xs) ys = ground (arith, elem-append i xs ys)

elem-select : (i : ℕ) (p : ℕ → Bool) (xs : List ℕ) → elem i (select p xs) ≡ (p i && elem i xs)
unfolding elem select
elem-select i p [] = ground arith
elem-select i p (x ∷ xs) = elim (Bool-cases (i == x)) [
  | inl here ↦ let same : x ≡ i = ground arith in ground (arith, elem-select i p xs, ap p same)
  | inr there ↦ ground (arith, elem-select i p xs)
]

elem-rest :
    (i : ℕ) (p : ℕ → Bool) (xs : List MediaAsset)
    → elem i (ids (select (λ (a : MediaAsset). p a.id) xs)) ≡ (p i && elem i (ids xs))
unfolding elem select
elem-rest i p [] = ground arith
elem-rest i p (x ∷ xs) = elim (Bool-cases (i == x.id)) [
  | inl here ↦ let same : x.id ≡ i = ground arith in ground (arith, elem-rest i p xs, ap p same)
  | inr there ↦ ground (arith, elem-rest i p xs)
]

-- Whatever order is stored: the images that come back are those of the variant, none lost and none
-- added.
pub in_author_order-elem :
    (i : ℕ) (assets : List MediaAsset) (order : List ℕ)
    → elem i (ids (in_author_order assets order)) ≡ elem i (ids assets)
unfolding in_author_order
in_author_order-elem i assets order =
    let sorted : List MediaAsset = sort_assets assets in
    let ordered : List MediaAsset = pick sorted order in
    let rest = select (λ (a : MediaAsset). not (elem a.id (ids ordered))) sorted in
    ap (elem i) (map-append asset_id ordered rest)
    ∙ ground (
      arith,
      elem-append i (ids ordered) (ids rest),
      elem-rest i (λ j. not (elem j (ids ordered))) sorted,
      ap (elem i) (ids-pick sorted order),
      elem-select i (λ j. elem j (ids sorted)) order,
      elem-sort_assets i assets,
    )

-- An order that lists exactly the images of the variant is the order in which they come back.
pub in_author_order-eq-order :
    (assets : List MediaAsset) (order : List ℕ)
    → ((i : ℕ) → elem i (ids assets) ≡ elem i order)
    → ids (in_author_order assets order) ≡ order
unfolding in_author_order
in_author_order-eq-order assets order h =
    let sorted : List MediaAsset = sort_assets assets in
    let ordered : List MediaAsset = pick sorted order in
    let whole : ids ordered ≡ order =
      ids-pick sorted order
      ∙ select-all (λ i. elem i (ids sorted)) order (λ i e. elem-sort_assets i assets ∙ h i ∙ e) in
    let none_left : select (λ (a : MediaAsset). not (elem a.id (ids ordered))) sorted ≡ [] =
      select-nil (λ (a : MediaAsset). not (elem a.id (ids ordered))) sorted
        (λ a e. ground (arith, ap (elem a.id) whole, elem-sort_assets a.id assets, h a.id)) in
    ap (λ (r : List MediaAsset). ids (ordered ++ r)) none_left ∙ ap ids (append-nil ordered) ∙ whole

-- Where a stored variant has the images that its order lists, and they are all stored, its images come
-- in that order, with the same repetitions.
pub ordered_media_assets-order :
    (variant v : PostVariant) (db : Db)
    → find (λ (x : PostVariant). x.id == variant.id) db.variants ≡ some v
    → v.media_assets ≡ variant.media_asset_order
    → ((i : ℕ) → elem i variant.media_asset_order ≡ true → elem i (ids db.assets) ≡ true)
    → ids (ordered_media_assets variant db) ≡ variant.media_asset_order
unfolding ordered_media_assets variant_assets
ordered_media_assets-order variant v db found same known =
    rw (found, variant_assets, same)
      (in_author_order-eq-order
        (select (λ (a : MediaAsset). elem a.id variant.media_asset_order) db.assets)
        variant.media_asset_order
        (λ i.
          ground (arith, elem-rest i (λ j. elem j variant.media_asset_order) db.assets, known i)))
