-- ===== src/Media/Confirm.antt =====
-- What `confirm_media_upload` of relay/content/services.py accepts and leaves.
use aleyacloud_relay.Base.{
  ℕ, Bool, true, false, ◌&&◌, String, List, Option, none, some, ◌≡◌, refl, ◌⊎◌, inl, inr, ap, ◌∙◌,
  arith, ◌==◌, same_text, lower, before, codes, is_empty, find, save, Option-cases, Bool-cases,
  find-save_less,
}
use aleyacloud_relay.Models.Content.{UploadState, is_ready, MediaAsset}
use aleyacloud_relay.Store.{Db, Error, Result, ok, raise, atomic, does_not_exist}
use aleyacloud_relay.Store.Laws.{Result-cases, atomic-ok, atomic-raise}
use aleyacloud_relay.Media.Upload.{
  ObjectMetadata, same_size, mismatches, wrong_checksum, with_state, is_pending_upload,
  confirm_pending, confirm_media_upload,
}

-- What the object store reports about the asset: the size and the type that the intent announced, and the
-- same checksum where both the asset and the report have one.
abbrev pub Agrees : MediaAsset → ObjectMetadata → Type 0
Agrees asset remote =
    (remote.content_length ≡ some asset.size_bytes)
    × (same_text (lower (before b';' remote.content_type)) (codes asset.content_type) ≡ true)
    × ((is_empty asset.checksum ≡ true)
        ⊎ ((is_empty (lower remote.sha256) ≡ true)
            ⊎ (same_text (lower remote.sha256) asset.checksum ≡ true)))

abbrev pub Matches : MediaAsset → Option ObjectMetadata → Type 0
Matches asset head = (remote : ObjectMetadata) × ((head ≡ some remote) × Agrees asset remote)

same_size-eq : (o : Option ℕ) (n : ℕ) → same_size o n ≡ true → o ≡ some n
same_size-eq none n h = ground arith
same_size-eq (some m) n h = let same : m ≡ n = ground arith in ap (λ x. some x) same

Agrees-checks :
    (asset : MediaAsset) (remote : ObjectMetadata)
    → mismatches asset remote ≡ false
    → wrong_checksum asset remote ≡ false
    → Agrees asset remote
unfolding mismatches wrong_checksum
Agrees-checks asset remote h k =
    (same_size-eq remote.content_length asset.size_bytes (ground arith), ground arith, ground arith)

pub confirm_pending-ok :
    (asset : MediaAsset) (tenant : ℕ) (subject : String) (head : Option ObjectMetadata)
    (db after : Db) (a : MediaAsset)
    → confirm_pending asset tenant subject head false db ≡ ok (a, after)
    → (is_pending_upload asset.upload_state ≡ true)
      × Matches asset head
      × (a ≡ with_state UploadState.ready asset)
      × (after.assets ≡ save (λ (x : MediaAsset). x.id) a db.assets)
unfolding confirm_pending
confirm_pending-ok asset tenant subject none db after a h = ground arith
confirm_pending-ok asset tenant subject (some remote) db after a h = (
  ground arith,
  (remote, (refl, Agrees-checks asset remote (ground arith) (ground arith))),
  ground arith,
  ground arith,
)

abbrev pub is_asset : (id tenant : ℕ) → MediaAsset → Bool
is_asset id tenant a = a.id == id && a.tenant == tenant

abbrev pub is_failed : UploadState → Bool
is_failed UploadState.failed = true
is_failed _ = false

module _ (head_object : List ℕ → Option ObjectMetadata) (id tenant : ℕ) (subject : String) where
  confirm_ready :
      (db : Db) (old : MediaAsset)
      → find (is_asset id tenant) db.assets ≡ some old
      → is_ready old.upload_state ≡ true
      → confirm_media_upload head_object id tenant subject db ≡ (ok old, db)
  unfolding confirm_media_upload
  confirm_ready db old found ready = ground arith

  confirm_not_ready :
      (db : Db) (old : MediaAsset)
      → find (is_asset id tenant) db.assets ≡ some old
      → is_ready old.upload_state ≡ false
      → confirm_media_upload head_object id tenant subject db
        ≡ atomic (confirm_pending old tenant subject (head_object old.storage_key)) db
  unfolding confirm_media_upload
  confirm_not_ready db old found pending = ground arith

  confirm_missing :
      (db : Db)
      → find (is_asset id tenant) db.assets ≡ none
      → confirm_media_upload head_object id tenant subject db ≡ (raise does_not_exist, db)
  unfolding confirm_media_upload
  confirm_missing db missing = ground arith

  -- How a call ends.
  abbrev pub ConfirmOutcome : Db → Type 0
  ConfirmOutcome db =
      ((e : Error) × (confirm_media_upload head_object id tenant subject db ≡ (raise e, db)))
      ⊎ ((old : MediaAsset) × (find (is_asset id tenant) db.assets ≡ some old)
          × (((is_ready old.upload_state ≡ true)
                × (confirm_media_upload head_object id tenant subject db ≡ (ok old, db)))
              ⊎ ((is_pending_upload old.upload_state ≡ true)
                  × Matches old (head_object old.storage_key)
                  × ((confirm_media_upload head_object id tenant subject db).0
                      ≡ ok (with_state UploadState.ready old))
                  × ((confirm_media_upload head_object id tenant subject db).1.assets
                      ≡ save (λ (x : MediaAsset). x.id) (with_state UploadState.ready old)
                          db.assets))))

  -- Every outcome of `confirm_media_upload`: an exception writes nothing; a returned asset is the
  -- tenant's asset of that id, and either it was ready before and nothing is written, or it was
  -- pending, the object store reported the announced size and content type for its key, and no other
  -- checksum than the announced one where the report and the asset have one, and it is stored as ready.
  pub confirm_media_upload-outcome : (db : Db) → ConfirmOutcome db
  confirm_media_upload-outcome db = elim (Option-cases (find (is_asset id tenant) db.assets)) [
    | inl missing ↦ inl (does_not_exist, confirm_missing db missing)
    | inr (old, found) ↦ elim (Bool-cases (is_ready old.upload_state)) [
      | inl ready ↦ inr (old, found, inl (ready, confirm_ready db old found ready))
      | inr other ↦
          elim (Result-cases
            (confirm_pending old tenant subject (head_object old.storage_key) false db)) [
              | inl ((a, after), e) ↦
                  let facts =
                    confirm_pending-ok old tenant subject (head_object old.storage_key) db after a
                      e in
                  let same = confirm_not_ready db old found other in
                  inr (
                    old,
                    found,
                    inr (
                      facts.0,
                      facts.1,
                      ap (λ (x : Result MediaAsset × Db). x.0)
                            (same
                              ∙ atomic-ok
                                  (confirm_pending old tenant subject (head_object old.storage_key))
                                  db e)
                          ∙ ap ok (facts.2),
                      ap (λ (x : Result MediaAsset × Db). x.1.assets)
                            (same
                              ∙ atomic-ok
                                  (confirm_pending old tenant subject (head_object old.storage_key))
                                  db e)
                          ∙ facts.3
                          ∙ ap (λ (x : MediaAsset). save (λ (y : MediaAsset). y.id) x db.assets)
                              (facts.2),
                    ),
                  )
              | inr (x, e) ↦ inl (
                x,
                confirm_not_ready db old found other
                    ∙ atomic-raise
                        (confirm_pending old tenant subject (head_object old.storage_key)) db e,
              )
            ]
    ]
  ]

  -- `confirm_media_upload` never leaves an asset FAILED, although it sets that state and saves it
  -- where the report does not match: where no asset is FAILED before, none is after.
  pub confirm_media_upload-failed :
      (db : Db)
      → find (λ (a : MediaAsset). is_failed a.upload_state) db.assets ≡ none
      → find
          (λ (a : MediaAsset). is_failed a.upload_state)
          (confirm_media_upload head_object id tenant subject db).1.assets
        ≡ none
  confirm_media_upload-failed db none_failed = elim (confirm_media_upload-outcome db) [
    | inl (e, same) ↦ rw same none_failed
    | inr (old, found, inl (_, same)) ↦ rw same none_failed
    | inr (old, found, inr (_, _, _, after)) ↦ rw after (
        find-save_less (λ (a : MediaAsset). is_failed a.upload_state) (λ (x : MediaAsset). x.id)
          (with_state UploadState.ready old) db.assets refl none_failed)
  ]
