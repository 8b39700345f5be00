-- ===== src/Media/Intent.antt =====
-- `create_media_upload_intent` of relay/content/services.py.
use aleyacloud_relay.Base.{
  ℕ, Bool, true, false, String, List, ◌∷◌, some, ◌≡◌, ◌⊎◌, inl, inr, ap, ◌∙◌, arith, leb, ltb,
  lower, codes, ◌++◌,
}
use aleyacloud_relay.Models.Content.{MediaAsset, UploadState}
use aleyacloud_relay.Store.{Db, Error, Result, ok, raise}
use aleyacloud_relay.Store.Laws.{Result-cases, atomic-ok, atomic-raise}
use aleyacloud_relay.Storage.{Settings, Signer, presigned_upload_url}
use aleyacloud_relay.Media.{max_image_bytes}
use aleyacloud_relay.Media.Upload.{
  is_supported, safe_filename, storage_key, bad_checksum, asset_clash, asset_log, MediaUploadIntent,
  pending_asset, issue_intent, create_media_upload_intent,
}

module _ (settings : Settings) (signer : Signer) where
  pub issue_intent-ok :
      (asset : MediaAsset) (checksum : List ℕ) (subject : String) (db after : Db)
      (intent : MediaUploadIntent)
      → issue_intent settings signer asset checksum subject false db ≡ ok (intent, after)
      → (is_supported asset.content_type ≡ true)
        × (ltb 0 asset.size_bytes ≡ true)
        × (leb asset.size_bytes max_image_bytes ≡ true)
        × (bad_checksum checksum ≡ false)
        × (asset_clash asset db ≡ false)
        × (intent.asset ≡ asset)
        × (presigned_upload_url settings signer asset.storage_key asset.content_type asset.checksum
            ≡ some intent.upload_url)
        × (after.assets ≡ asset ∷ db.assets)
        × (after.audit
            ≡ asset_log asset.tenant asset.brand subject "media.upload_intent_created" asset
              ∷ db.audit)
  unfolding issue_intent
  issue_intent-ok asset checksum subject db after intent h = ground arith

  -- The row of an upload that is announced, whose key is that of the workspace, the brand and the asset.
  abbrev pub announced :
      (isalnum isspace : ℕ → Bool) (uuid_text : ℕ → List ℕ) (tenant brand : ℕ) (filename : List ℕ)
      (content_type : String) (size : ℕ) (checksum : List ℕ) (id now : ℕ)
      → MediaAsset
  announced isalnum isspace uuid_text tenant brand filename content_type size checksum id now =
      record {
        id = id;
        created_at = now;
        tenant = tenant;
        brand = brand;
        storage_key =
            codes "relay/workspaces/"
            ++ (uuid_text tenant
                ++ (codes "/brands/"
                    ++ (uuid_text brand
                        ++ (codes "/assets/"
                            ++ (uuid_text id
                                ++ (codes "/" ++ safe_filename isalnum isspace filename))))));
        content_type = content_type;
        size_bytes = size;
        checksum = lower checksum;
        upload_state = UploadState.pending;
      }

  -- How a call ends.
  abbrev pub IntentOutcome :
      (isalnum isspace : ℕ → Bool) (uuid_text : ℕ → List ℕ) (tenant brand : ℕ) (subject : String)
      (filename : List ℕ) (content_type : String) (size : ℕ) (checksum : List ℕ) (id now : ℕ)
      → Db
      → Type 0
  IntentOutcome isalnum isspace uuid_text tenant brand subject filename content_type size checksum
        id now db =
      let out =
        create_media_upload_intent isalnum isspace uuid_text settings signer tenant brand subject
          filename content_type size checksum id now db in
      let asset =
        announced isalnum isspace uuid_text tenant brand filename content_type size checksum id
          now in
      ((e : Error) × (out ≡ (raise e, db)))
      ⊎ ((url : List ℕ) × (out.0 ≡ ok (record { asset = asset; upload_url = url }))
          × (presigned_upload_url settings signer asset.storage_key content_type (lower checksum)
              ≡ some url)
          × (is_supported content_type ≡ true)
          × (ltb 0 size ≡ true)
          × (leb size 10485760 ≡ true)
          × (bad_checksum checksum ≡ false)
          × (asset_clash asset db ≡ false)
          × (out.1.assets ≡ asset ∷ db.assets))

  -- An upload intent is issued only for a JPEG or PNG image of 1 to 10485760 bytes, with a checksum
  -- that is absent or 64 hexadecimal digits, whose id and storage key are new. It stores one PENDING
  -- row of that tenant and brand under a key that names them and the asset, its checksum in lower case, and
  -- answers with the URL that the
  -- object store signs for exactly that key, type and checksum. Every refusal writes nothing.
  pub create_media_upload_intent-outcome :
      (isalnum isspace : ℕ → Bool) (uuid_text : ℕ → List ℕ) (tenant brand : ℕ) (subject : String)
      (filename : List ℕ) (content_type : String) (size : ℕ) (checksum : List ℕ) (id now : ℕ)
      (db : Db)
      → IntentOutcome isalnum isspace uuid_text tenant brand subject filename content_type size
          checksum id now db
  unfolding create_media_upload_intent pending_asset storage_key
  create_media_upload_intent-outcome isalnum isspace uuid_text tenant brand subject filename
        content_type size checksum id now db =
      let asset : MediaAsset =
        pending_asset isalnum isspace uuid_text tenant brand filename content_type size checksum id
          now in
      elim (Result-cases (issue_intent settings signer asset checksum subject false db)) [
        | inl ((intent, after), e) ↦
            let (a, b, c, d, f, g, u, rows, _) =
              issue_intent-ok asset checksum subject db after intent e in
            let out = atomic-ok (issue_intent settings signer asset checksum subject) db e in
            inr (
              intent.upload_url,
              ap (λ (x : Result MediaUploadIntent × Db). x.0) out
                  ∙ ap
                      (λ (x : MediaAsset).
                        let r : Result MediaUploadIntent =
                          ok (record { asset = x; upload_url = intent.upload_url }) in
                        r)
                      g,
              u,
              a,
              b,
              c,
              d,
              f,
              ap (λ (x : Result MediaUploadIntent × Db). x.1.assets) out ∙ rows,
            )
        | inr (x, e) ↦
            inl (x, atomic-raise (issue_intent settings signer asset checksum subject) db e)
      ]
