-- ===== src/Posts.antt =====
-- relay/api/services.py, the commands on posts: `create_post_draft` and `approve_post`.
-- `request_fingerprint` is here too, since both creations use it.
pub mod Drafts
pub mod Idempotency
pub mod Approve
use aleyacloud_relay.Base.{
  ℕ, Bool, true, false, not, ◌&&◌, ◌||◌, String, str_eq, List, [], ◌∷◌, ◌++◌, map, Option, none,
  some, ◌==◌, if◌then◌else◌, find, exists, save,
}
use Prim.Native.String.{compare}
use Prim.Native.Nat.{Ordering}
use aleyacloud_relay.Models.Lifecycle.{LifecycleState, is_draft, is_pending_approval, is_approved}
use aleyacloud_relay.Models.Content.{Post, PostVariant}
use aleyacloud_relay.Models.Audit.{Value, AuditLog}
use aleyacloud_relay.Store.{
  Db, Result, ok, raise, does_not_exist, idempotency_conflict, invalid_state_transition, Tx, pure,
  ◌>>=◌, ◌>>◌, raise_if, get, write, insert, except_integrity_error, atomic, log,
}
use aleyacloud_relay.Media.{asset_id, ready_assets_for_post}

abbrev pub Payload : Type 0
Payload = List (String × Value)

-- `sort_keys=True`
unfoldable pub insert_entry : String × Value → Payload → Payload
insert_entry e [] = e ∷ []
insert_entry e (f ∷ fs) =
    let later = f ∷ insert_entry e fs in
    elim (compare e.0 f.0) [ Ordering.gt ↦ later | _ ↦ e ∷ f ∷ fs ]

unfoldable pub sort_keys : Payload → Payload
sort_keys [] = []
sort_keys (e ∷ es) = insert_entry e (sort_keys es)

-- `sha256` is the digest of the JSON text of sorted entries.
unfoldable pub request_fingerprint : (Payload → ℕ) → Payload → ℕ
request_fingerprint sha256 payload = sha256 (sort_keys payload)

-- The validated body of the request; `title` may be left out.
pub record PostPayload : Type 0 where
  pub brand_id : ℕ
  pub title : Option String
  pub body : String
  pub media_asset_ids : List ℕ

abbrev pub title_entry : Option String → Payload
title_entry none = []
title_entry (some t) = ("title", Value.text t) ∷ []

abbrev pub post_entries : PostPayload → Payload
post_entries p =
    ("brand_id", Value.uuid p.brand_id)
    ∷ (title_entry p.title
        ++ (("body", Value.text p.body) ∷ ("media_asset_ids", Value.uuids p.media_asset_ids) ∷ []))

abbrev pub title_of : Option String → String
title_of none = ""
title_of (some t) = t

pub record CreatePostResult : Type 0 where
  pub post : Post
  pub created : Bool

-- `filter(tenant=tenant, idempotency_key=idempotency_key)`
abbrev pub has_post_key : ℕ → String → Post → Bool
has_post_key tenant key p = p.tenant == tenant && str_eq p.idempotency_key key

abbrev pub save_variant : PostVariant → Db → Db
save_variant v db = record db { variants = save (λ (x : PostVariant). x.id) v db.variants }

abbrev pub save_post : Post → Db → Db
save_post p db = record db { posts = save (λ (x : Post). x.id) p db.posts }

-- The primary key or the constraint unique_post_idempotency_key.
abbrev pub post_clash : Post → Db → Bool
post_clash post db =
    exists (λ (p : Post). p.id == post.id || has_post_key post.tenant post.idempotency_key p)
      db.posts

abbrev pub new_post : (fingerprint tenant brand : ℕ) (subject key : String) → PostPayload → ℕ → Post
new_post fingerprint tenant brand subject key payload post_id = record {
  id = post_id;
  tenant = tenant;
  brand = brand;
  title = title_of payload.title;
  body = payload.body;
  state = LifecycleState.draft;
  created_by_subject = subject;
  idempotency_key = key;
  request_fingerprint = fingerprint;
}

abbrev pub default_variant : Post → ℕ → PostVariant
default_variant post variant_id = record {
  id = variant_id;
  post = post.id;
  body = post.body;
  media_assets = [];
  media_asset_order = [];
  channel_hint = "";
}

abbrev pub draft_log : Post → (subject : String) → AuditLog
draft_log post subject = record {
  tenant = post.tenant;
  brand = some post.brand;
  actor_type = "service";
  actor_id = Value.text subject;
  event_type = "post.draft_created";
  subject_type = "post";
  subject_id = post.id;
  metadata = ("idempotency_key", Value.text post.idempotency_key) ∷ [];
}

-- The body of the `try`: the post, its images, its default variant and the log entry.
unfoldable pub insert_draft :
    Post → (asset_ids : List ℕ) (subject : String) (variant_id : ℕ) → Tx CreatePostResult
insert_draft post asset_ids subject variant_id = do
  insert (post_clash post) (λ db. record db { posts = post ∷ db.posts })
  assets ← ready_assets_for_post post.tenant post.brand asset_ids
  let variant : PostVariant = default_variant post variant_id
  insert (λ db. exists (λ (v : PostVariant). v.id == variant_id) db.variants)
      (λ db. record db { variants = variant ∷ db.variants })
  let attached : PostVariant = record variant { media_assets = map asset_id assets }
  write (save_variant attached)
  write (save_variant (record attached { media_asset_order = map asset_id assets }))
  log (draft_log post subject)
  pure (record { post = post; created = true })

-- The handler of the `except IntegrityError`.
unfoldable pub replay_draft : (tenant : ℕ) (key : String) (fingerprint : ℕ) → Tx CreatePostResult
replay_draft tenant key fingerprint = do
  existing ← get (λ db. find (has_post_key tenant key) db.posts) does_not_exist
  raise_if (not (existing.request_fingerprint == fingerprint)) idempotency_conflict
  pure (record { post = existing; created = false })

-- `others` is what other transactions commit after the look-up of the key: the look-up locks no row
-- where it finds none. Up to there the transaction has written nothing.
unfoldable pub create_post_draft :
    (sha256 : Payload → ℕ) (tenant brand : ℕ) (subject key : String)
    → PostPayload
    → (post_id variant_id : ℕ) (others : Db → Db) → Db
    → Result CreatePostResult × Db
create_post_draft sha256 tenant brand subject key payload post_id variant_id others db =
    let fingerprint : ℕ = request_fingerprint sha256 (post_entries payload) in
    elim (find (has_post_key tenant key) db.posts) [
      | some existing ↦
          if existing.request_fingerprint == fingerprint
          then (ok (record { post = existing; created = false }), db)
          else (raise idempotency_conflict, db)
      | none ↦
          atomic
            (except_integrity_error
              (insert_draft (new_post fingerprint tenant brand subject key payload post_id)
                payload.media_asset_ids subject variant_id)
              (replay_draft tenant key fingerprint))
            (others db)
    ]

-- `get(id=..., tenant=..., brand=...)`
abbrev pub in_scope : ℕ → ℕ → ℕ → Post → Bool
in_scope id tenant brand p = p.id == id && (p.tenant == tenant && p.brand == brand)

unfoldable pub approve_post : (post tenant brand : ℕ) (subject : String) → Db → Result Post × Db
approve_post post_id tenant brand subject = atomic (
    get (λ db. find (in_scope post_id tenant brand) db.posts) does_not_exist >>= λ post.
    if is_approved post.state then pure post else (do
      raise_if (not (is_draft post.state || is_pending_approval post.state))
          invalid_state_transition
      let post' : Post = record post { state = LifecycleState.approved }
      write (save_post post')
      log (record {
        tenant = tenant;
        brand = some brand;
        actor_type = "service";
        actor_id = Value.text subject;
        event_type = "post.approved";
        subject_type = "post";
        subject_id = post.id;
        metadata = [];
      })
      pure post'))
