-- ===== src/Store.antt =====
-- The database and its transactions: `django.db.transaction.atomic` with the row operations that
-- the services use in it.
pub mod Laws
use aleyacloud_relay.Base.{Bool, true, false, List, ◌∷◌, Option, none, some, if◌then◌else◌}
use aleyacloud_relay.Models.Tenancy.{Tenant, Brand, Membership}
use aleyacloud_relay.Models.Content.{Post, PostVariant, MediaAsset}
use aleyacloud_relay.Models.Approvals.{ApprovalRequest, ApprovalComment}
use aleyacloud_relay.Models.Audit.{AuditLog}
use aleyacloud_relay.Models.Social.{SocialAccount, ChannelConnection, OAuthState}
use aleyacloud_relay.Models.Publications.{Publication, PublicationAttempt}

pub record Db : Type 0 where
  pub tenants : List Tenant
  pub brands : List Brand
  pub memberships : List Membership
  pub posts : List Post
  pub variants : List PostVariant
  pub assets : List MediaAsset
  pub approval_requests : List ApprovalRequest
  pub comments : List ApprovalComment
  pub accounts : List SocialAccount
  pub connections : List ChannelConnection
  pub oauth_states : List OAuthState
  pub publications : List Publication
  pub attempts : List PublicationAttempt
  pub audit : List AuditLog

-- The exceptions of the services, and those of Django that they meet.
pub data Error : Type 0 where
  does_not_exist integrity_error transaction_management_error value_error type_error key_error :
      Error
  idempotency_conflict invalid_state_transition invalid_schedule : Error
  invalid_media_asset media_upload_unavailable object_storage_not_configured : Error
  invalid_approval_link approval_already_decided approval_already_revoked invalid_approval_state :
      Error
  invalid_oauth_state meta_configuration_error meta_provider_error token_encryption_error : Error
  media_delivery_unavailable : Error
  authentication_failed not_authenticated not_found command_error : Error
  name_error attribute_error data_error overflow_error : Error

pub data Result (A : Type 0) : Type 0 where
  ok : A → Result A
  raise : Error → Result A

-- The body of a transaction. Its flag is Django's `needs_rollback`: a database error sets it, and
-- every later query of the transaction raises. An exception gives up what the body has written.
abbrev pub Tx : Type 0 → Type 0
Tx A = Bool → Db → Result (A × Db)

abbrev pub pure : {A : Type 0} → A → Tx A
pure a broken db = ok (a, db)

infixl 5 ◌>>=◌ ◌>>◌
abbrev pub ◌>>=◌ : {A B : Type 0} → Tx A → (A → Tx B) → Tx B
◌>>=◌ m f broken db = elim (m broken db) [ ok (a, db') ↦ f a broken db' | raise e ↦ raise e ]

abbrev pub ◌>>◌ : {A B : Type 0} → Tx A → Tx B → Tx B
m >> k = m >>= λ _. k

-- `if test: raise e`
abbrev pub raise_if : Bool → Error → Tx (Unit {0})
raise_if test e broken db = if test then raise e else ok (tt, db)

-- A query.
abbrev pub query : {A : Type 0} → (Db → A) → Tx A
query f broken db = if broken then raise transaction_management_error else ok (f db, db)

-- A query for one row, where a missing row raises.
abbrev pub get : {A : Type 0} → (Db → Option A) → Error → Tx A
get f e broken db =
    if broken
    then raise transaction_management_error
    else elim (f db) [ none ↦ raise e | some a ↦ ok (a, db) ]

-- An update of rows that are there.
abbrev pub write : (Db → Db) → Tx (Unit {0})
write f broken db = if broken then raise transaction_management_error else ok (tt, f db)

-- An insert. A row that breaks a constraint is an IntegrityError.
abbrev pub insert : (Db → Bool) → (Db → Db) → Tx (Unit {0})
insert clash f broken db =
    if broken
    then raise transaction_management_error
    else if clash db
    then raise integrity_error
    else ok (tt, f db)

-- `try: body except IntegrityError: handler`: the handler runs in the marked transaction.
abbrev pub except_integrity_error : {A : Type 0} → Tx A → Tx A → Tx A
except_integrity_error body handler broken db = elim (body broken db) [
  | ok r ↦ ok r
  | raise e ↦ elim e [ integrity_error ↦ handler true db | other ↦ raise other ]
]

-- `@transaction.atomic`: commits on a return, rolls back on an exception.
abbrev pub atomic : {A : Type 0} → Tx A → Db → Result A × Db
atomic body db = elim (body false db) [ ok (a, db') ↦ (ok a, db') | raise e ↦ (raise e, db) ]

-- `AuditLog.objects.create(...)`
abbrev pub log : AuditLog → Tx (Unit {0})
log entry = write (λ db. record db { audit = entry ∷ db.audit })
