-- ===== src/Commands/Issue.antt =====
-- relay/api/management/commands/issue_draft_ingest_token.py: a credential for one brand. Each query
-- commits on its own. `jwt_encode` is `jwt.encode` with the secret of the settings; the subject fits its
-- column.
use aleyacloud_relay.Base.{
  ℕ, ◌+◌, ◌*◌, Bool, true, false, not, ◌&&◌, String, str_eq, List, [], ◌∷◌, none, some, ◌==◌,
  if◌then◌else◌, find, exists, save, ℤ, pos_part, is_between,
}
use aleyacloud_relay.Models.Tenancy.{Brand, Membership, MembershipRole}
use aleyacloud_relay.Store.{Db, Result, ok, raise, command_error, integrity_error}
use aleyacloud_relay.Access.{same_role}
use aleyacloud_relay.Commands.{is_active_brand}

pub data Purpose : Type 0 where
  draft schedule : Purpose

-- The payload of the token, in seconds.
pub record TokenPayload : Type 0 where
  pub sub : String
  pub workspace_id : ℕ
  pub brand_ids : List ℕ
  pub scopes : List String
  pub iss : String
  pub aud : String
  pub iat : ℕ
  pub exp : ℕ
  pub jti : ℕ

-- The settings RELAY_SERVICE_JWT_ISSUER and RELAY_SERVICE_JWT_AUDIENCE.
pub record JwtSettings : Type 0 where
  pub issuer : String
  pub audience : String

-- The look-up of `get_or_create`.
abbrev pub is_membership : (workspace : ℕ) (subject : String) → Membership → Bool
is_membership workspace subject m = m.workspace == workspace && str_eq m.subject subject

abbrev pub new_membership : (workspace : ℕ) (subject : String) (id : ℕ) → Membership
new_membership workspace subject id = record {
  id = id;
  workspace = workspace;
  subject = subject;
  role = MembershipRole.content_creator;
  is_active = true;
}

abbrev pub membership_id : Membership → ℕ
membership_id m = m.id

-- The membership and whether it is new.
unfoldable pub get_or_create_membership :
    (workspace : ℕ) (subject : String) (new_id : ℕ) → Db → Result (Membership × Bool) × Db
get_or_create_membership workspace subject new_id db =
    elim (find (is_membership workspace subject) db.memberships) [
      | some m ↦ (ok (m, false), db)
      | none ↦
          if exists (λ (x : Membership). x.id == new_id) db.memberships
          then (raise integrity_error, db)
          else (
            ok (new_membership workspace subject new_id, true),
            record db { memberships = new_membership workspace subject new_id ∷ db.memberships },
          )
    ]

-- `if not membership.is_active: ... membership.save(...)`
unfoldable pub reactivate : Membership → Db → Db
reactivate m db = if m.is_active then db else record db {
  memberships = save membership_id (record m { is_active = true }) db.memberships;
}

unfoldable pub purpose_scopes : Purpose → List String
purpose_scopes draft = "media:write" ∷ "posts:write" ∷ []
purpose_scopes schedule =
    "media:write" ∷ "posts:write" ∷ "posts:approve" ∷ "publications:write" ∷ []

unfoldable pub token_payload :
    JwtSettings
    → Brand
    → (subject : String) → Purpose
    → (days : ℤ) (issued_at jti : ℕ) → TokenPayload
token_payload settings b subject purpose days issued_at jti = record {
  sub = subject;
  workspace_id = b.workspace;
  brand_ids = b.id ∷ [];
  scopes = purpose_scopes purpose;
  iss = settings.issuer;
  aud = settings.audience;
  iat = issued_at;
  exp = issued_at + pos_part days * 86400;
  jti = jti;
}

-- What follows `get_or_create`; `token` is the token of the brand.
unfoldable pub issue_to_member :
    (token : List ℕ) → Result (Membership × Bool) × Db → Result (List ℕ) × Db
issue_to_member token (raise e, db) = (raise e, db)
issue_to_member token (ok (m, created), db) =
    if not created && not (same_role m.role MembershipRole.content_creator)
    then (raise command_error, db)
    else (ok token, reactivate m db)

-- `Command.handle` with the token that it prints.
unfoldable pub issue_token :
    (jwt_encode : TokenPayload → List ℕ) (settings : JwtSettings)
    (workspace_slug brand_slug subject : String) (days : ℤ) (purpose : Purpose) (new_id now jti : ℕ)
    → Db
    → Result (List ℕ) × Db
issue_token jwt_encode settings workspace_slug brand_slug subject days purpose new_id now jti db =
    if not (is_between 1 30 days)
    then (raise command_error, db)
    else elim (find (is_active_brand workspace_slug brand_slug db) db.brands) [
      | none ↦ (raise command_error, db)
      | some b ↦
          issue_to_member (jwt_encode (token_payload settings b subject purpose days now jti))
            (get_or_create_membership b.workspace subject new_id db)
    ]
