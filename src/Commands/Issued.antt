-- ===== src/Commands/Issued.antt =====
-- A token of relay/api/management/commands/issue_draft_ingest_token.py, presented to
-- relay/api/authentication.py and relay/api/permissions.py.
use aleyacloud_relay.Base.{
  ℕ, ◌+◌, ◌*◌, ◌≤◌, ◌<◌, true, String, List, [], ◌∷◌, Option, some, ◌≡◌, refl, inl, inr, ◌∙◌, arith,
  find, exists, any, save, find-save, find_sound, find-exists_at, eq_refl, Option-cases, Bool-cases,
  ℤ, pos_part, is_between, lower, lower_code, same_text, codes,
}
use aleyacloud_relay.Models.Tenancy.{Brand, Membership, MembershipRole}
use aleyacloud_relay.Store.{Db, ok}
use aleyacloud_relay.Access.{RelayPrincipal, same_role, has_text, has_role, has_permission}
use aleyacloud_relay.Access.Credentials.{Claims, principal_of, credential, authenticate}
use aleyacloud_relay.Commands.{is_active_brand}
use aleyacloud_relay.Commands.Issue.{
  Purpose, TokenPayload, JwtSettings, is_membership, new_membership, membership_id,
  get_or_create_membership, reactivate, purpose_scopes, token_payload, issue_to_member, issue_token,
}

-- `jwt.encode`, and `jwt.decode` at a time for an issuer and an audience.
pub record Jwt : Type 0 where
  pub encode : TokenPayload → List ℕ
  pub decode : (issuer audience : String) (now : ℕ) → List ℕ → Option Claims

abbrev pub claims_of : TokenPayload → Claims
claims_of p = record {
  sub = p.sub;
  workspace_id = some p.workspace_id;
  brand_ids = some p.brand_ids;
  scopes = some p.scopes;
}

-- What PyJWT documents of one secret: a token decodes to its claims for its issuer and its audience, from
-- when it was issued until it expires.
pub record IsJwt (j : Jwt) : Type 0 where
  pub decode-encode :
      (p : TokenPayload) (now : ℕ)
      → p.iat ≤ now
      → now < p.exp
      → j.decode p.iss p.aud now (j.encode p) ≡ some (claims_of p)

abbrev pub issued_principal : Brand → (subject : String) → Purpose → RelayPrincipal
issued_principal b subject purpose = record {
  subject = subject;
  workspace_id = b.workspace;
  brand_ids = b.id ∷ [];
  scopes = purpose_scopes purpose;
}

-- What a successful handling did: the brand, and the payload that was encoded.
issue_token-brand :
    (jwt_encode : TokenPayload → List ℕ) (settings : JwtSettings)
    (workspace_slug brand_slug subject : String) (days : ℤ) (purpose : Purpose) (new_id now jti : ℕ)
    (db : Db) {token : List ℕ} {after : Db}
    → issue_token jwt_encode settings workspace_slug brand_slug subject days purpose new_id now jti
        db
      ≡ (ok token, after)
    → (b : Brand) × (find (is_active_brand workspace_slug brand_slug db) db.brands ≡ some b)
      × (is_between 1 30 days ≡ true)
      × (token ≡ jwt_encode (token_payload settings b subject purpose days now jti))
      × (issue_to_member token (get_or_create_membership b.workspace subject new_id db)
          ≡ (ok token, after))
unfolding issue_token issue_to_member get_or_create_membership
issue_token-brand jwt_encode settings workspace_slug brand_slug subject days purpose new_id now jti
      db h =
    elim (Option-cases (find (is_active_brand workspace_slug brand_slug db) db.brands)) [
      | inl missing ↦ ground arith
      | inr (b, found) ↦
          elim (Option-cases (find (is_membership b.workspace subject) db.memberships)) [
            | inl new ↦ (b, found, ground arith, ground arith, ground arith)
            | inr (m, old) ↦ (b, found, ground arith, ground arith, ground arith)
          ]
    ]

-- The roles of the views that write.
abbrev pub writers : List MembershipRole
writers = MembershipRole.owner ∷ MembershipRole.manager ∷ MembershipRole.content_creator ∷ []

creator_writes :
    (role : MembershipRole)
    → same_role role MembershipRole.content_creator ≡ true
    → any (same_role role) writers ≡ true
unfolding any
creator_writes MembershipRole.content_creator h = refl
creator_writes MembershipRole.owner h = cc
creator_writes MembershipRole.manager h = cc
creator_writes MembershipRole.client_approver h = cc
creator_writes MembershipRole.viewer h = cc

-- The row of a membership that is active and has the role of the command is a row of the views' query.
member_has_role :
    (p : RelayPrincipal) (m : Membership)
    → is_membership p.workspace_id p.subject m ≡ true
    → same_role m.role MembershipRole.content_creator ≡ true
    → m.is_active ≡ true
    → has_role writers p m ≡ true
member_has_role p m h r a = ground (arith, creator_writes m.role r)

member_stored :
    (p : RelayPrincipal) (new_id : ℕ) (db : Db) (token : List ℕ) {after : Db}
    → issue_to_member token (get_or_create_membership p.workspace_id p.subject new_id db)
      ≡ (ok token, after)
    → exists (has_role writers p) after.memberships ≡ true
unfolding issue_to_member get_or_create_membership reactivate
member_stored p new_id db token {after} h =
    elim (Option-cases (find (is_membership p.workspace_id p.subject) db.memberships)) [
      | inl missing ↦
          let row : Membership = new_membership p.workspace_id p.subject new_id in
          let writes = member_has_role p row (ground (arith, eq_refl p.subject)) refl refl in
          let stored : row ∷ db.memberships ≡ after.memberships = ground arith in
          rw (← stored) (unfold exists find in ground (arith, writes))
      | inr (m, old) ↦
          let fits = find_sound (is_membership p.workspace_id p.subject) m db.memberships old in
          elim (Bool-cases m.is_active) [
            | inl active ↦
                let writes = member_has_role p m fits (ground arith) active in
                let stored : db.memberships ≡ after.memberships = ground arith in
                rw (← stored) (
                  find-exists_at (has_role writers p) (is_membership p.workspace_id p.subject) m
                    db.memberships old writes)
            | inr passive ↦
                let row : Membership = record m { is_active = true } in
                let writes = member_has_role p row fits (ground arith) refl in
                let stored : save membership_id row db.memberships ≡ after.memberships =
                  ground arith in
                rw (← stored) (
                  find-exists_at (has_role writers p) (is_membership p.workspace_id p.subject) row
                    (save membership_id row db.memberships)
                    (find-save (is_membership p.workspace_id p.subject) membership_id m row
                      db.memberships refl fits old)
                    writes)
          ]
    ]

authenticate_bearer :
    (utf8 : List ℕ → Option (List ℕ)) (jwt_decode : List ℕ → Option Claims) (token : List ℕ)
    → utf8 (codes "Bearer") ≡ some (codes "Bearer")
    → authenticate utf8 jwt_decode (codes "Bearer" ∷ token ∷ []) ≡ credential jwt_decode token
unfolding authenticate lower same_text lower_code
authenticate_bearer utf8 jwt_decode token text = rw (text, authenticate) refl

credential_claims :
    (jwt_decode : List ℕ → Option Claims) (token : List ℕ) {claims : Claims} {p : RelayPrincipal}
    → jwt_decode token ≡ some claims
    → principal_of claims ≡ some p
    → credential jwt_decode token ≡ ok (some p)
unfolding credential
credential_claims jwt_decode token h k = ground arith

accepted_token :
    (j : Jwt)
    → IsJwt j
    → (utf8 : List ℕ → Option (List ℕ)) (settings : JwtSettings) (b : Brand) (subject : String)
      (days : ℤ) (purpose : Purpose) (now jti later : ℕ)
    → now ≤ later
    → later < now + pos_part days * 86400
    → utf8 (codes "Bearer") ≡ some (codes "Bearer")
    → authenticate utf8
        (j.decode settings.issuer settings.audience later)
        (codes "Bearer" ∷ j.encode (token_payload settings b subject purpose days now jti) ∷ [])
      ≡ ok (some (issued_principal b subject purpose))
accepted_token j laws utf8 settings b subject days purpose now jti later old young text =
    let payload = token_payload settings b subject purpose days now jti in
    let decoded : j.decode settings.issuer settings.audience later (j.encode payload)
        ≡ some (claims_of payload) =
      unfold token_payload in laws.decode-encode payload later old young in
    authenticate_bearer utf8 (j.decode settings.issuer settings.audience later) (j.encode payload)
      text
    ∙ credential_claims (j.decode settings.issuer settings.audience later) (j.encode payload)
        {claims = claims_of payload} {p = issued_principal b subject purpose} decoded
        (unfold token_payload in refl)

permitted :
    (p : RelayPrincipal) (scope : String) (after : Db)
    → exists (has_role writers p) after.memberships ≡ true
    → has_permission
        (record { required_scope = some scope; required_roles = some writers })
        (some p)
        after
      ≡ has_text scope p.scopes
unfolding has_permission
permitted p scope after h = ground arith

-- A token that the command prints authenticates its bearer until it expires, as the subject, in the
-- workspace of the brand, with this one brand and the scopes of the purpose. The views that let owners,
-- managers and content creators in let the bearer in, on the rows that the command leaves, exactly for
-- these scopes.
pub issue_token-authenticate :
    (j : Jwt)
    → IsJwt j
    → (utf8 : List ℕ → Option (List ℕ)) (settings : JwtSettings)
      (workspace_slug brand_slug subject : String) (days : ℤ) (purpose : Purpose)
      (new_id now jti later : ℕ) (db : Db) {token : List ℕ} {after : Db}
    → issue_token j.encode settings workspace_slug brand_slug subject days purpose new_id now jti db
      ≡ (ok token, after)
    → now ≤ later
    → later < now + pos_part days * 86400
    → utf8 (codes "Bearer") ≡ some (codes "Bearer")
    → (b : Brand) × (find (is_active_brand workspace_slug brand_slug db) db.brands ≡ some b)
      × (authenticate utf8
            (j.decode settings.issuer settings.audience later)
            (codes "Bearer" ∷ token ∷ [])
          ≡ ok (some (issued_principal b subject purpose)))
      × ((scope : String)
          → has_permission
              (record { required_scope = some scope; required_roles = some writers })
              (some (issued_principal b subject purpose))
              after
            ≡ has_text scope (purpose_scopes purpose))
issue_token-authenticate j laws utf8 settings workspace_slug brand_slug subject days purpose new_id
      now jti later db {token} {after} h old young text =
    let (b, found, _, made, stored) =
      issue_token-brand j.encode settings workspace_slug brand_slug subject days purpose new_id now
        jti db h in
    let p : RelayPrincipal = issued_principal b subject purpose in
    (
      b,
      found,
      rw made
          (accepted_token j laws utf8 settings b subject days purpose now jti later old young text),
      λ scope. permitted p scope after (member_stored p new_id db token stored),
    )
