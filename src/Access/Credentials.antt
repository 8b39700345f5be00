-- ===== src/Access/Credentials.antt =====
-- relay/api/authentication.py: the credentials that callers present. `utf8` is `bytes.decode`, and
-- `jwt_decode` is `jwt.decode` with the arguments of the source, where `none` is a PyJWTError.
use aleyacloud_relay.Base.{
  ℕ, true, String, List, [], ◌∷◌, Option, none, some, ◌≡◌, refl, inl, inr, arith, if◌then◌else◌,
  lower, same_text, codes, Option-cases, Bool-cases,
}
use aleyacloud_relay.Store.{Db, Result, ok, raise, authentication_failed, value_error}
use aleyacloud_relay.Access.{RelayPrincipal, panel_principal}

-- The decoded payload; `none` is a claim that is no UUID, or nothing to iterate over.
pub record Claims : Type 0 where
  pub sub : String
  pub workspace_id : Option ℕ
  pub brand_ids : Option (List ℕ)
  pub scopes : Option (List String)

abbrev pub principal_of : Claims → Option RelayPrincipal
principal_of c = elim c.workspace_id [
  | none ↦ none
  | some workspace ↦ elim c.brand_ids [
    | none ↦ none
    | some brands ↦ elim c.scopes [
      | none ↦ none
      | some scopes ↦ some (record {
        subject = c.sub;
        workspace_id = workspace;
        brand_ids = brands;
        scopes = scopes;
      })
    ]
  ]
]

-- The `try` block.
unfoldable pub credential :
    (jwt_decode : List ℕ → Option Claims) → List ℕ → Result (Option RelayPrincipal)
credential jwt_decode token = elim (jwt_decode token) [
  | none ↦ raise authentication_failed
  | some claims ↦ elim (principal_of claims) [
    | none ↦ raise authentication_failed
    | some p ↦ ok (some p)
  ]
]

-- `RelayServiceJWTAuthentication.authenticate` on the parts of the Authorization header; `ok none` leaves
-- the request to the next authentication. A scheme that is no UTF-8 is a ValueError that nothing catches.
unfoldable pub authenticate :
    (utf8 : List ℕ → Option (List ℕ)) (jwt_decode : List ℕ → Option Claims)
    → (authorization : List (List ℕ)) → Result (Option RelayPrincipal)
authenticate utf8 jwt_decode [] = ok none
authenticate utf8 jwt_decode (scheme ∷ []) = raise authentication_failed
authenticate utf8 jwt_decode (scheme ∷ token ∷ []) = elim (utf8 scheme) [
  | none ↦ raise value_error
  | some s ↦
      if same_text (lower s) (codes "bearer")
      then credential jwt_decode token
      else raise authentication_failed
]
authenticate utf8 jwt_decode (scheme ∷ token ∷ x ∷ rest) = raise authentication_failed

-- `RelayPanelSessionAuthentication.authenticate`, where `user` is the subject of the session's user as
-- `SessionAuthentication` finds it. A principal comes with the new workspace of the session.
unfoldable pub authenticate_session :
    (user : Option String) (requested : Option ℕ) → Db → Result (Option (RelayPrincipal × ℕ))
authenticate_session none requested db = ok none
authenticate_session (some subject) requested db = elim (panel_principal subject requested db) [
  | ok p ↦ ok (some p)
  | raise e ↦ raise e
]

credential-some :
    (jwt_decode : List ℕ → Option Claims) (token : List ℕ) {p : RelayPrincipal}
    → credential jwt_decode token ≡ ok (some p)
    → (claims : Claims) × (jwt_decode token ≡ some claims) × (principal_of claims ≡ some p)
unfolding credential
credential-some jwt_decode token {p} h = elim (Option-cases (jwt_decode token)) [
  | inl e ↦ ground arith
  | inr (claims, e) ↦ (
    claims,
    e,
    elim (Option-cases (principal_of claims)) [
      | inl e2 ↦ ground arith
      | inr (q, e2) ↦ ground arith
    ],
  )
]

-- A service gets a principal only by a header of two parts, the bearer scheme in any case and a token
-- that `jwt.decode` accepts, and the principal's subject, workspace, brands and scopes are the claims of
-- that token.
pub authenticate-some :
    (utf8 : List ℕ → Option (List ℕ)) (jwt_decode : List ℕ → Option Claims)
    (authorization : List (List ℕ)) {p : RelayPrincipal}
    → authenticate utf8 jwt_decode authorization ≡ ok (some p)
    → (scheme : List ℕ) × (s : List ℕ) × (token : List ℕ) × (claims : Claims) × (authorization
        ≡ scheme ∷ token ∷ [])
      × (utf8 scheme ≡ some s)
      × (same_text (lower s) (codes "bearer") ≡ true)
      × (jwt_decode token ≡ some claims)
      × (claims.sub ≡ p.subject)
      × (claims.workspace_id ≡ some p.workspace_id)
      × (claims.brand_ids ≡ some p.brand_ids)
      × (claims.scopes ≡ some p.scopes)
unfolding authenticate
authenticate-some utf8 jwt_decode [] h = ground arith
authenticate-some utf8 jwt_decode (scheme ∷ []) h = ground arith
authenticate-some utf8 jwt_decode (scheme ∷ token ∷ []) {p} h = elim (Option-cases (utf8 scheme)) [
  | inl e ↦ ground arith
  | inr (s, e) ↦ elim (Bool-cases (same_text (lower s) (codes "bearer"))) [
    | inr other ↦ ground arith
    | inl bearer ↦
        let (claims, decoded, made) = credential-some jwt_decode token {p = p} (ground arith) in
        (
          scheme,
          s,
          token,
          claims,
          refl,
          e,
          bearer,
          decoded,
          ground arith,
          ground arith,
          ground arith,
          ground arith,
        )
  ]
]
authenticate-some utf8 jwt_decode (scheme ∷ token ∷ x ∷ rest) h = ground arith
