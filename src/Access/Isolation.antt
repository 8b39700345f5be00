-- ===== src/Access/Isolation.antt =====
-- What a principal of relay/api/authentication.py can reach.
use aleyacloud_relay.Base.{
  ℕ, Bool, true, ◌&&◌, String, eq_iff, List, [], ◌∷◌, Option, none, some, ◌≡◌, refl, ◌⊎◌, inl, inr,
  arith, ◌==◌, find, select, elem, find_sound, find-select, Option-cases, Bool-cases, All,
}
use Prim.Native.String.{compare}
use Prim.Native.Nat.{Ordering}
use aleyacloud_relay.Models.Tenancy.{Tenant, Brand, Membership}
use aleyacloud_relay.Store.{Db, ok}
use aleyacloud_relay.Access.{
  RelayPrincipal, role_scopes, is_member, workspace_of, name_of, first_by_name, chosen_membership,
  active_brand_ids, panel_principal, get_tenant, get_brand,
}

Ordering-cases : (o : Ordering) → (o ≡ Ordering.gt) ⊎ ((o ≡ Ordering.eq) ⊎ (o ≡ Ordering.lt))
Ordering-cases Ordering.gt = inl refl
Ordering-cases Ordering.eq = inr (inl refl)
Ordering-cases Ordering.lt = inr (inr refl)

select-All : (p : Membership → Bool) (ms : List Membership) → All (λ m. p m ≡ true) (select p ms)
unfolding select
select-All p [] = tt
select-All p (m ∷ ms) = elim (Bool-cases (p m)) [
  | inl e ↦ rw (e, select) (e, select-All p ms)
  | inr e ↦ rw (e, select) (select-All p ms)
]

first_by_name-All :
    (db : Db) (p : Membership → Bool) (ms : List Membership) {m : Membership}
    → All (λ x. p x ≡ true) ms
    → first_by_name db ms ≡ some m
    → p m ≡ true
unfolding first_by_name
first_by_name-All db p [] all e = cc
first_by_name-All db p (x ∷ ms) {m} all e = elim (Option-cases (first_by_name db ms)) [
  | inl last ↦ let same : x ≡ m = ground arith in rw (← same) all.0
  | inr (n, later) ↦
      let ih = first_by_name-All db p ms all.1 later in
      elim (Ordering-cases (compare (name_of (workspace_of x db)) (name_of (workspace_of n db)))) [
        | inl e' ↦ let same : n ≡ m = ground arith in rw (← same) ih
        | inr (inl e') ↦ let same : x ≡ m = ground arith in rw (← same) all.0
        | inr (inr e') ↦ let same : x ≡ m = ground arith in rw (← same) all.0
      ]
]

-- The membership that a panel user gets is an active one of that user, whatever the session asks.
chosen_membership-is_member :
    (subject : String) (requested : Option ℕ) (db : Db) {m : Membership}
    → chosen_membership subject requested db ≡ some m
    → is_member subject m ≡ true
unfolding chosen_membership
chosen_membership-is_member subject none db e =
    first_by_name-All db (is_member subject) _ (select-All (is_member subject) db.memberships) e
chosen_membership-is_member subject (some id) db {m} e =
    elim (Option-cases
      (find (λ (x : Membership). x.workspace == id) (select (is_member subject) db.memberships))) [
        | inl missing ↦
            first_by_name-All db (is_member subject) (select (is_member subject) db.memberships)
              {m = m} (select-All (is_member subject) db.memberships) (ground arith)
        | inr (n, found) ↦
            let same : n ≡ m = ground arith in
            rw (← same) (
              find-select (is_member subject) (λ (x : Membership). x.workspace == id) n
                db.memberships found)
      ]

-- The principal that `panel_principal` gives a panel user, where it gives one: the workspace stored
-- under its id, which is active and in which that user is an active member, its active brands, and the scopes of the user's role there. The session only chooses among those workspaces,
-- and remembers the one that was taken.
pub panel_principal_isolated :
    (subject : String) (requested : Option ℕ) (db : Db) {p : RelayPrincipal} {session : ℕ}
    → panel_principal subject requested db ≡ ok (p, session)
    → (m : Membership) × (t : Tenant) × ((chosen_membership subject requested db ≡ some m)
        × (m.subject ≡ subject)
        × (m.is_active ≡ true)
        × (m.workspace ≡ p.workspace_id)
        × (find (λ (x : Tenant). x.id == p.workspace_id) db.tenants ≡ some t)
        × (t.id ≡ p.workspace_id)
        × (t.is_active ≡ true)
        × (p.subject ≡ subject)
        × (p.scopes ≡ role_scopes m.role)
        × (p.brand_ids ≡ active_brand_ids p.workspace_id db)
        × (session ≡ p.workspace_id))
unfolding panel_principal
panel_principal_isolated subject requested db {p} {session} e =
    elim (Option-cases (chosen_membership subject requested db)) [
      | inl missing ↦ ground arith
      | inr (m, chosen) ↦ elim (Option-cases (workspace_of m db)) [
        | inl missing ↦ ground arith
        | inr (t, found) ↦
            let member = chosen_membership-is_member subject requested db chosen in
            (
              m,
              t,
              ground (
                arith,
                eq_iff m.subject subject,
                find_sound (λ (x : Tenant). x.id == m.workspace) t db.tenants found,
              ),
            )
      ]
    ]

-- A brand that `get_brand` hands over is an active one of the principal's active workspace, among
-- those that the principal may use.
pub get_brand_isolated :
    (p : RelayPrincipal) (id : ℕ) (db : Db) {b : Brand}
    → get_brand p id db ≡ some b
    → (b.id ≡ id)
      × (b.workspace ≡ p.workspace_id)
      × (b.is_active ≡ true)
      × (elem b.id p.brand_ids ≡ true)
      × ((t : Tenant) × (get_tenant p db ≡ some t) × (t.id ≡ p.workspace_id) × (t.is_active ≡ true))
unfolding get_brand get_tenant
get_brand_isolated p id db {b} e =
    elim (Option-cases (find (λ (t : Tenant). t.id == p.workspace_id && t.is_active) db.tenants)) [
      | inl missing ↦ ground arith
      | inr (t, found) ↦
          let ours =
            find_sound (λ (x : Tenant). x.id == p.workspace_id && x.is_active) t db.tenants found in
          let allowed : elem id p.brand_ids ≡ true = ground arith in
          let hit : find (λ (x : Brand). x.id == id && (x.workspace == t.id && x.is_active))
                db.brands
              ≡ some b =
            ground arith in
          let fits =
            find_sound (λ (x : Brand). x.id == id && (x.workspace == t.id && x.is_active)) b
              db.brands hit in
          let same : b.id ≡ id = ground arith in
          (
            same,
            ground arith,
            ground arith,
            rw same allowed,
            (t, found, ground arith, ground arith),
          )
    ]
