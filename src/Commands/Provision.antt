-- ===== src/Commands/Provision.antt =====
-- relay/tenancy/management/commands/provision_content_workspace.py: a workspace with its brands and its
-- owner. Each query commits on its own. `isspace` is Python's, `owner_of` gives the panel subject of the
-- Django user with a name, and `new_ids` an id for each row that may be new. The texts fit their columns.
use Prim.Native.Char.{code}
use aleyacloud_relay.Base.{
  ℕ, ◌+◌, Bool, true, ◌&&◌, ◌||◌, String, str_eq, List, [], ◌∷◌, Option, none, some, ◌==◌,
  if◌then◌else◌, find, exists, save,
}
use aleyacloud_relay.Models.Tenancy.{Tenant, Brand, Membership, MembershipRole}
use aleyacloud_relay.Store.{Db, Result, ok, raise, command_error, integrity_error}
use aleyacloud_relay.Commands.Issue.{is_membership, membership_id}

-- `raw_brand.split(":", maxsplit=1)`; none where there is no colon.
unfoldable pub split_colon : String → Option (String × String)
split_colon String.[] = none
split_colon (String.◌∷◌ c s) =
    let rest = split_colon s in
    if code c == b':'
    then some ("", s)
    else elim rest [ none ↦ none | some (slug, name) ↦ some (String.◌∷◌ c slug, name) ]

module _ (isspace : ℕ → Bool) where
  unfoldable pub lstrip_text : String → String
  lstrip_text String.[] = ""
  lstrip_text (String.◌∷◌ c s) = if isspace (code c) then lstrip_text s else String.◌∷◌ c s

  unfoldable pub rstrip_text : String → String
  rstrip_text String.[] = ""
  rstrip_text (String.◌∷◌ c s) =
      let rest = rstrip_text s in
      if isspace (code c) && str_eq rest "" then "" else String.◌∷◌ c rest

  unfoldable pub strip_text : String → String
  strip_text s = rstrip_text (lstrip_text s)

  -- The slug and the name of a `--brand` option; none is a CommandError.
  unfoldable pub brand_option : String → Option (String × String)
  brand_option raw = elim (split_colon raw) [
    | none ↦ none
    | some (slug, name) ↦
        if str_eq (strip_text slug) "" || str_eq (strip_text name) ""
        then none
        else some (strip_text slug, strip_text name)
  ]

-- `Tenant.objects.update_or_create`
unfoldable pub save_workspace : (slug name : String) (new_id : ℕ) → Db → Result Tenant × Db
save_workspace slug name new_id db = elim (find (λ (t : Tenant). str_eq t.slug slug) db.tenants) [
  | some t ↦
      let t' : Tenant = record t { name = name; is_active = true } in
      (ok t', record db { tenants = save (λ (x : Tenant). x.id) t' db.tenants })
  | none ↦
      let t' : Tenant = record { id = new_id; slug = slug; name = name; is_active = true } in
      if exists (λ (x : Tenant). x.id == new_id) db.tenants
      then (raise integrity_error, db)
      else (ok t', record db { tenants = t' ∷ db.tenants })
]

abbrev pub has_slug : (workspace : ℕ) (slug : String) → Brand → Bool
has_slug workspace slug b = b.workspace == workspace && str_eq b.slug slug

-- `Brand.objects.update_or_create`; a new brand has the default time zone.
unfoldable pub save_brand :
    (workspace : ℕ) (slug name : String) (new_id : ℕ) → Db → Result (Unit {0}) × Db
save_brand workspace slug name new_id db = elim (find (has_slug workspace slug) db.brands) [
  | some b ↦ (
    ok tt,
    record db {
      brands = save (λ (x : Brand). x.id) (record b { name = name; is_active = true }) db.brands;
    },
  )
  | none ↦
      let b : Brand = record {
        id = new_id;
        workspace = workspace;
        slug = slug;
        name = name;
        timezone = "UTC";
        is_active = true;
      } in
      if exists (λ (x : Brand). x.id == new_id) db.brands
      then (raise integrity_error, db)
      else (ok tt, record db { brands = b ∷ db.brands })
]

-- `Membership.objects.update_or_create` for the owner.
unfoldable pub save_owner :
    (workspace : ℕ) (subject : String) (new_id : ℕ) → Db → Result (Unit {0}) × Db
save_owner workspace subject new_id db =
    elim (find (is_membership workspace subject) db.memberships) [
      | some m ↦ (
        ok tt,
        record db {
          memberships =
              save membership_id (record m { role = MembershipRole.owner; is_active = true })
                db.memberships;
        },
      )
      | none ↦
          let m : Membership = record {
            id = new_id;
            workspace = workspace;
            subject = subject;
            role = MembershipRole.owner;
            is_active = true;
          } in
          if exists (λ (x : Membership). x.id == new_id) db.memberships
          then (raise integrity_error, db)
          else (ok tt, record db { memberships = m ∷ db.memberships })
    ]

-- What runs after a step that returned, on the rows that it left.
abbrev pub then_run : {A B : Type 0} → (A → Db → Result B × Db) → Result A × Db → Result B × Db
then_run f (ok a, db) = f a db
then_run f (raise e, db) = (raise e, db)

module _ (isspace : ℕ → Bool) (workspace : ℕ) where
  -- The loop over the `--brand` options: a bad one ends the command, and the brands before it stay.
  unfoldable pub save_brands : List String → (new_ids : ℕ → ℕ) → Db → Result (Unit {0}) × Db
  save_brands [] new_ids db = (ok tt, db)
  save_brands (raw ∷ raws) new_ids db = elim (brand_option isspace raw) [
    | none ↦ (raise command_error, db)
    | some (slug, name) ↦
        then_run (λ _. save_brands raws (λ n. new_ids (n + 1)))
          (save_brand workspace slug name (new_ids 0) db)
  ]

  -- `--owner-username`, if it is given and not empty.
  unfoldable pub save_owner_option :
      (owner_of : String → Option String)
      → Option String
      → (new_id : ℕ) → Db
      → Result (Unit {0}) × Db
  save_owner_option owner_of none new_id db = (ok tt, db)
  save_owner_option owner_of (some username) new_id db =
      if str_eq username "" then (ok tt, db) else elim (owner_of username) [
        | none ↦ (raise command_error, db)
        | some subject ↦ save_owner workspace subject new_id db
      ]

-- `Command.handle`
unfoldable pub provision :
    (isspace : ℕ → Bool) (owner_of : String → Option String)
    (workspace_slug workspace_name : String) (brands : List String) (owner_username : Option String)
    (workspace_id membership_id : ℕ) (brand_ids : ℕ → ℕ)
    → Db
    → Result (Unit {0}) × Db
provision isspace owner_of workspace_slug workspace_name brands owner_username workspace_id
      membership_id brand_ids db =
    then_run
      (λ (t : Tenant) db'.
        then_run (λ _. save_owner_option isspace t.id owner_of owner_username membership_id)
          (save_brands isspace t.id brands brand_ids db'))
      (save_workspace workspace_slug workspace_name workspace_id db)
