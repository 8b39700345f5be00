-- ===== src/Commands/Provisioned.antt =====
-- What relay/tenancy/management/commands/provision_content_workspace.py leaves.
use aleyacloud_relay.Base.{
  ℕ, ◌+◌, ◌≤◌, Bool, true, ◌&&◌, String, str_eq, List, [], ◌∷◌, Option, none, some, ◌≡◌, refl, sym,
  ◌⊎◌, ◌∙◌, subst, arith, inl, inr, ◌==◌, find, exists, count, save, Option-cases, Bool-cases,
  find_sound, find-save, find-exists_at, exists-find, exists-save, count-save_keys, count_missing,
  eq_refl, eq_iff,
}
use aleyacloud_relay.Models.Tenancy.{Tenant, Brand, Membership, MembershipRole}
use aleyacloud_relay.Store.{Db, Result, ok, raise}
use aleyacloud_relay.Commands.Issue.{is_membership, membership_id}
use aleyacloud_relay.Commands.Provision.{
  brand_option, save_workspace, save_brand, save_owner, has_slug, then_run, save_brands,
  save_owner_option, provision,
}

abbrev pub HasUniqueBrands : List Brand → Type 0
HasUniqueBrands rows = (j : ℕ) → count (λ (b : Brand). b.id == j) rows ≤ 1

abbrev pub is_open : (workspace : ℕ) (slug : String) → Brand → Bool
is_open workspace slug b = has_slug workspace slug b && b.is_active

abbrev brand_id : Brand → ℕ
brand_id b = b.id

-- A brand that is there and active stays so, and so does the uniqueness of the ids.
abbrev Opens : (workspace : ℕ) (before after : List Brand) → Type 0
Opens workspace before after =
    HasUniqueBrands after
    × ((slug : String)
        → exists (is_open workspace slug) before ≡ true
        → exists (is_open workspace slug) after ≡ true)

save_brand-Opens :
    (workspace : ℕ) (slug name : String) (new_id : ℕ) (db after : Db)
    → HasUniqueBrands db.brands
    → save_brand workspace slug name new_id db ≡ (ok tt, after)
    → Opens workspace db.brands after.brands
      × (exists (is_open workspace slug) after.brands ≡ true)
      × (after.tenants ≡ db.tenants)
unfolding save_brand exists find count
save_brand-Opens workspace slug name new_id db after once h =
    elim (Option-cases (find (has_slug workspace slug) db.brands)) [
      | inr (b, hit) ↦
          let row : Brand = record b { name = name; is_active = true } in
          let saved : after.brands ≡ save brand_id row db.brands = ground arith in
          let own : has_slug workspace slug b ≡ true =
            find_sound (has_slug workspace slug) b db.brands hit in
          (
            (
              rw saved (λ j. omega (arith, once j, count-save_keys brand_id j row db.brands)),
              rw saved (λ s there.
                  exists-save brand_id (is_open workspace s) (has_slug workspace slug) b row
                    db.brands refl (once b.id) hit (λ e. ground arith) there),
            ),
            rw saved (
                find-exists_at (is_open workspace slug) (has_slug workspace slug) row
                  (save brand_id row db.brands)
                  (find-save (has_slug workspace slug) brand_id b row db.brands refl (ground arith)
                    hit)
                  (ground arith)),
            ground arith,
          )
      | inl miss ↦
          let row : Brand = record {
            id = new_id;
            workspace = workspace;
            slug = slug;
            name = name;
            timezone = "UTC";
            is_active = true;
          } in
          let added : after.brands ≡ row ∷ db.brands = ground arith in
          let free : find (λ (b : Brand). b.id == new_id) db.brands ≡ none =
            exists-find (λ (b : Brand). b.id == new_id) (λ (b : Brand). b.id == new_id) db.brands
              (λ b e. e) (ground arith) in
          (
            (
              rw added (λ j. ground (arith, once j, count_missing brand_id new_id db.brands free)),
              rw added (λ s there. ground arith),
            ),
            rw added (ground (arith, eq_refl slug)),
            ground arith,
          )
    ]

-- Each option names a brand that is there and active.
abbrev pub Provided : (isspace : ℕ → Bool) (workspace : ℕ) → List Brand → List String → Type 0
Provided isspace workspace rows [] = Unit {0}
Provided isspace workspace rows (raw ∷ raws) =
    ((slug : String) × (name : String) × (brand_option isspace raw ≡ some (slug, name))
      × (exists (is_open workspace slug) rows ≡ true))
    × Provided isspace workspace rows raws

-- A step that returned has left rows that the next one ran on.
then_run-ok :
    {A B : Type 0} (f : A → Db → Result B × Db) (r : Result A × Db) {b : B} {after : Db}
    → then_run f r ≡ (ok b, after)
    → (a : A) × (mid : Db) × (r ≡ (ok a, mid)) × (f a mid ≡ (ok b, after))
then_run-ok f (ok a, mid) h = (a, mid, refl, h)
then_run-ok f (raise e, mid) h = ground arith

module _ (isspace : ℕ → Bool) (workspace : ℕ) where
  -- The loop from a good option on.
  loop_from :
      (raw : String) (raws : List String) (new_ids : ℕ → ℕ) (db after : Db) {slug name : String}
      → brand_option isspace raw ≡ some (slug, name)
      → save_brands isspace workspace (raw ∷ raws) new_ids db ≡ (ok tt, after)
      → then_run
          (λ _. save_brands isspace workspace raws (λ n. new_ids (n + 1)))
          (save_brand workspace slug name (new_ids 0) db)
        ≡ (ok tt, after)
  unfolding save_brands
  loop_from raw raws new_ids db after good h = ground arith

  save_brands-Provided :
      (raws : List String) (new_ids : ℕ → ℕ) (db after : Db)
      → HasUniqueBrands db.brands
      → save_brands isspace workspace raws new_ids db ≡ (ok tt, after)
      → Opens workspace db.brands after.brands
        × Provided isspace workspace after.brands raws
        × (after.tenants ≡ db.tenants)
  unfolding save_brands
  save_brands-Provided [] new_ids db after once h =
      let same : db ≡ after = ground arith in rw (← same) ((once, λ s there. there), tt, refl)
  save_brands-Provided (raw ∷ raws) new_ids db after once h =
      elim (Option-cases (brand_option isspace raw)) [
        | inl bad ↦ ground arith
        | inr ((slug, name), good) ↦
            let (u, mid, first, rest) =
              then_run-ok (λ _. save_brands isspace workspace raws (λ n. new_ids (n + 1)))
                (save_brand workspace slug name (new_ids 0) db) {b = tt} {after = after}
                (loop_from raw raws new_ids db after good h) in
            let ((once', keeps), open_lem, tenants) =
              save_brand-Opens workspace slug name (new_ids 0) db mid once first in
            let ((once'', keeps'), others, tenants') =
              save_brands-Provided raws (λ n. new_ids (n + 1)) mid after once' rest in
            (
              (once'', λ s there. keeps' s (keeps s there)),
              ((slug, name, good, keeps' slug open_lem), others),
              tenants' ∙ tenants,
            )
      ]

save_workspace-find :
    (slug name : String) (new_id : ℕ) (db after : Db) (t : Tenant)
    → save_workspace slug name new_id db ≡ (ok t, after)
    → (find (λ (t : Tenant). str_eq t.slug slug) after.tenants ≡ some t)
      × (t.name ≡ name)
      × (t.is_active ≡ true)
      × (after.brands ≡ db.brands)
unfolding save_workspace find
save_workspace-find slug name new_id db after t h =
    elim (Option-cases (find (λ (t : Tenant). str_eq t.slug slug) db.tenants)) [
      | inr (old, hit) ↦
          let row : Tenant = record old { name = name; is_active = true } in
          let own = find_sound (λ (t : Tenant). str_eq t.slug slug) old db.tenants hit in
          let stored =
            find-save (λ (t : Tenant). str_eq t.slug slug) (λ (t : Tenant). t.id) old row db.tenants
              refl (ground arith) hit in
          let same : row ≡ t = ground arith in
          let saved : after.tenants ≡ save (λ (t : Tenant). t.id) row db.tenants = ground arith in
          rw (← same) (rw saved (stored, refl, refl, ground arith))
      | inl miss ↦
          let row : Tenant = record { id = new_id; slug = slug; name = name; is_active = true } in
          let same : row ≡ t = ground arith in
          let added : after.tenants ≡ row ∷ db.tenants = ground arith in
          rw (← same) (rw added (ground (arith, eq_refl slug), refl, refl, ground arith))
    ]

abbrev pub Owns : (workspace : ℕ) → Db → (subject : String) → Type 0
Owns workspace db subject =
    (m : Membership) × (find (is_membership workspace subject) db.memberships ≡ some m)
    × (m.role ≡ MembershipRole.owner)
    × (m.is_active ≡ true)

save_owner-Owns :
    (workspace : ℕ) (subject : String) (new_id : ℕ) (db after : Db)
    → save_owner workspace subject new_id db ≡ (ok tt, after)
    → Owns workspace after subject × (after.tenants ≡ db.tenants) × (after.brands ≡ db.brands)
unfolding save_owner find
save_owner-Owns workspace subject new_id db after h =
    elim (Option-cases (find (is_membership workspace subject) db.memberships)) [
      | inr (old, hit) ↦
          let row : Membership = record old { role = MembershipRole.owner; is_active = true } in
          let own = find_sound (is_membership workspace subject) old db.memberships hit in
          let stored =
            find-save (is_membership workspace subject) membership_id old row db.memberships refl
              (ground arith) hit in
          ((row, ground arith, refl, refl), ground arith, ground arith)
      | inl miss ↦
          let row : Membership = record {
            id = new_id;
            workspace = workspace;
            subject = subject;
            role = MembershipRole.owner;
            is_active = true;
          } in
          ((row, ground (arith, eq_refl subject), refl, refl), ground arith, ground arith)
    ]

-- What the command leaves for `--owner-username`.
abbrev pub OwnsOption :
    (owner_of : String → Option String) (workspace : ℕ) → Db → Option String → Type 0
OwnsOption owner_of workspace db none = Unit {0}
OwnsOption owner_of workspace db (some username) =
    (username ≡ "")
    ⊎ ((subject : String) × (owner_of username ≡ some subject) × Owns workspace db subject)

owner-OwnsOption :
    (isspace : ℕ → Bool) (workspace : ℕ) (owner_of : String → Option String)
    (username : Option String) (new_id : ℕ) (db after : Db)
    → save_owner_option isspace workspace owner_of username new_id db ≡ (ok tt, after)
    → OwnsOption owner_of workspace after username
      × (after.tenants ≡ db.tenants)
      × (after.brands ≡ db.brands)
unfolding save_owner_option
owner-OwnsOption isspace workspace owner_of none new_id db after h =
    (tt, ground arith, ground arith)
owner-OwnsOption isspace workspace owner_of (some username) new_id db after h =
    elim (Bool-cases (str_eq username "")) [
      | inl blank ↦ (inl ((eq_iff username "").0 blank), ground arith, ground arith)
      | inr given ↦ elim (Option-cases (owner_of username)) [
        | inl missing ↦ ground arith
        | inr (subject, known) ↦
            let (owns, tenants, brands) =
              save_owner-Owns workspace subject new_id db after (ground arith) in
            (inr (subject, known, owns), tenants, brands)
      ]
    ]

-- Where the ids of the brands are their own, a run of the command that ends without an error leaves the
-- workspace under its slug, active and with its name; an active brand of it for each `--brand` option, which
-- has a slug and a name; and, where a user is named as owner, an active OWNER membership of that user.
pub provision-Provided :
    (isspace : ℕ → Bool) (owner_of : String → Option String)
    (workspace_slug workspace_name : String) (brands : List String) (owner_username : Option String)
    (workspace_id membership_id : ℕ) (brand_ids : ℕ → ℕ) (db after : Db)
    → HasUniqueBrands db.brands
    → provision isspace owner_of workspace_slug workspace_name brands owner_username workspace_id
        membership_id brand_ids db
      ≡ (ok tt, after)
    → (t : Tenant) × (find (λ (t : Tenant). str_eq t.slug workspace_slug) after.tenants ≡ some t)
      × (t.name ≡ workspace_name)
      × (t.is_active ≡ true)
      × Provided isspace t.id after.brands brands
      × OwnsOption owner_of t.id after owner_username
unfolding provision
provision-Provided isspace owner_of workspace_slug workspace_name brands owner_username workspace_id
      membership_id brand_ids db after once h =
    let (t, one, saved, rest) =
      then_run-ok _ (save_workspace workspace_slug workspace_name workspace_id db) {b = tt}
        {after = after} h in
    let (u, two, looped, owned) =
      then_run-ok _ (save_brands isspace t.id brands brand_ids one) {b = tt} {after = after} rest in
    let (found, named, active, same) =
      save_workspace-find workspace_slug workspace_name workspace_id db one t saved in
    let before : HasUniqueBrands one.brands = subst HasUniqueBrands (sym same) once in
    let (opens, provided, tenants) =
      save_brands-Provided isspace t.id brands brand_ids one two before looped in
    let (owns, tenants', brands') =
      owner-OwnsOption isspace t.id owner_of owner_username membership_id two after owned in
    (t, rw (tenants', tenants) found, named, active, rw brands' provided, owns)
