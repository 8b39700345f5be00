-- ===== src/Commands/Writes.antt =====
-- What the commands that set up a workspace write:
-- relay/api/management/commands/issue_draft_ingest_token.py and
-- relay/tenancy/management/commands/provision_content_workspace.py.
use aleyacloud_relay.Base.{
  ℕ, ◌+◌, Bool, String, List, [], ◌∷◌, Option, none, some, ◌≡◌, refl, ◌∙◌, ap, arith, inl, inr, ℤ,
  Option-cases,
}
use aleyacloud_relay.Store.{Db, Result, ok, raise}
use aleyacloud_relay.Commands.Issue.{
  Purpose, TokenPayload, JwtSettings, get_or_create_membership, issue_to_member, reactivate,
  issue_token,
}
use aleyacloud_relay.Commands.Provision.{
  brand_option, save_workspace, save_brand, save_owner, then_run, save_brands, save_owner_option,
  provision,
}

-- Workspaces, brands and memberships may have been written, and nothing else.
abbrev pub WritesTenancy : (db after : Db) → Type 0
WritesTenancy db after =
    after
    ≡ record db { tenants = after.tenants; brands = after.brands; memberships = after.memberships }

WritesTenancy-trans : (a b c : Db) → WritesTenancy a b → WritesTenancy b c → WritesTenancy a c
WritesTenancy-trans a b c e f =
    f
    ∙ ap
        (λ (x : Db). record x {
          tenants = c.tenants;
          brands = c.brands;
          memberships = c.memberships;
        })
        e

then_run-WritesTenancy :
    {A B : Type 0} (f : A → Db → Result B × Db) (db : Db) (r : Result A × Db)
    → WritesTenancy db r.1
    → ((a : A) (x : Db) → WritesTenancy x (f a x).1)
    → WritesTenancy db (then_run f r).1
then_run-WritesTenancy f db (ok a, x) e g = WritesTenancy-trans db x (f a x).1 e (g a x)
then_run-WritesTenancy f db (raise x, y) e g = e

pub issue_token-WritesTenancy :
    (jwt_encode : TokenPayload → List ℕ) (settings : JwtSettings)
    (workspace_slug brand_slug subject : String) (days : ℤ) (purpose : Purpose) (new_id now jti : ℕ)
    (db : Db)
    → WritesTenancy db
        (issue_token jwt_encode settings workspace_slug brand_slug subject days purpose new_id now
          jti db).1
unfolding issue_token get_or_create_membership issue_to_member reactivate
issue_token-WritesTenancy jwt_encode settings workspace_slug brand_slug subject days purpose new_id
      now jti db =
    ground arith

save_workspace-WritesTenancy :
    (slug name : String) (new_id : ℕ) (db : Db)
    → WritesTenancy db (save_workspace slug name new_id db).1
unfolding save_workspace
save_workspace-WritesTenancy slug name new_id db = ground arith

save_brand-WritesTenancy :
    (workspace : ℕ) (slug name : String) (new_id : ℕ) (db : Db)
    → WritesTenancy db (save_brand workspace slug name new_id db).1
unfolding save_brand
save_brand-WritesTenancy workspace slug name new_id db = ground arith

save_brands-WritesTenancy :
    (isspace : ℕ → Bool) (workspace : ℕ) (raws : List String) (new_ids : ℕ → ℕ) (db : Db)
    → WritesTenancy db (save_brands isspace workspace raws new_ids db).1
unfolding save_brands
save_brands-WritesTenancy isspace workspace [] new_ids db = refl
save_brands-WritesTenancy isspace workspace (raw ∷ raws) new_ids db =
    elim (Option-cases (brand_option isspace raw)) [
      | inl bad ↦ ground arith
      | inr ((slug, name), good) ↦
          let rest = save_brands isspace workspace raws (λ n. new_ids (n + 1)) in
          rw (good, save_brands)
            (then_run-WritesTenancy (λ _. rest) db (save_brand workspace slug name (new_ids 0) db)
              (save_brand-WritesTenancy workspace slug name (new_ids 0) db)
              (λ a x. save_brands-WritesTenancy isspace workspace raws (λ n. new_ids (n + 1)) x))
    ]

owner-WritesTenancy :
    (isspace : ℕ → Bool) (workspace : ℕ) (owner_of : String → Option String)
    (username : Option String) (new_id : ℕ) (db : Db)
    → WritesTenancy db (save_owner_option isspace workspace owner_of username new_id db).1
unfolding save_owner_option save_owner
owner-WritesTenancy isspace workspace owner_of none new_id db = refl
owner-WritesTenancy isspace workspace owner_of (some username) new_id db = ground arith

pub provision-WritesTenancy :
    (isspace : ℕ → Bool) (owner_of : String → Option String)
    (workspace_slug workspace_name : String) (brands : List String) (owner_username : Option String)
    (workspace_id membership_id : ℕ) (brand_ids : ℕ → ℕ) (db : Db)
    → WritesTenancy db
        (provision isspace owner_of workspace_slug workspace_name brands owner_username workspace_id
          membership_id brand_ids db).1
unfolding provision
provision-WritesTenancy isspace owner_of workspace_slug workspace_name brands owner_username
      workspace_id membership_id brand_ids db =
    then_run-WritesTenancy _ db (save_workspace workspace_slug workspace_name workspace_id db)
      (save_workspace-WritesTenancy workspace_slug workspace_name workspace_id db)
      (λ t x.
        then_run-WritesTenancy _ x (save_brands isspace t.id brands brand_ids x)
          (save_brands-WritesTenancy isspace t.id brands brand_ids x)
          (λ a y. owner-WritesTenancy isspace t.id owner_of owner_username membership_id y))
