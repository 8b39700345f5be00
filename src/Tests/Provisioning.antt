-- ===== src/Tests/Provisioning.antt =====
-- A run of relay/tenancy/management/commands/provision_content_workspace.py.
use aleyacloud_relay.Base.{
  ℕ, ◌+◌, Bool, true, String, str_eq, List, [], ◌∷◌, Option, some, ◌≡◌, refl, arith, ◌==◌, find,
  exists, count, save,
}
use aleyacloud_relay.Models.Tenancy.{Tenant}
use aleyacloud_relay.Store.{Db, Result, ok}
use aleyacloud_relay.Commands.Provision.{
  split_colon, lstrip_text, rstrip_text, strip_text, brand_option, save_workspace, save_brand,
  save_owner, save_brands, save_owner_option, provision,
}
use aleyacloud_relay.Commands.Provisioned.{
  HasUniqueBrands, Provided, OwnsOption, provision-Provided,
}
use aleyacloud_relay.Tests.{start_db}

abbrev is_space : ℕ → Bool
is_space c = c == 32

abbrev options : List String
options = "north: North " ∷ "south:South" ∷ "north:Nord" ∷ []

abbrev subject_of_name : String → Option String
subject_of_name name = some "user:7"

abbrev provisioned : Result (Unit {0}) × Db
provisioned =
    provision is_space subject_of_name "studio" "Studio" options (some "ana") 2 3 (λ n. 20 + n)
      start_db

provisioned_lem : provisioned ≡ (ok tt, provisioned.1)
unfolding provision save_workspace save_brands save_brand save_owner_option save_owner brand_option
    split_colon strip_text lstrip_text rstrip_text find exists save
provisioned_lem = refl

start_brands : HasUniqueBrands start_db.brands
unfolding count
start_brands j = ground arith

provision-Provided_example :
    (t : Tenant) × (find (λ (t : Tenant). str_eq t.slug "studio") provisioned.1.tenants ≡ some t)
    × (t.name ≡ "Studio")
    × (t.is_active ≡ true)
    × Provided is_space t.id provisioned.1.brands options
    × OwnsOption subject_of_name t.id provisioned.1 (some "ana")
provision-Provided_example =
    provision-Provided is_space subject_of_name "studio" "Studio" options (some "ana") 2 3
      (λ n. 20 + n) start_db provisioned.1 start_brands provisioned_lem
