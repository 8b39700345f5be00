-- ===== src/Tests/Viewing.antt =====
-- Runs of the handlers that read, of the panel, and of the command that issues tokens, on the test data.
use aleyacloud_relay.Base.{
  ℕ, ◌+◌, ◌-◌, true, ◌&&◌, String, List, [], ◌∷◌, map, Option, none, some, ◌≡◌, refl, arith, ltb,
  ◌==◌, if◌then◌else◌, find, count, exists, select, codes, any, elem, pos, insert_by, sort_by,
}
use aleyacloud_relay.Models.Lifecycle.{LifecycleState}
use aleyacloud_relay.Models.Tenancy.{Tenant, Brand, MembershipRole}
use aleyacloud_relay.Models.Social.{Channel, ChannelConnection}
use aleyacloud_relay.Models.Publications.{Publication}
use aleyacloud_relay.Store.{Db, ok, attribute_error}
use aleyacloud_relay.Access.{
  role_scopes, panel_principal, chosen_membership, first_by_name, RelayPrincipal, has_text,
  has_permission, get_tenant,
}
use aleyacloud_relay.Access.Credentials.{authenticate}
use aleyacloud_relay.Commands.{is_active_brand}
use aleyacloud_relay.Commands.Issue.{
  Purpose, JwtSettings, get_or_create_membership, reactivate, purpose_scopes, token_payload,
  issue_to_member, issue_token, new_membership,
}
use aleyacloud_relay.Commands.Issued.{issued_principal, writers, issue_token-authenticate}
use aleyacloud_relay.Views.{Answer, reply, crashed}
use aleyacloud_relay.Views.Data.{Timestamps}
use aleyacloud_relay.Views.Listing.{list_connections}
use aleyacloud_relay.Views.Listing.Secrets.{replace_tokens, list_connections-replace_tokens}
use aleyacloud_relay.Views.Panel.{
  User, RequestUser, django, Session, Context, session_user, context_of, panel_context,
  answer_context, own_workspaces, switch_workspace,
}
use aleyacloud_relay.Views.Panel.Summary.{
  Summary, RecentPublication, week, group_days, add_day, get_day, activity, recent_of, show_summary,
}
use aleyacloud_relay.Views.Panel.Summary.Activity.{created_on, show_summary-activity}
use aleyacloud_relay.Views.Listing.{with_account}
use aleyacloud_relay.Delivery.Dispatch.{take}
use aleyacloud_relay.Tests.Tokens.{plain_jwt, plain_jwt-IsJwt}
use aleyacloud_relay.Tests.{brand, start_db}

abbrev times : Timestamps
times = record { created_at = λ id. id; updated_at = λ id. id }

abbrev principal : RelayPrincipal
principal = record {
  subject = "ana";
  workspace_id = 1;
  brand_ids = 10 ∷ [];
  scopes = "connections:read" ∷ "posts:read" ∷ [];
}

abbrev erase : ChannelConnection → String
erase c = ""

list_connections-replace_tokens_example :
    list_connections times principal (some (some 10)) (replace_tokens erase start_db)
    ≡ list_connections times principal (some (some 10)) start_db
list_connections-replace_tokens_example =
    list_connections-replace_tokens erase times principal (some (some 10)) start_db

abbrev user : User
user = record { id = 1; username = "ana"; full_name = "Ana"; is_active = true }

abbrev session : Session
session = record { auth_user_id = some 1; relay_workspace_id = some 1; relay_brand_id = none }

abbrev context : Context
context = record {
  username = "ana";
  display_name = "Ana";
  workspace = (1, "Aleya");
  workspaces = [];
  selected_brand_id = some 10;
  role = MembershipRole.manager;
  scopes = [];
  brands = brand ∷ [];
}

abbrev subject_of : ℕ → String
subject_of id = "ana"

abbrev as_user : RelayPrincipal → RequestUser
as_user p = django user

abbrev switched : Answer Context
switched =
    (switch_workspace (user ∷ []) subject_of as_user (some principal) (some 1) (some 10) session
      start_db).0

abbrev context_in : Answer Context → Context
context_in (reply status c) = c
context_in other = context

-- With the principal in the place of the user, the name is missing.
nameless :
    (switch_workspace
      (user ∷ [])
      subject_of
      (λ p. RequestUser.principal p)
      (some principal)
      (some 1)
      (some 10)
      session
      start_db).0
    ≡ crashed attribute_error
unfolding switch_workspace panel_context session_user context_of answer_context own_workspaces
    panel_principal chosen_membership first_by_name role_scopes find select exists elem sort_by
    insert_by
nameless = refl

abbrev publication_in : (id : ℕ) → LifecycleState → Publication
publication_in id state = record {
  id = id;
  tenant = 1;
  brand = 10;
  post_variant = 300;
  channel_connection = 400;
  scheduled_for = 50;
  state = state;
  idempotency_key = "";
  request_fingerprint = 7;
  provider_publication_id = "";
  last_error_code = "";
  last_error_message = "";
}

-- Three publications, of the days 20, 20 and 14, and one of an earlier day.
abbrev busy_db : Db
busy_db = record start_db {
  publications =
      publication_in 220 LifecycleState.published
      ∷ publication_in 120 LifecycleState.failed
      ∷ publication_in 114 LifecycleState.published
      ∷ publication_in 113 LifecycleState.scheduled
      ∷ [];
}

abbrev created_day : ℕ → ℕ
created_day id = if ltb id 200 then id - 100 else id - 200

abbrev cut : String → String
cut s = s

abbrev recent : (id : ℕ) → LifecycleState → RecentPublication
recent id state = record {
  id = id;
  title = "Hello";
  state = state;
  scheduled_for = 50;
  channel = Channel.meta_facebook_page;
  account = "Page";
}

abbrev busy_summary : Summary
busy_summary = record {
  published = 2;
  scheduled = 1;
  failed = 1;
  connections = 1;
  activity = (14, 1) ∷ (15, 0) ∷ (16, 0) ∷ (17, 0) ∷ (18, 0) ∷ (19, 0) ∷ (20, 2) ∷ [];
  recent_publications =
      recent 220 LifecycleState.published
      ∷ recent 120 LifecycleState.failed
      ∷ recent 114 LifecycleState.published
      ∷ recent 113 LifecycleState.scheduled
      ∷ [];
}

summarised : show_summary cut times created_day 20 principal busy_db ≡ reply 200 busy_summary
unfolding show_summary has_permission get_tenant find count select exists any elem activity
    group_days add_day get_day recent_of with_account sort_by insert_by take
summarised = refl

show_summary-activity_example :
    (t : Tenant) × (find (λ (t : Tenant). t.id == 1 && t.is_active) busy_db.tenants ≡ some t)
    × (busy_summary.activity
        ≡ map
            (λ (offset : ℕ).
              (20 - 6 + offset, created_on created_day principal busy_db (20 - 6 + offset)))
            week)
show_summary-activity_example =
    show_summary-activity cut times created_day 20 principal busy_db {status = 200}
      {s = busy_summary} summarised

abbrev jwt_settings : JwtSettings
jwt_settings = record { issuer = "relay"; audience = "api" }

abbrev task : String
task = "task:ingest"

abbrev issued_db : Db
issued_db = record start_db { memberships = new_membership 1 task 21 ∷ start_db.memberships }

abbrev issued_token : List ℕ
issued_token =
    plain_jwt.encode (token_payload jwt_settings brand task Purpose.schedule (pos 14) 1000 7)

abbrev ascii : List ℕ → Option (List ℕ)
ascii s = some s

issued :
    issue_token plain_jwt.encode jwt_settings "aleya" "cafe" task
      (pos 14)
      Purpose.schedule
      21
      1000
      7
      start_db
    ≡ (ok issued_token, issued_db)
unfolding issue_token get_or_create_membership issue_to_member reactivate find exists
issued = refl

issue_token-authenticate_example :
    (b : Brand) × (find (is_active_brand "aleya" "cafe" start_db) start_db.brands ≡ some b)
    × (authenticate ascii (plain_jwt.decode "relay" "api" 2000) (codes "Bearer" ∷ issued_token ∷ [])
        ≡ ok (some (issued_principal b task Purpose.schedule)))
    × ((scope : String)
        → has_permission
            (record { required_scope = some scope; required_roles = some writers })
            (some (issued_principal b task Purpose.schedule))
            issued_db
          ≡ has_text scope (purpose_scopes Purpose.schedule))
issue_token-authenticate_example =
    issue_token-authenticate plain_jwt plain_jwt-IsJwt ascii jwt_settings "aleya" "cafe" task
      (pos 14) Purpose.schedule 21 1000 7 2000 start_db {token = issued_token} {after = issued_db}
      issued (omega arith) (omega arith) refl
