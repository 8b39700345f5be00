-- ===== src/Views/Panel.antt =====
-- relay/api/views.py: the session of the panel. Django's users, `authenticate`, `login` and `logout` are
-- arguments, as are `panel_subject` and what the authentication of REST framework leaves in
-- `request._request.user`. The ids of a request are UUIDs. A request comes with the principal
-- of its authentication, if any, and with the session that the authentication leaves.
pub mod Summary
pub mod Switching
use aleyacloud_relay.Base.{
  ℕ, Bool, true, false, not, ◌&&◌, String, str_eq, List, [], ◌∷◌, map, Option, none, some, ◌==◌,
  if◌then◌else◌, find, select, exists, elem, sort_by,
}
use Prim.Native.Nat.{Ordering}
use Prim.Native.String.{compare}
use aleyacloud_relay.Models.Tenancy.{Tenant, Brand, Membership, MembershipRole}
use aleyacloud_relay.Store.{
  Db, Error, Result, ok, raise, does_not_exist, not_authenticated, authentication_failed,
  attribute_error,
}
use aleyacloud_relay.Access.{RelayPrincipal, is_member, panel_principal}
use aleyacloud_relay.Views.{Answer, reply, refused, crashed}
use aleyacloud_relay.Views.Data.{first}

pub record User : Type 0 where
  pub id : ℕ
  pub username : String
  pub full_name : String
  pub is_active : Bool

-- `request._request.user`: a user of Django, or the principal.
pub data RequestUser : Type 0 where
  django : User → RequestUser
  principal : RelayPrincipal → RequestUser

-- `get_username` and `get_full_name`, which RelayPrincipal does not have.
abbrev pub user_of : RequestUser → Result User
user_of (django u) = ok u
user_of (principal p) = raise attribute_error

-- `_auth_user_id`, `relay_workspace_id` and `relay_brand_id`.
pub record Session : Type 0 where
  pub auth_user_id : Option ℕ
  pub relay_workspace_id : Option ℕ
  pub relay_brand_id : Option ℕ

pub record WorkspaceData : Type 0 where
  pub id : ℕ
  pub name : String
  pub brands : List (ℕ × String)

pub record Context : Type 0 where
  pub username : String
  pub display_name : String
  pub workspace : ℕ × String
  pub workspaces : List WorkspaceData
  pub selected_brand_id : Option ℕ
  pub role : MembershipRole
  pub scopes : List String
  pub brands : List Brand

-- A text that does not come after another.
abbrev pub text_le : String → String → Bool
text_le s t = elim (compare s t) [ Ordering.gt ↦ false | _ ↦ true ]

-- `order_by("name")`
abbrev pub by_name : List Brand → List Brand
by_name = sort_by (λ (b c : Brand). text_le b.name c.name)

-- The active brand of the session, or the first.
abbrev pub active_brand : Option ℕ → List Brand → Option Brand
active_brand none brands = first brands
active_brand (some id) brands = elim (find (λ (b : Brand). b.id == id) brands) [
  | none ↦ first brands
  | some b ↦ some b
]

-- `relay_brand_id` after the choice: written where the session's brand is not among the brands.
abbrev pub chosen_brand : Option ℕ → List Brand → Option ℕ
chosen_brand selected brands = elim (active_brand selected brands) [
  | none ↦ selected
  | some b ↦ some b.id
]

abbrev pub brand_id : Option Brand → Option ℕ
brand_id none = none
brand_id (some b) = some b.id

-- `workspace=workspace, subject=principal.subject, is_active=True`
abbrev pub is_member_of : (workspace : ℕ) (subject : String) → Membership → Bool
is_member_of workspace subject m =
    m.workspace == workspace && (str_eq m.subject subject && m.is_active)

-- The query of `workspaces`.
unfoldable pub own_workspaces : (subject : String) → Db → List WorkspaceData
own_workspaces subject db =
    map
      (λ (t : Tenant). record {
        id = t.id;
        name = t.name;
        brands =
            map (λ (b : Brand). (b.id, b.name))
              (by_name (select (λ (b : Brand). b.workspace == t.id && b.is_active) db.brands));
      })
      (sort_by (λ (t u : Tenant). text_le t.name u.name)
        (select (λ (t : Tenant). t.is_active && exists (is_member_of t.id subject) db.memberships)
          db.tenants))

-- `user.get_full_name() or user.get_username()`
abbrev pub display_name : User → String
display_name u = if str_eq u.full_name "" then u.username else u.full_name

module _ (users : List User) (panel_subject : ℕ → String) where
  -- The user that the session names.
  unfoldable pub session_user : Session → Result User
  session_user s = elim s.auth_user_id [
    | none ↦ raise not_authenticated
    | some id ↦ elim (find (λ (u : User). u.id == id) users) [
      | none ↦ raise not_authenticated
      | some u ↦ ok u
    ]
  ]

  -- `panel_context` after the user is known. `request_user` is `request._request.user`.
  unfoldable pub context_of :
      (request_user : RequestUser) → User → Session → Db → Result Context × Session
  context_of request_user user s db =
      let subject : String = panel_subject user.id in
      elim (panel_principal subject s.relay_workspace_id db) [
        | raise e ↦ (raise e, s)
        | ok (p, workspace_id) ↦
            let s' : Session = record s { relay_workspace_id = some workspace_id } in
            elim (find (λ (t : Tenant). t.id == p.workspace_id && t.is_active) db.tenants) [
              | none ↦ (raise does_not_exist, s')
              | some workspace ↦ elim (find (is_member_of workspace.id p.subject) db.memberships) [
                | none ↦ (raise does_not_exist, s')
                | some membership ↦
                    let brands : List Brand =
                      by_name (select (λ (b : Brand). elem b.id p.brand_ids) db.brands) in
                    let s'' : Session = record s' {
                      relay_brand_id = chosen_brand s.relay_brand_id brands;
                    } in
                    elim (user_of request_user) [
                      | raise e ↦ (raise e, s'')
                      | ok u ↦ (
                        ok (record {
                          username = u.username;
                          display_name = display_name u;
                          workspace = (workspace.id, workspace.name);
                          workspaces = own_workspaces p.subject db;
                          selected_brand_id = brand_id (active_brand s.relay_brand_id brands);
                          role = membership.role;
                          scopes = sort_by text_le p.scopes;
                          brands = brands;
                        }),
                        s'',
                      )
                    ]
              ]
            ]
      ]

  -- `panel_context`, with the user that the caller gives, if any.
  unfoldable pub panel_context :
      (request_user : RequestUser) (user : Option User) → Session → Db → Result Context × Session
  panel_context request_user none s db = elim (session_user s) [
    | raise e ↦ (raise e, s)
    | ok u ↦ context_of request_user u s db
  ]
  panel_context request_user (some u) s db = context_of request_user u s db

  -- The exceptions of REST framework become a response; a session is not saved with a crash.
  unfoldable pub answer_context : Session → Result Context × Session → Answer Context × Session
  answer_context before (ok c, s) = (reply 200 c, s)
  answer_context before (raise e, s) = elim e [
    | not_authenticated ↦ (refused 403, s)
    | authentication_failed ↦ (refused 403, s)
    | other ↦ (crashed other, before)
  ]

  -- `PanelMeView.get`. Without a principal, IsAuthenticated of the settings refuses.
  unfoldable pub show_me :
      (authenticated_user : RelayPrincipal → RequestUser)
      → Option RelayPrincipal
      → Session
      → Db
      → Answer Context × Session
  show_me authenticated_user none s db = (refused 403, s)
  show_me authenticated_user (some p) s db =
      answer_context s (panel_context (authenticated_user p) none s db)

  module _ (login : User → Session → Session) (logout : Session → Session) where
    -- What `PanelLoginView.post` makes of the context: a user without a workspace is logged out again.
    unfoldable pub logged_in : Result Context × Session → Session → Answer Context × Session
    logged_in (ok c, s) before = (reply 200 c, s)
    logged_in (raise e, s) before = elim e [
      | authentication_failed ↦ (refused 403, logout s)
      | not_authenticated ↦ (refused 403, s)
      | other ↦ (crashed other, before)
    ]

    -- `PanelLoginView.post`, where `found` is what `authenticate` makes of the credentials.
    unfoldable pub log_in : (found : Option User) → Session → Db → Answer Context × Session
    log_in none s db = (refused 403, s)
    log_in (some u) s db =
        if not u.is_active
        then (refused 403, s)
        else logged_in (panel_context (django u) (some u) (login u s) db) s

    -- `PanelLogoutView.post`
    unfoldable pub log_out : Option RelayPrincipal → Session → Answer (Unit {0}) × Session
    log_out none s = (refused 403, s)
    log_out (some p) s = (reply 204 tt, logout s)

  -- The memberships that `PanelWorkspaceView.post` takes a workspace from.
  abbrev pub may_enter : (workspace_id : ℕ) (subject : String) → Db → Membership → Bool
  may_enter workspace_id subject db m =
      is_member_of workspace_id subject m
      && exists (λ (t : Tenant). t.id == m.workspace && t.is_active) db.tenants

  abbrev pub has_brand : (workspace : ℕ) → Option ℕ → Db → Bool
  has_brand workspace none db = true
  has_brand workspace (some id) db =
      exists (λ (b : Brand). b.id == id && (b.workspace == workspace && b.is_active)) db.brands

  -- `PanelWorkspaceView.post`
  unfoldable pub switch_workspace :
      (authenticated_user : RelayPrincipal → RequestUser)
      → Option RelayPrincipal
      → (workspace_id brand_id : Option ℕ) → Session
      → Db
      → Answer Context × Session
  switch_workspace authenticated_user none workspace_id brand s db = (refused 403, s)
  switch_workspace authenticated_user (some p) none brand s db = (refused 400, s)
  switch_workspace authenticated_user (some p) (some workspace_id) brand s db =
      elim (find (may_enter workspace_id p.subject db) db.memberships) [
        | none ↦ (refused 404, s)
        | some m ↦
            if not (has_brand m.workspace brand db)
            then (refused 404, s)
            else answer_context s (
                panel_context (authenticated_user p) none
                  (record s { relay_workspace_id = some m.workspace; relay_brand_id = brand }) db)
      ]
