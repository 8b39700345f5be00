-- ===== src/Views/Panel/Summary.antt =====
-- `PanelSummaryView` of relay/api/views.py. The day of a publication's creation, in the local time of the
-- server and counted in days, is a function of its id, as is the time of its last update.
pub mod Activity
use aleyacloud_relay.Base.{
  ℕ, suc, ◌+◌, ◌-◌, Bool, true, false, not, ◌&&◌, String, str_eq, List, [], ◌∷◌, map, Option, none,
  some, leb, ◌==◌, if◌then◌else◌, find, select, count, elem, sort_by,
}
use aleyacloud_relay.Models.Lifecycle.{LifecycleState, is_scheduled}
use aleyacloud_relay.Models.Content.{Post, PostVariant}
use aleyacloud_relay.Models.Social.{Channel, SocialAccount, ChannelConnection}
use aleyacloud_relay.Models.Publications.{Publication}
use aleyacloud_relay.Store.{Db}
use aleyacloud_relay.Access.{RelayPrincipal, get_tenant}
use aleyacloud_relay.Delivery.Dispatch.{take}
use aleyacloud_relay.Views.{Answer, account_of, post_of, ◌>>=◌}
use aleyacloud_relay.Views.Data.{Timestamps}
use aleyacloud_relay.Views.Listing.{answer_query, reads, with_account}

abbrev pub is_published : LifecycleState → Bool
is_published LifecycleState.published = true
is_published _ = false

abbrev pub is_failed : LifecycleState → Bool
is_failed LifecycleState.failed = true
is_failed _ = false

-- `.values("day").annotate(count=Count("id"))`: one more publication of a day.
unfoldable pub add_day : ℕ → List (ℕ × ℕ) → List (ℕ × ℕ)
add_day day [] = (day, 1) ∷ []
add_day day ((d, n) ∷ rest) = if d == day then (d, suc n) ∷ rest else (d, n) ∷ add_day day rest

-- `activity_by_day` for the days of the publications.
unfoldable pub group_days : List ℕ → List (ℕ × ℕ)
group_days [] = []
group_days (day ∷ days) = add_day day (group_days days)

-- `activity_by_day.get(day, 0)`
unfoldable pub get_day : ℕ → List (ℕ × ℕ) → ℕ
get_day day [] = 0
get_day day ((d, n) ∷ rest) = if d == day then n else get_day day rest

-- `range(7)`
abbrev pub week : List ℕ
week = 0 ∷ 1 ∷ 2 ∷ 3 ∷ 4 ∷ 5 ∷ 6 ∷ []

module _ (created_day : ℕ → ℕ) where
  abbrev pub day_of : Publication → ℕ
  day_of p = created_day p.id

  -- `activity`: each day from `start` on with its count.
  unfoldable pub activity : (start : ℕ) → List Publication → List (ℕ × ℕ)
  activity start publications =
      let by_day =
        group_days (map day_of (select (λ (p : Publication). leb start (day_of p)) publications)) in
      map (λ (offset : ℕ). (start + offset, get_day (start + offset) by_day)) week

pub record RecentPublication : Type 0 where
  pub id : ℕ
  pub title : String
  pub state : LifecycleState
  pub scheduled_for : ℕ
  pub channel : Channel
  pub account : String

pub record Summary : Type 0 where
  pub published : ℕ
  pub scheduled : ℕ
  pub failed : ℕ
  pub connections : ℕ
  pub activity : List (ℕ × ℕ)
  pub recent_publications : List RecentPublication

-- `publication.post_variant.post.title or publication.post_variant.body[:80]`
abbrev pub title_of : (prefix : String → String) → Post → PostVariant → String
title_of prefix post v = if str_eq post.title "" then prefix v.body else post.title

-- `select_related`: the rows of a publication's variant, post and connection.
unfoldable pub recent_of :
    (prefix : String → String) → Db → List Publication → List RecentPublication
recent_of prefix db [] = []
recent_of prefix db (p ∷ ps) =
    let rest = recent_of prefix db ps in
    elim (find (λ (v : PostVariant). v.id == p.post_variant) db.variants >>= λ v.
    post_of v db >>= λ post.
    find (λ (c : ChannelConnection). c.id == p.channel_connection) db.connections >>= λ c.
    some (record {
      id = p.id;
      title = title_of prefix post v;
      state = p.state;
      scheduled_for = p.scheduled_for;
      channel = c.channel;
      account = c.display_name;
    })) [ none ↦ rest | some r ↦ r ∷ rest ]

abbrev pub is_own : RelayPrincipal → (tenant : ℕ) → Publication → Bool
is_own p tenant x = x.tenant == tenant && elem x.brand p.brand_ids

abbrev pub is_own_connection :
    RelayPrincipal → (tenant : ℕ) → ChannelConnection × SocialAccount → Bool
is_own_connection p tenant (c, a) = a.tenant == tenant && (elem a.brand p.brand_ids && c.is_active)

-- `PanelSummaryView.get`; `prefix` is `[:80]`.
unfoldable pub show_summary :
    (prefix : String → String)
    → Timestamps
    → (created_day : ℕ → ℕ) (today : ℕ) → RelayPrincipal
    → Db
    → Answer Summary
show_summary prefix times created_day today p db = answer_query (reads "posts:read") p db (
    get_tenant p db >>= λ tenant.
    let publications : List Publication = select (is_own p tenant.id) db.publications in
    some (record {
      published = count (λ (x : Publication). is_published x.state) publications;
      scheduled = count (λ (x : Publication). is_scheduled x.state) publications;
      failed = count (λ (x : Publication). is_failed x.state) publications;
      connections = count (is_own_connection p tenant.id) (with_account db db.connections);
      activity = activity created_day (today - 6) publications;
      recent_publications = recent_of prefix db (
          take 8 (
            sort_by (λ (x y : Publication). leb (times.updated_at y.id) (times.updated_at x.id))
              publications));
    }))
