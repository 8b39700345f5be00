-- ===== src/Views/Panel/Summary/Activity.antt =====
-- The activity of `PanelSummaryView` in relay/api/views.py against a direct count.
use aleyacloud_relay.Base.{
  ℕ, suc, ◌+◌, ◌-◌, ◌≤◌, Bool, ◌&&◌, inl, inr, find, find_sound, some, String, sym, ◌∙◌,
  Option-cases, List, [], ◌∷◌, map, ◌≡◌, refl, arith, leb, ◌==◌, if◌then◌else◌, select, count,
}
use aleyacloud_relay.Models.Tenancy.{Tenant}
use aleyacloud_relay.Store.{Db}
use aleyacloud_relay.Access.{RelayPrincipal, get_tenant}
use aleyacloud_relay.Views.{reply}
use aleyacloud_relay.Views.Data.{Timestamps}
use aleyacloud_relay.Models.Publications.{Publication}
use aleyacloud_relay.Views.Panel.Summary.{
  add_day, group_days, get_day, week, day_of, activity, Summary, is_own, show_summary,
}

get_day-add_day :
    (day d : ℕ) (groups : List (ℕ × ℕ))
    → get_day d (add_day day groups)
      ≡ (if day == d then suc (get_day d groups) else get_day d groups)
unfolding add_day get_day
get_day-add_day day d [] = ground arith
get_day-add_day day d ((e, n) ∷ rest) = ground (arith, get_day-add_day day d rest)

module _ (created_day : ℕ → ℕ) (start : ℕ) where
  abbrev is_recent : Publication → Bool
  is_recent p = leb start (day_of created_day p)

  get_day-group_days :
      (d : ℕ) (ps : List Publication)
      → start ≤ d
      → get_day d (group_days (map (day_of created_day) (select is_recent ps)))
        ≡ count (λ (p : Publication). day_of created_day p == d) ps
  unfolding group_days get_day count select
  get_day-group_days d [] h = refl
  get_day-group_days d (p ∷ ps) h = ground (
    arith,
    get_day-group_days d ps h,
    get_day-add_day (day_of created_day p) d
        (group_days (map (day_of created_day) (select is_recent ps))),
  )

  -- The activity is a direct count for each of the seven days.
  activity-count :
      (ps : List Publication)
      → activity created_day start ps
        ≡ map
            (λ (offset : ℕ).
              (start + offset, count (λ (p : Publication). created_day p.id == start + offset) ps))
            week
  unfolding activity
  activity-count ps =
      let day = λ (offset : ℕ). get_day-group_days (start + offset) ps (omega arith) in
      rw (day 0, day 1, day 2, day 3, day 4, day 5, day 6) refl

count-select :
    (p q : Publication → Bool) (xs : List Publication)
    → count q (select p xs) ≡ count (λ (x : Publication). p x && q x) xs
unfolding count select
count-select p q [] = refl
count-select p q (x ∷ xs) = ground (arith, count-select p q xs)

-- How many publications of the principal's workspace and brands were created on a day.
abbrev pub created_on : (created_day : ℕ → ℕ) → RelayPrincipal → Db → ℕ → ℕ
created_on created_day p db day =
    count (λ (x : Publication). is_own p p.workspace_id x && created_day x.id == day)
      db.publications

summary_activity :
    (created_day : ℕ → ℕ) (start : ℕ) (p : RelayPrincipal) (db : Db)
    → activity created_day start (select (is_own p p.workspace_id) db.publications)
      ≡ map (λ (offset : ℕ). (start + offset, created_on created_day p db (start + offset))) week
summary_activity created_day start p db =
    let own = select (is_own p p.workspace_id) db.publications in
    let direct = λ (offset : ℕ).
      count-select (is_own p p.workspace_id)
        (λ (x : Publication). created_day x.id == start + offset) db.publications in
    activity-count created_day start own
    ∙ rw (direct 0, direct 1, direct 2, direct 3, direct 4, direct 5, direct 6) refl

-- A summary that the panel gets counts, for each of the seven days that end today, the publications of the
-- principal's workspace and brands that were created that day: neither the grouping by day nor the cut at
-- the first day loses or adds one. It is given to a principal with an active workspace only.
pub show_summary-activity :
    (prefix : String → String) (times : Timestamps) (created_day : ℕ → ℕ) (today : ℕ)
    (p : RelayPrincipal) (db : Db) {status : ℕ} {s : Summary}
    → show_summary prefix times created_day today p db ≡ reply status s
    → (t : Tenant) × (find (λ (t : Tenant). t.id == p.workspace_id && t.is_active) db.tenants
        ≡ some t)
      × (s.activity
          ≡ map
              (λ (offset : ℕ).
                (today - 6 + offset, created_on created_day p db (today - 6 + offset)))
              week)
unfolding show_summary get_tenant
show_summary-activity prefix times created_day today p db {status} {s} h =
    elim (Option-cases (find (λ (t : Tenant). t.id == p.workspace_id && t.is_active) db.tenants)) [
      | inl missing ↦ ground arith
      | inr (t, found) ↦
          let id_lem : t.id ≡ p.workspace_id = ground (
            arith,
            find_sound (λ (t : Tenant). t.id == p.workspace_id && t.is_active) t db.tenants found,
          ) in
          let own : activity created_day (today - 6) (select (is_own p t.id) db.publications)
              ≡ s.activity =
            ground arith in
          (t, found, sym own ∙ (rw id_lem (summary_activity created_day (today - 6) p db)))
    ]
