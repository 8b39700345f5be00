-- ===== src/Delivery/Exclusion.antt =====
-- No two workers hold one publication at a time, and none is delivered twice.
use aleyacloud_relay.Base.{
  ℕ, zero, suc, ◌+◌, ◌≤◌, ◌<◌, Bool, true, false, String, List, [], ◌∷◌, Option, none, some, ◌≡◌,
  refl, ◌≢◌, inl, inr, ap, ◌∙◌, arith, ◌==◌, if◌then◌else◌, find, count, Bool-cases, find_sound,
  find-save_other, find-save_key, find-weaken, exists-find, ◌||◌,
}
use aleyacloud_relay.Models.Publications.{Publication, PublicationAttempt}
use aleyacloud_relay.Store.{Db, Result, ok, raise}
use aleyacloud_relay.Posts.{Payload, request_fingerprint}
use aleyacloud_relay.Scheduling.{
  ScheduleRequest, schedule_entries, has_publication_key, new_publication, schedule_publication,
}
use aleyacloud_relay.Scheduling.Idempotency.{schedule-Ends}
use aleyacloud_relay.Delivery.{
  is_due, claim, publication_id, Delivered, done, transient, permanent, uncaught, Run, settle,
}
use aleyacloud_relay.Delivery.Claim.{
  claim-Claimed, is_waiting, claim_not_waiting, claim_nothing, claim_waiting,
}
use aleyacloud_relay.Delivery.Workers.{
  World, idle, Event, holds, release, take_hold, note_delivery, step, run,
}
use aleyacloud_relay.Delivery.Saves.{
  is_row, Saves, Saves-other, Saves-row, Saves-done, may_wait, settle-Saves,
}

-- How often the publication is in a worker's hands.
unfoldable pub held : ℕ → List (ℕ × ℕ) → ℕ
held id [] = 0
held id ((p, a) ∷ rest) = let n = held id rest in if p == id then suc n else n

abbrev pub times : ℕ → List ℕ → ℕ
times id ids = count (λ x. x == id) ids

-- A publication is held or delivered at most once in all, and then it waits for no worker.
abbrev pub IsSafe : ℕ → ℕ → List Publication → Type 0
IsSafe id n publications =
    (n ≤ 1)
    × (0 < n → (find (is_waiting id) publications ≡ none) × (find (is_row id) publications ≢ none))

abbrev pub IsExclusive : ℕ → World → Type 0
IsExclusive id w = IsSafe id (held id w.inflight + times id w.delivered) w.db.publications

held-release :
    (id p a : ℕ) (xs : List (ℕ × ℕ))
    → holds xs p a ≡ true
    → (held id xs ≡ held id (release xs p a) + (if p == id then 1 else 0))
unfolding held release holds
held-release id p a [] h = ground arith
held-release id p a ((q, b) ∷ xs) h = ground (arith, held-release id p a xs)

held-release_le : (id p a : ℕ) (xs : List (ℕ × ℕ)) → held id (release xs p a) ≤ held id xs
unfolding held release
held-release_le id p a [] = omega arith
held-release_le id p a ((q, b) ∷ xs) = ground (arith, held-release_le id p a xs)

hold-IsSafe :
    (id n m : ℕ) (before after : List Publication)
    → IsSafe id n before
    → find (is_waiting id) before ≢ none
    → m ≡ suc n
    → find (is_waiting id) after ≡ none
    → find (is_row id) after ≢ none
    → IsSafe id m after
hold-IsSafe id zero m before after v waits e quiet row = (omega arith, λ _. (quiet, row))
hold-IsSafe id (suc n) m before after v waits e quiet row = absurd (waits (v.1 (omega arith)).0)

keep-IsSafe :
    (id n m : ℕ) (before after : List Publication)
    → IsSafe id n before
    → m ≤ n
    → (0 < m → find (is_waiting id) before ≡ none → find (is_waiting id) after ≡ none)
    → (find (is_row id) before ≢ none → find (is_row id) after ≢ none)
    → IsSafe id m after
keep-IsSafe id n m before after v less quiet row =
    (omega arith, λ pos. (quiet pos (v.1 (omega arith)).0, row (v.1 (omega arith)).1))

claims-IsExclusive :
    (id now new_id j : ℕ) (w : World)
    → IsExclusive j w
    → (r : Result (Option (Publication × PublicationAttempt))) → (claim id now new_id w.db).0 ≡ r
    → IsSafe j
        (held j (take_hold w.inflight r) + times j w.delivered)
        (claim id now new_id w.db).1.publications
unfolding take_hold held
claims-IsExclusive id now new_id j w v (raise e) h =
    rw (claim_nothing id now new_id w.db (λ p a k. cc)) v
claims-IsExclusive id now new_id j w v (ok none) h =
    rw (claim_nothing id now new_id w.db (λ p a k. cc)) v
claims-IsExclusive id now new_id j w v (ok (some (p, a))) h =
    let (old, (found, e, e', _, after)) = claim-Claimed id now new_id w.db h in
    let due = find_sound (is_due id now) old w.db.publications found in
    let pubs = ap (λ (x : Db). x.publications) after in
    let waiting = claim_waiting id now new_id w.db h in
    let quiet = claim_not_waiting id now new_id w.db h in
    let row : find (is_row id) w.db.publications ≢ none = (λ f.
      waiting
        (find-weaken (is_waiting id) (is_row id) w.db.publications (λ x k. ground arith) f)) in
    elim (Bool-cases (j == id)) [
      | inl here ↦
          let same : j ≡ id = ground arith in
          rw same (
            hold-IsSafe id (held id w.inflight + times id w.delivered) _ w.db.publications
              (claim id now new_id w.db).1.publications (rw (← same) v) waiting (ground arith) quiet
              (rw pubs (find-save_key publication_id id p w.db.publications row)))
      | inr away ↦
          keep-IsSafe j (held j w.inflight + times j w.delivered) _ w.db.publications
            (claim id now new_id w.db).1.publications v (ground arith)
            (λ _ q.
              rw
                (
                  pubs,
                  find-save_other (is_waiting j) publication_id p w.db.publications
                      (λ x k. ground arith),
                )
                q)
            (λ q. rw pubs (find-save_key publication_id j p w.db.publications q))
    ]

-- A publication that is still held or delivered after an outcome does not wait.
settles_quiet :
    (j p n : ℕ) (waits : Bool) (b a : Db)
    → Saves waits p b a
    → (waits ≡ true → j ≡ p → n ≡ 0)
    → 0 < n
    → find (is_waiting j) b.publications ≡ none
    → find (is_waiting j) a.publications ≡ none
settles_quiet j p n false b a saves free pos quiet = Saves-done p j b a saves quiet
settles_quiet j p n true b a saves free pos quiet = elim (Bool-cases (j == p)) [
  | inl here ↦ absurd (ground (arith, free refl))
  | inr away ↦ Saves-other true p j b a saves (λ e. ground arith) ∙ quiet
]

-- What is held and delivered after an outcome.
abbrev after_outcome : (j p a : ℕ) → Delivered String → World → ℕ
after_outcome j p a o w = held j (release w.inflight p a) + times j (note_delivery p o w.delivered)

after_outcome-le :
    (j p a : ℕ) (o : Delivered String) (w : World)
    → holds w.inflight p a ≡ true
    → (after_outcome j p a o w ≤ held j w.inflight + times j w.delivered)
      × (may_wait o ≡ true
          → j ≡ p
          → after_outcome j p a o w + 1 ≡ held j w.inflight + times j w.delivered)
unfolding count
after_outcome-le j p a (done x) w h = (ground (arith, held-release j p a w.inflight h), λ e. cc)
after_outcome-le j p a (transient e) w h = (
  ground (arith, held-release j p a w.inflight h),
  λ _ e. ground (arith, held-release j p a w.inflight h),
)
after_outcome-le j p a (permanent e) w h = (
  ground (arith, held-release j p a w.inflight h),
  λ _ e. ground (arith, held-release j p a w.inflight h),
)
after_outcome-le j p a (uncaught e) w h = (ground (arith, held-release j p a w.inflight h), λ e. cc)

settles-IsExclusive :
    (m j : ℕ) (run : Run) (p a : ℕ) (o : Delivered String) (w : World)
    → IsExclusive j w
    → holds w.inflight p a ≡ true
    → IsSafe j (after_outcome j p a o w) (settle m run p a o w.db).1.publications
settles-IsExclusive m j run p a o w v h =
    let saves = settle-Saves m run p a o w.db in
    let (less, free) = after_outcome-le j p a o w h in
    let after : Db = (settle m run p a o w.db).1 in
    keep-IsSafe j (held j w.inflight + times j w.delivered) (after_outcome j p a o w)
      w.db.publications after.publications v less
      (settles_quiet j p (after_outcome j p a o w) (may_wait o) w.db after saves
        (λ waits here. omega (arith, free waits here, v.0)))
      (Saves-row (may_wait o) p j w.db after saves)

schedules-IsExclusive :
    (sha256 : Payload → ℕ) (q : ScheduleRequest) (id j n : ℕ) (db : Db)
    → IsSafe j n db.publications
    → IsSafe j n (schedule_publication sha256 q id (λ x. x) db).1.publications
unfolding find
schedules-IsExclusive sha256 q id j n db v =
    let p : Publication = new_publication (request_fingerprint sha256 (schedule_entries q)) q id in
    elim (schedule-Ends sha256 q id (λ x. x) db) [
      | inl (existing, found, e) ↦
          let same : (schedule_publication sha256 q id (λ x. x) db).1 ≡ db = ground (arith, e) in
          rw same v
      | inr (missing, inl (x, e)) ↦ rw e v
      | inr (missing, inr (fits, fresh, e)) ↦ rw e (
        v.0,
        λ pos.
            let known = v.1 pos in
            let apart : (id == j) ≡ false = elim (Bool-cases (id == j)) [
              | inr away ↦ away
              | inl here ↦ absurd (
                  known.1 (
                    exists-find
                      (λ (x : Publication).
                        x.id == id || has_publication_key q.tenant q.idempotency_key x)
                      (is_row j) db.publications (λ x k. ground arith) fresh))
            ] in
            (ground (arith, known.0, apart), λ f. known.1 (ground (arith, apart))),
      )
    ]

pub idle-IsExclusive : (db : Db) (j : ℕ) → IsExclusive j (idle db)
unfolding held count
idle-IsExclusive db j = (omega arith, λ pos. absurd (omega arith))

module _ (sha256 : Payload → ℕ) (max_attempts : ℕ) where
  pub step-IsExclusive :
      (j : ℕ) (w : World) (e : Event)
      → IsExclusive j w
      → IsExclusive j (step sha256 max_attempts w e)
  unfolding step
  step-IsExclusive j w (Event.claims id now new_id) v =
      claims-IsExclusive id now new_id j w v _ refl
  step-IsExclusive j w (Event.settles run p a o) v = elim (Bool-cases (holds w.inflight p a)) [
    | inl held_now ↦ rw (held_now, step) (settles-IsExclusive max_attempts j run p a o w v held_now)
    | inr free ↦ rw (free, step) v
  ]
  step-IsExclusive j w (Event.crashes p a) v =
      keep-IsSafe j (held j w.inflight + times j w.delivered) _ w.db.publications w.db.publications
        v (omega (arith, held-release_le j p a w.inflight)) (λ _ q. q) (λ q. q)
  step-IsExclusive j w (Event.schedules q id) v =
      schedules-IsExclusive sha256 q id j (held j w.inflight + times j w.delivered) w.db v

  run-IsExclusive :
      (j : ℕ) (w : World) (es : List Event)
      → IsExclusive j w
      → IsExclusive j (run sha256 max_attempts w es)
  unfolding run
  run-IsExclusive j w [] v = v
  run-IsExclusive j w (e ∷ es) v =
      run-IsExclusive j (step sha256 max_attempts w e) es (step-IsExclusive j w e v)

  -- Whatever the order in which any number of workers claim, settle and crash while publications
  -- are scheduled: from a database in which no worker is at work, each publication is at any time
  -- held by at most one worker, a worker has come back with the provider's identifier for it at most
  -- once, and none has done so while another holds it.
  pub delivered_at_most_once :
      (db : Db) (es : List Event) (j : ℕ)
      → let w = run sha256 max_attempts (idle db) es in held j w.inflight + times j w.delivered ≤ 1
  delivered_at_most_once db es j = (run-IsExclusive j (idle db) es (idle-IsExclusive db j)).0
