-- ===== src/Delivery/Workers.antt =====
-- Any number of Celery workers that run `publish_due_publication` at once, beside the API that
-- schedules publications. A worker is between its two transactions while its pair of a publication
-- and an attempt is in flight; the transactions are the steps that interleave.
use aleyacloud_relay.Base.{
  ℕ, String, Bool, true, false, ◌&&◌, List, [], ◌∷◌, Option, none, some, ◌==◌, if◌then◌else◌,
}
use aleyacloud_relay.Models.Publications.{Publication, PublicationAttempt}
use aleyacloud_relay.Store.{Db, Result, ok, raise}
use aleyacloud_relay.Posts.{Payload}
use aleyacloud_relay.Scheduling.{ScheduleRequest, schedule_publication}
use aleyacloud_relay.Delivery.{Delivered, done, transient, permanent, uncaught, Run, claim, settle}

pub record World : Type 0 where
  pub db : Db
  -- the publications and attempts that a worker holds
  pub inflight : List (ℕ × ℕ)
  -- the publications for which the provider has answered with an identifier, once for each answer
  pub delivered : List ℕ

-- No worker is at work.
abbrev pub idle : Db → World
idle db = record { db = db; inflight = []; delivered = [] }

pub data Event : Type 0 where
  -- a worker starts on a publication
  claims : (id now new_id : ℕ) → Event
  -- a worker that holds the pair comes back from the provider
  settles : Run → (publication attempt : ℕ) → Delivered String → Event
  -- a worker that holds the pair dies
  crashes : (publication attempt : ℕ) → Event
  -- the API schedules a publication
  schedules : ScheduleRequest → (publication_id : ℕ) → Event

unfoldable pub holds : List (ℕ × ℕ) → ℕ → ℕ → Bool
holds [] p a = false
holds ((q, b) ∷ rest) p a = if q == p && b == a then true else holds rest p a

unfoldable pub release : List (ℕ × ℕ) → ℕ → ℕ → List (ℕ × ℕ)
release [] p a = []
release ((q, b) ∷ rest) p a = if q == p && b == a then rest else (q, b) ∷ release rest p a

unfoldable pub take_hold :
    List (ℕ × ℕ) → Result (Option (Publication × PublicationAttempt)) → List (ℕ × ℕ)
take_hold held (ok (some (p, a))) = (p.id, a.id) ∷ held
take_hold held (ok none) = held
take_hold held (raise e) = held

abbrev pub note_delivery : ℕ → Delivered String → List ℕ → List ℕ
note_delivery p (done provider_id) ids = p ∷ ids
note_delivery p (transient e) ids = ids
note_delivery p (permanent e) ids = ids
note_delivery p (uncaught e) ids = ids

module _ (sha256 : Payload → ℕ) (max_attempts : ℕ) where
  unfoldable pub step : World → Event → World
  step w (claims id now new_id) =
      let (r, db) = claim id now new_id w.db in
      record w { db = db; inflight = take_hold w.inflight r }
  step w (settles run p a outcome) =
      if holds w.inflight p a
      then record {
        db = (settle max_attempts run p a outcome w.db).1;
        inflight = release w.inflight p a;
        delivered = note_delivery p outcome w.delivered;
      }
      else w
  step w (crashes p a) = record w { inflight = release w.inflight p a }
  step w (schedules q id) = record w { db = (schedule_publication sha256 q id (λ db. db) w.db).1 }

  unfoldable pub run : World → List Event → World
  run w [] = w
  run w (e ∷ es) = run (step w e) es
