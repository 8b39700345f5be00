-- ===== src/Tests/Delivering.antt =====
-- Runs of relay/publications/services.py, relay/publications/tasks.py and relay/social/publishing.py on
-- the test data.
use aleyacloud_relay.Base.{
  ◌+◌, ◌≤◌, min, true, ◌&&◌, List, [], ◌∷◌, some, ◌≡◌, refl, arith, find, exists, save, any, count,
  length, ◌==◌,
}
use aleyacloud_relay.Models.Publications.{Publication, PublicationAttempt}
use aleyacloud_relay.Models.Social.{Channel}
use aleyacloud_relay.Store.{Db}
use aleyacloud_relay.Scheduling.{new_publication}
use aleyacloud_relay.Delivery.{
  done, transient, Failure, Provider, Run, claimed, first_attempt, is_attempt_of, publication_id,
  deliver, publish_due_publication,
}
use aleyacloud_relay.Delivery.Workers.{idle, Event, run}
use aleyacloud_relay.Delivery.Exclusion.{held, times, delivered_at_most_once}
use aleyacloud_relay.Delivery.Bound.{attempts_bounded}
use aleyacloud_relay.Delivery.Outcomes.{Settled, publish_due_publication-outcome}
use aleyacloud_relay.Delivery.Dispatch.{
  dispatch_due_publications, due_now, dispatch_due_publications-due,
}
use aleyacloud_relay.Meta.{Reply, Server, publish_images}
use aleyacloud_relay.Meta.Checks.{Checked}
use aleyacloud_relay.Meta.Finished.{publish_images_checks}
use aleyacloud_relay.Tests.{payload_digest, approved_db, schedule_request}

abbrev scheduled : Publication
scheduled = new_publication 750 schedule_request 700

abbrev scheduled_db : Db
scheduled_db = record approved_db { publications = scheduled ∷ [] }

abbrev unchanged : Db → Db
unchanged db = db

abbrev a_run : Run
a_run = record { now = 60; new_id = 800; completed = 61; later = 62; others = unchanged }

abbrev unreachable_meta : Failure
unreachable_meta = record {
  code = "MetaPublishTransientError";
  message = "Meta could not be reached.";
}

-- A publication is scheduled, two workers race for it, one fails, and one delivers it later.
abbrev events : List Event
events =
    Event.schedules schedule_request 700
    ∷ Event.claims 700 60 800
    ∷ Event.claims 700 60 801
    ∷ Event.settles a_run 700 800 (transient unreachable_meta)
    ∷ Event.claims 700 1000 802
    ∷ Event.settles a_run 700 802 (done "meta-1")
    ∷ []

delivered_at_most_once_example :
    held 700 (run payload_digest 5 (idle approved_db) events).inflight
      + times 700 (run payload_digest 5 (idle approved_db) events).delivered
    ≤ 1
delivered_at_most_once_example = delivered_at_most_once payload_digest 5 approved_db events 700

attempts_bounded_example :
    count (is_attempt_of 700) (run payload_digest 5 (idle approved_db) events).db.attempts ≤ 5
attempts_bounded_example =
    attempts_bounded payload_digest 5 approved_db events 700 (omega arith) refl

abbrev meta_down : Provider
meta_down = record {
  client = done tt;
  decrypt_token = λ s. done s;
  publishable_image_url = λ a. done a.storage_key;
  publish_images = λ c token body urls. transient unreachable_meta;
}

abbrev attempt : PublicationAttempt
attempt = first_attempt 800 1 60 scheduled

publish_due_publication-outcome_example :
    Settled 5 a_run
      (deliver meta_down (claimed scheduled) (record scheduled_db {
        publications = save publication_id (claimed scheduled) (scheduled ∷ []);
        attempts = attempt ∷ [];
      }))
      (claimed scheduled)
      attempt
      (publish_due_publication 5 meta_down a_run 700 scheduled_db)
unfolding find exists count
publish_due_publication-outcome_example =
    publish_due_publication-outcome 5 meta_down a_run scheduled_db scheduled refl refl refl
      (λ x. refl) (λ x. refl)

dispatch_due_publications-due_example :
    (any (λ i. i == 700) (dispatch_due_publications 60 scheduled_db) ≡ true
      → any (λ p. due_now 60 p && p.id == 700) scheduled_db.publications ≡ true)
    × (length (dispatch_due_publications 60 scheduled_db)
        ≡ min 100 (count (due_now 60) scheduled_db.publications))
    × (count (due_now 60) scheduled_db.publications ≤ 100
        → any (λ i. i == 700) (dispatch_due_publications 60 scheduled_db)
          ≡ any (λ p. due_now 60 p && p.id == 700) scheduled_db.publications)
dispatch_due_publications-due_example =
    dispatch_due_publications-due 60 scheduled_db (λ i. i == 700)

-- A server that makes containers, reports them as FINISHED, and publishes them.
abbrev ready_server : Server
ready_server t request =
    Reply.response 200 (some (record { id = some "container"; status_code = "FINISHED" }))

publish_images_checks_example :
    Checked
      (publish_images ready_server "page" "token" "Hello" Channel.meta_instagram_business_account
        ("https://a" ∷ "https://b" ∷ [])
        []).1
publish_images_checks_example =
    publish_images_checks ready_server "page" "token" "Hello"
      Channel.meta_instagram_business_account ("https://a" ∷ "https://b" ∷ [])
