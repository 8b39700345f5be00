-- ===== src/Tests/Requests.antt =====
-- Runs of relay/api/services.py on the test data.
use aleyacloud_relay.Base.{
  true, false, ◌∷◌, ◌≡◌, ◌≢◌, refl, arith, find, exists, save, select, any, elem, from_keys,
  get_all,
}
use aleyacloud_relay.Models.Lifecycle.{LifecycleState}
use aleyacloud_relay.Models.Content.{Post}
use aleyacloud_relay.Models.Publications.{Publication}
use aleyacloud_relay.Store.{Db, ok, raise, transaction_management_error}
use aleyacloud_relay.Media.{variant_assets, ready_assets_for_post}
use aleyacloud_relay.Posts.{
  create_post_draft, approve_post, insert_draft, insert_entry, sort_keys, request_fingerprint,
  post_entries, new_post,
}
use aleyacloud_relay.Posts.Idempotency.{create_twice, create_race}
use aleyacloud_relay.Posts.Approve.{approve_post-outcome, ApproveOutcome}
use aleyacloud_relay.Scheduling.{
  schedule_publication, schedule_guards, unfit_media, insert_publication, new_publication,
}
use aleyacloud_relay.Scheduling.Idempotency.{schedule_twice, schedule_race}
use aleyacloud_relay.Tests.{
  payload_digest, post_in, start_db, approved_db, schedule_request, post_payload,
}

abbrev unchanged : Db → Db
unchanged db = db

abbrev drafted : Post
drafted = new_post 17 1 10 "ana" "key-1" (post_payload "Hello") 101

abbrev drafted_db : Db
drafted_db =
    (create_post_draft payload_digest 1 10 "ana" "key-1" (post_payload "Hello") 101 301 unchanged
      start_db).1

draft_created :
    (create_post_draft payload_digest 1 10 "ana" "key-1"
      (post_payload "Hello")
      101
      301
      unchanged
      start_db).0
    ≡ ok (record { post = drafted; created = true })
unfolding create_post_draft insert_draft request_fingerprint sort_keys insert_entry find exists save
    ready_assets_for_post from_keys select elem get_all
draft_created = refl

create_twice_example :
    create_post_draft payload_digest 1 10 "ana" "key-1"
      (post_payload "Hello")
      102
      302
      unchanged
      drafted_db
    ≡ (ok (record { post = drafted; created = false }), drafted_db)
create_twice_example =
    create_twice payload_digest 1 10 "ana" "key-1" (post_payload "Hello") 101 301 102 302 unchanged
      unchanged start_db {r = record { post = drafted; created = true }} draft_created

other_fingerprint :
    request_fingerprint payload_digest (post_entries (post_payload "Hello"))
    ≢ request_fingerprint payload_digest (post_entries (post_payload "Good bye"))
unfolding request_fingerprint sort_keys insert_entry
other_fingerprint e = ground arith

-- The other request of the same key has been committed.
abbrev won : Db → Db
won db = record db { posts = drafted ∷ db.posts }

create_race_example :
    create_post_draft payload_digest 1 10 "ana" "key-1" (post_payload "Hello") 102 302 won start_db
    ≡ (raise transaction_management_error, won start_db)
unfolding find
create_race_example =
    create_race payload_digest 1 10 "ana" "key-1" (post_payload "Hello") 102 302 won start_db
      drafted refl refl

approve_post-outcome_example : ApproveOutcome 100 1 10 "ana" start_db
approve_post-outcome_example = approve_post-outcome 100 1 10 "ana" start_db

approved_once : (approve_post 100 1 10 "ana" start_db).0 ≡ ok (post_in LifecycleState.approved)
unfolding approve_post find
approved_once = refl

abbrev scheduled : Publication
scheduled = new_publication 750 schedule_request 700

abbrev scheduled_db : Db
scheduled_db = (schedule_publication payload_digest schedule_request 700 unchanged approved_db).1

publication_created :
    (schedule_publication payload_digest schedule_request 700 unchanged approved_db).0
    ≡ ok (record { publication = scheduled; created = true })
unfolding schedule_publication insert_publication schedule_guards unfit_media request_fingerprint
    sort_keys insert_entry find exists select any elem variant_assets
publication_created = refl

schedule_twice_example :
    schedule_publication payload_digest schedule_request 701 unchanged scheduled_db
    ≡ (ok (record { publication = scheduled; created = false }), scheduled_db)
schedule_twice_example =
    schedule_twice payload_digest schedule_request 700 701 unchanged unchanged approved_db
      {r = record { publication = scheduled; created = true }} publication_created

abbrev won_publication : Db → Db
won_publication db = record db { publications = scheduled ∷ db.publications }

schedule_race_example :
    schedule_publication payload_digest schedule_request 701 won_publication approved_db
    ≡ (raise transaction_management_error, won_publication approved_db)
unfolding find unfit_media select elem any variant_assets
schedule_race_example =
    schedule_race payload_digest schedule_request 701 won_publication approved_db scheduled refl
      refl (refl, refl, refl, refl, refl, refl, refl)
