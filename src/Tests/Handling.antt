-- ===== src/Tests/Handling.antt =====
-- Runs of the handlers of relay/api/views.py on the test data.
use aleyacloud_relay.Base.{
  ℕ, true, false, ◌==◌, ◌&&◌, ◌||◌, [], ◌∷◌, some, ◌≡◌, refl, ◌⊎◌, codes, leb, find, exists, save,
  select, any, elem,
}
use aleyacloud_relay.Models.Lifecycle.{LifecycleState, is_draft, is_pending_approval, is_approved}
use aleyacloud_relay.Models.Tenancy.{MembershipRole}
use aleyacloud_relay.Models.Content.{Post}
use aleyacloud_relay.Models.Publications.{Publication}
use aleyacloud_relay.Store.{Db, does_not_exist}
use aleyacloud_relay.Media.{variant_assets}
use aleyacloud_relay.Access.{RelayPrincipal, role_scopes, has_permission, get_tenant, get_brand}
use aleyacloud_relay.Approvals.{request_approval, decide_approval, decision_guards}
use aleyacloud_relay.Posts.{insert_entry, sort_keys, request_fingerprint, approve_post}
use aleyacloud_relay.Scheduling.{
  ScheduleRequest, schedule_publication, schedule_guards, unfit_media, insert_publication,
  new_publication, has_publication_key,
}
use aleyacloud_relay.Scheduling.Effects.{IsSchedulable}
use aleyacloud_relay.Scheduling.Idempotency.{Ends, schedule-Ends}
use aleyacloud_relay.Views.{
  Answer, reply, refused, crashed, PublicationBody, publications_write, bad_key, create_publication,
}
use aleyacloud_relay.Views.Publishing.{create_publication-reply}
use aleyacloud_relay.Views.Posting.{posts_approve, reach_post, approve, bad_decision, decide}
use aleyacloud_relay.Views.Reach.{approve-reply}
use aleyacloud_relay.Tests as Data
use aleyacloud_relay.Tests.{digest, payload_digest, post_in, start_db, approved_db}

abbrev success : ℕ
success = 200

abbrev created : ℕ
created = 201

abbrev ana : RelayPrincipal
ana = record {
  subject = "ana";
  workspace_id = 1;
  brand_ids = 10 ∷ [];
  scopes = role_scopes MembershipRole.manager;
}

abbrev body : PublicationBody
body = record {
  key = some "key-1";
  post_variant_id = 300;
  channel_connection_id = 400;
  scheduled_for = 50;
}

abbrev unchanged : Db → Db
unchanged db = db

abbrev scheduled : Publication
scheduled = new_publication 750 Data.schedule_request 700

published :
    (create_publication payload_digest ana body 40 700 unchanged approved_db).0
    ≡ reply 201 (record { publication = scheduled; created = true })
unfolding create_publication has_permission role_scopes any exists find bad_key get_tenant get_brand
    elem schedule_publication insert_publication schedule_guards unfit_media request_fingerprint
    sort_keys insert_entry select variant_assets aleyacloud_relay.Views.schedule_request
published = refl

create_publication-reply_example :
    (has_permission publications_write (some ana) approved_db ≡ true)
    × (bad_key (some "key-1") ≡ false)
    × (leb 50 40 ≡ false)
    × (scheduled.tenant ≡ 1)
    × (((created ≡ success)
          × (find (has_publication_key 1 "key-1") approved_db.publications ≡ some scheduled)
          × ((create_publication payload_digest ana body 40 700 unchanged approved_db).1
              ≡ approved_db))
        ⊎ ((created ≡ created)
            × (elem 10 (10 ∷ []) ≡ true)
            × (scheduled.post_variant ≡ 300)
            × (scheduled.channel_connection ≡ 400)
            × (scheduled.scheduled_for ≡ 50)
            × ((create_publication payload_digest ana body 40 700 unchanged
                  approved_db).1.publications
                ≡ scheduled ∷ approved_db.publications)
            × ((q : ScheduleRequest) × (aleyacloud_relay.Views.schedule_request ana body approved_db
                  ≡ some q)
                × IsSchedulable approved_db q)))
create_publication-reply_example =
    create_publication-reply payload_digest ana body 40 700 unchanged approved_db {status = 201}
      {r = record { publication = scheduled; created = true }} published

schedule-Ends_example : Ends payload_digest Data.schedule_request 700 unchanged approved_db
schedule-Ends_example = schedule-Ends payload_digest Data.schedule_request 700 unchanged approved_db

approved : (approve ana 100 start_db).0 ≡ reply 200 (post_in LifecycleState.approved)
unfolding approve has_permission role_scopes any exists find reach_post get_tenant get_brand elem
    approve_post
approved = refl

approve-reply_example :
    (has_permission posts_approve (some ana) start_db ≡ true)
    × (success ≡ 200)
    × (elem 10 (10 ∷ []) ≡ true)
    × ((old : Post) × (find
            (λ (x : Post). x.id == 100 && (x.tenant == 1 && x.brand == 10))
            start_db.posts
          ≡ some old)
        × (((is_approved old.state ≡ true)
              × (post_in LifecycleState.approved ≡ old)
              × ((approve ana 100 start_db).1 ≡ start_db))
            ⊎ (((is_draft old.state || is_pending_approval old.state) ≡ true)
                × (post_in LifecycleState.approved ≡ record old { state = LifecycleState.approved })
                × ((approve ana 100 start_db).1.posts
                    ≡ save (λ (x : Post). x.id) (post_in LifecycleState.approved) start_db.posts))))
approve-reply_example =
    approve-reply ana 100 start_db {status = 200} {post = post_in LifecycleState.approved} approved

-- The post of the request is gone.
abbrev gone_db : Db
gone_db =
    record (request_approval digest 1 10 100 "ana" 2 (codes "https://relay/") (codes "token") 600
      1000 start_db).1 { posts = [] }

gone : (decide digest (codes "token") "APPROVED" "" "" 2000 2001 gone_db).0 ≡ crashed does_not_exist
unfolding decide bad_decision decide_approval decision_guards request_approval find exists
gone = refl
