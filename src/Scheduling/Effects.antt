-- ===== src/Scheduling/Effects.antt =====
-- What `schedule_publication` of relay/api/services.py checks and writes.
use aleyacloud_relay.Base.{
  ℕ, true, false, String, ◌∷◌, none, some, ◌≡◌, ◌⊎◌, inl, inr, arith, ◌==◌, if◌then◌else◌, find,
}
use aleyacloud_relay.Models.Lifecycle.{is_approved}
use aleyacloud_relay.Models.Publications.{Publication}
use aleyacloud_relay.Store.{
  Db, except_integrity_error, ok, raise, idempotency_conflict, transaction_management_error,
  invalid_schedule, invalid_state_transition,
}
use aleyacloud_relay.Media.{variant_assets}
use aleyacloud_relay.Posts.{Payload, request_fingerprint}
use aleyacloud_relay.Scheduling.{
  ScheduleRequest, schedule_entries, has_publication_key, publication_clash, new_publication,
  unfit_media, schedule_guards, scheduled_log, insert_publication, replay_publication,
  schedule_publication,
}

-- What the guards ask of the request and of the images.
abbrev pub IsSchedulable : Db → ScheduleRequest → Type 0
IsSchedulable db q =
    (q.post.tenant ≡ q.tenant)
    × (q.post.brand ≡ q.brand)
    × (q.account.tenant ≡ q.tenant)
    × (q.account.brand ≡ q.brand)
    × (q.channel_connection.is_active ≡ true)
    × (is_approved q.post.state ≡ true)
    × (unfit_media (variant_assets q.post_variant.id db) ≡ false)

pub schedule_guards_iff :
    (q : ScheduleRequest) (db : Db)
    → ((schedule_guards q false db ≡ ok (tt, db)) → IsSchedulable db q)
      × (IsSchedulable db q → schedule_guards q false db ≡ ok (tt, db))
unfolding schedule_guards
schedule_guards_iff q db = (λ h. ground arith, λ h. ground arith)

pub schedule_guards-cases :
    (q : ScheduleRequest) (db : Db)
    → (schedule_guards q false db ≡ ok (tt, db))
      ⊎ ((schedule_guards q false db ≡ raise invalid_schedule)
          ⊎ (schedule_guards q false db ≡ raise invalid_state_transition))
unfolding schedule_guards
schedule_guards-cases q db = ground arith

-- The row and its log entry.
abbrev pub with_publication : Publication → String → Db → Db
with_publication p subject db = record db {
  publications = p ∷ db.publications;
  audit = scheduled_log p subject ∷ db.audit;
}

insert_or_replay :
    (p : Publication) (subject : String) (tenant : ℕ) (key : String) (fingerprint : ℕ) (db : Db)
    → except_integrity_error
        (insert_publication p subject)
        (replay_publication tenant key fingerprint)
        false
        db
      ≡ (if publication_clash p db
          then raise transaction_management_error
          else ok (record { publication = p; created = true }, with_publication p subject db))
unfolding insert_publication replay_publication
insert_or_replay p subject tenant key fingerprint db = ground arith

module _ (sha256 : Payload → ℕ) (q : ScheduleRequest) (id : ℕ) (others : Db → Db) (db : Db) where
  abbrev fingerprint : ℕ
  fingerprint = request_fingerprint sha256 (schedule_entries q)

  -- The key has been used: the stored publication comes back, or a conflict. Nothing is written.
  pub schedule_known :
      (existing : Publication)
      → find (has_publication_key q.tenant q.idempotency_key) db.publications ≡ some existing
      → schedule_publication sha256 q id others db ≡ (
          if existing.request_fingerprint == request_fingerprint sha256 (schedule_entries q)
          then (ok (record { publication = existing; created = false }), db)
          else (raise idempotency_conflict, db))
  unfolding schedule_publication
  schedule_known existing e = rw (e, schedule_publication)

  -- The key is new, the request passes the guards and no constraint stops the row: it is stored.
  pub schedule_new :
      find (has_publication_key q.tenant q.idempotency_key) db.publications ≡ none
      → IsSchedulable (others db) q
      → schedule_publication sha256 q id others db ≡ (
          let p = new_publication (request_fingerprint sha256 (schedule_entries q)) q id in
          if publication_clash p (others db)
          then (raise transaction_management_error, others db)
          else (
            ok (record { publication = p; created = true }),
            with_publication p q.subject (others db),
          ))
  unfolding schedule_publication
  schedule_new e fits =
      rw (e, schedule_publication)
        (ground (
          arith,
          (schedule_guards_iff q (others db)).1 fits,
          insert_or_replay (new_publication fingerprint q id) q.subject q.tenant q.idempotency_key
              fingerprint (others db),
        ))

  -- The key is new and a guard fails.
  pub schedule_refused :
      find (has_publication_key q.tenant q.idempotency_key) db.publications ≡ none
      → (schedule_guards q false (others db) ≡ raise invalid_schedule)
        ⊎ (schedule_guards q false (others db) ≡ raise invalid_state_transition)
      → (schedule_publication sha256 q id others db ≡ (raise invalid_schedule, others db))
        ⊎ (schedule_publication sha256 q id others db ≡ (raise invalid_state_transition, others db))
  unfolding schedule_publication
  schedule_refused e (inl x) = inl (rw (e, schedule_publication) (ground arith))
  schedule_refused e (inr x) = inr (rw (e, schedule_publication) (ground arith))
