-- ===== src/Scheduling/Idempotency.antt =====
-- The idempotency keys of `schedule_publication` (relay/api/services.py).
use aleyacloud_relay.Base.{
  ℕ, true, false, ◌||◌, eq_refl, none, some, ◌≡◌, ◌⊎◌, inl, inr, ◌∙◌, arith, ◌==◌, if◌then◌else◌,
  find, find-exists, Option-cases, Bool-cases,
}
use aleyacloud_relay.Models.Publications.{Publication}
use aleyacloud_relay.Store.{
  Db, Error, Result, ok, raise, idempotency_conflict, transaction_management_error,
  invalid_schedule, invalid_state_transition,
}
use aleyacloud_relay.Posts.{Payload, request_fingerprint}
use aleyacloud_relay.Scheduling.{
  SchedulePublicationResult, ScheduleRequest, schedule_entries, has_publication_key,
  publication_clash, new_publication, schedule_publication,
}
use aleyacloud_relay.Scheduling.Effects.{
  IsSchedulable, schedule_guards-cases, schedule_guards_iff, with_publication, schedule_known,
  schedule_new, schedule_refused,
}

module _ (sha256 : Payload → ℕ) (q : ScheduleRequest) (id : ℕ) (others : Db → Db) (db : Db) where
  abbrev after : Result SchedulePublicationResult × Db
  after = schedule_publication sha256 q id others db

  abbrev row : Publication
  row = new_publication (request_fingerprint sha256 (schedule_entries q)) q id

  -- How a call ends: with a stored row, with an exception, or with a new row.
  abbrev pub Ends : Type 0
  Ends =
      ((existing : Publication) × (find (has_publication_key q.tenant q.idempotency_key)
            db.publications
          ≡ some existing)
        × (after ≡ (
            if existing.request_fingerprint == row.request_fingerprint
            then (ok (record { publication = existing; created = false }), db)
            else (raise idempotency_conflict, db))))
      ⊎ ((find (has_publication_key q.tenant q.idempotency_key) db.publications ≡ none)
          × (((e : Error) × (after ≡ (raise e, others db)))
              ⊎ (IsSchedulable (others db) q
                  × (publication_clash row (others db) ≡ false)
                  × (after ≡ (
                    ok (record { publication = row; created = true }),
                    with_publication row q.subject (others db),
                  )))))

  -- Every way in which `schedule_publication` ends. Where the key has a publication at the look-up, it
  -- comes back as not created if the fingerprints agree, and else the call is a conflict; nothing is
  -- written. Where it has none, the call raises and writes nothing of its own, or the post, the account,
  -- the connection and the images meet the guards, no publication has the new id or the key, and the
  -- new row comes back as created and is stored with its log entry.
  pub schedule-Ends : Ends
  schedule-Ends =
      elim (Option-cases (find (has_publication_key q.tenant q.idempotency_key) db.publications)) [
        | inr (existing, e) ↦ inl (existing, e, schedule_known sha256 q id others db existing e)
        | inl e ↦ inr (
          e,
          elim (schedule_guards-cases q (others db)) [
            | inl passed ↦
                let fits = (schedule_guards_iff q (others db)).0 passed in
                let stored = schedule_new sha256 q id others db e fits in
                elim (Bool-cases (publication_clash row (others db))) [
                  | inl clash ↦ inl (transaction_management_error, ground arith)
                  | inr fresh ↦ inr (fits, fresh, ground arith)
                ]
            | inr refused ↦ elim (schedule_refused sha256 q id others db e refused) [
              | inl x ↦ inl (invalid_schedule, x)
              | inr x ↦ inl (invalid_state_transition, x)
            ]
          ],
        )
      ]

  new_row_has_key : has_publication_key q.tenant q.idempotency_key row ≡ true
  new_row_has_key = ground (arith, eq_refl q.idempotency_key)

  -- A call that returned has left the publication that it returned under its key.
  stored_under_key :
      {r : SchedulePublicationResult}
      → after.0 ≡ ok r
      → (find (has_publication_key q.tenant q.idempotency_key) after.1.publications
          ≡ some r.publication)
        × (r.publication.request_fingerprint ≡ row.request_fingerprint)
  unfolding find
  stored_under_key {r} h = elim schedule-Ends [
    | inl (existing, found, e) ↦ ground arith
    | inr (missing, inl (x, e)) ↦ ground arith
    | inr (missing, inr (fits, fresh, e)) ↦ rw e (ground (arith, new_row_has_key))
  ]

-- A `schedule_publication` that returned, repeated with the same request right after it, returns the
-- publication of the first time as not created and writes nothing.
pub schedule_twice :
    (sha256 : Payload → ℕ) (q : ScheduleRequest) (id id' : ℕ) (others others' : Db → Db) (db : Db)
    {r : SchedulePublicationResult}
    → (schedule_publication sha256 q id others db).0 ≡ ok r
    → schedule_publication sha256 q id' others' (schedule_publication sha256 q id others db).1 ≡ (
      ok (record { publication = r.publication; created = false }),
      (schedule_publication sha256 q id others db).1,
    )
schedule_twice sha256 q id id' others others' db {r} h =
    let (found, same) = stored_under_key sha256 q id others db h in
    schedule_known sha256 q id' others' (schedule_publication sha256 q id others db).1 r.publication
      found
    ∙ ground (arith, same)

-- The race that the `except IntegrityError` of `schedule_publication` is there for: where no
-- publication had the key at the look-up, the guards pass, and one of that tenant has the key when the
-- publication is inserted, the handler's own query raises a TransactionManagementError, and the stored
-- publication is neither returned nor compared.
pub schedule_race :
    (sha256 : Payload → ℕ) (q : ScheduleRequest) (id : ℕ) (others : Db → Db) (db : Db)
    (winner : Publication)
    → find (has_publication_key q.tenant q.idempotency_key) db.publications ≡ none
    → find (has_publication_key q.tenant q.idempotency_key) (others db).publications ≡ some winner
    → IsSchedulable (others db) q
    → schedule_publication sha256 q id others db ≡ (raise transaction_management_error, others db)
schedule_race sha256 q id others db winner missing won fits =
    schedule_new sha256 q id others db missing fits
    ∙ ground (
      arith,
      find-exists
          (λ (p : Publication). p.id == id || has_publication_key q.tenant q.idempotency_key p)
          (has_publication_key q.tenant q.idempotency_key) winner (others db).publications
          (λ x k. ground arith) won,
    )
