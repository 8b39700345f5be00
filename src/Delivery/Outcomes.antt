-- ===== src/Delivery/Outcomes.antt =====
-- How `publish_due_publication` (relay/publications/services.py) ends.
use aleyacloud_relay.Base.{
  ℕ, ◌+◌, Bool, true, false, List, ◌∷◌, String, some, ◌≡◌, refl, ◌∙◌, arith, ltb, ◌==◌, min, ◌*◌,
  ◌^◌, none, length, codes, inl, inr, Bool-cases, if◌then◌else◌, find, count, save, find_sound,
  find-save,
}
use aleyacloud_relay.Models.Lifecycle.{LifecycleState}
use aleyacloud_relay.Models.Publications.{Publication, PublicationAttempt, Outcome}
use aleyacloud_relay.Store.{Db, Result, ok, raise, data_error}
use aleyacloud_relay.Delivery.{
  PublishResult, Failure, Delivered, done, transient, permanent, uncaught, Provider, Run, is_due,
  is_attempt_of, claim, claimed, first_attempt, attempt_clash, publication_id, attempt_id, deliver,
  should_retry, failed_attempt, failed_publication, finish_success, finish_failure, settle,
  retry_delay, after_claim, publish_due_publication,
}

-- The publication and the attempt of a claim.
abbrev pub held_publication : Publication → Publication
held_publication p = record p { state = LifecycleState.publishing }

abbrev pub held_attempt : Run → (number : ℕ) → Publication → PublicationAttempt
held_attempt run number p = record {
  id = run.new_id;
  publication = p.id;
  attempt_number = number;
  started_at = run.now;
  completed_at = none;
  outcome = Outcome.blank;
  provider_status_code = none;
  error_code = "";
  error_message = "";
}

-- An identifier that its column does not hold.
abbrev pub is_over_long : String → Bool
is_over_long provider_id = ltb 255 (length (codes provider_id))

-- The publication after an outcome of its attempt: one that is delivered, one that waits again from
-- `min (2 ^ number) 30` minutes after the failure on, and one that has failed.
abbrev pub outcome_publication :
    (max_attempts : ℕ) → Run → Delivered String → PublicationAttempt → Publication → Publication
outcome_publication m run (done provider_id) a p =
    if is_over_long provider_id then p else record p {
      state = LifecycleState.published;
      provider_publication_id = provider_id;
      last_error_code = "";
      last_error_message = "";
    }
outcome_publication m run (transient e) a p =
    if ltb a.attempt_number m
    then record p {
      state = LifecycleState.scheduled;
      scheduled_for = run.later + min (2 ^ a.attempt_number) 30 * 60;
      last_error_code = e.code;
      last_error_message = e.message;
    }
    else record p {
      state = LifecycleState.failed;
      last_error_code = e.code;
      last_error_message = e.message;
    }
outcome_publication m run (permanent e) a p = record p {
  state = LifecycleState.failed;
  last_error_code = e.code;
  last_error_message = e.message;
}
outcome_publication m run (uncaught e) a p = p

abbrev pub outcome_attempt :
    (max_attempts : ℕ) → Run → Delivered String → PublicationAttempt → PublicationAttempt
outcome_attempt m run (done provider_id) a =
    if is_over_long provider_id
    then a
    else record a { outcome = Outcome.published; completed_at = some run.completed }
outcome_attempt m run (transient e) a = record a {
  outcome = if ltb a.attempt_number m then Outcome.retry else Outcome.failed;
  error_code = e.code;
  error_message = e.message;
  completed_at = some run.completed;
}
outcome_attempt m run (permanent e) a = record a {
  outcome = Outcome.failed;
  error_code = e.code;
  error_message = e.message;
  completed_at = some run.completed;
}
outcome_attempt m run (uncaught e) a = a

abbrev pub outcome_result :
    (max_attempts : ℕ) → Delivered String → PublicationAttempt → Result PublishResult
outcome_result m (done provider_id) a =
    if is_over_long provider_id then raise data_error else ok PublishResult.published
outcome_result m (transient e) a =
    ok (if ltb a.attempt_number m then PublishResult.retry_scheduled else PublishResult.failed)
outcome_result m (permanent e) a = ok PublishResult.failed
outcome_result m (uncaught e) a = raise e

abbrev pub by_id : ℕ → Publication → Bool
by_id id p = p.id == id

abbrev pub attempt_by_id : ℕ → PublicationAttempt → Bool
attempt_by_id id a = a.id == id

-- What an outcome leaves where both rows are there.
abbrev pub Settled :
    ℕ
    → Run
    → Delivered String
    → Publication
    → PublicationAttempt
    → Result PublishResult × Db
    → Type 0
Settled m run o p a out =
    (out.0 ≡ outcome_result m o a)
    × (find (by_id p.id) out.1.publications ≡ some (outcome_publication m run o a p))
    × (find (attempt_by_id a.id) out.1.attempts ≡ some (outcome_attempt m run o a))

finish_success-Settled :
    (m : ℕ) (run : Run) (provider_id : String) (p : Publication) (a : PublicationAttempt) (db : Db)
    → find (by_id p.id) db.publications ≡ some p
    → find (attempt_by_id a.id) db.attempts ≡ some a
    → Settled m run (done provider_id) p a (finish_success p.id a.id provider_id run.completed db)
unfolding finish_success
finish_success-Settled m run provider_id p a db found found' =
    let row : Publication = record p {
      state = LifecycleState.published;
      provider_publication_id = provider_id;
      last_error_code = "";
      last_error_message = "";
    } in
    let attempt : PublicationAttempt = record a {
      outcome = Outcome.published;
      completed_at = some run.completed;
    } in
    let stored =
      find-save (by_id p.id) publication_id p row db.publications refl (ground arith) found in
    let stored' =
      find-save (attempt_by_id a.id) attempt_id a attempt db.attempts refl (ground arith) found' in
    elim (Bool-cases (is_over_long provider_id)) [
      | inl long ↦ (ground arith, ground arith, ground arith)
      | inr short ↦ (ground arith, ground arith, ground arith)
    ]

finish_failure-Settled :
    (m : ℕ) (run : Run) (e : Failure) (is_transient : Bool) (p : Publication)
    (a : PublicationAttempt) (db : Db)
    → find (by_id p.id) db.publications ≡ some p
    → find (attempt_by_id a.id) db.attempts ≡ some a
    → let retries = should_retry m is_transient a in
      let out = finish_failure m p.id a.id e is_transient run.completed run.later db in
      (out.0 ≡ ok (if retries then PublishResult.retry_scheduled else PublishResult.failed))
      × (find (by_id p.id) out.1.publications
          ≡ some (failed_publication retries e run.later a.attempt_number p))
      × (find (attempt_by_id a.id) out.1.attempts ≡ some (failed_attempt retries e run.completed a))
unfolding finish_failure
finish_failure-Settled m run e is_transient p a db found found' =
    let retries : Bool = should_retry m is_transient a in
    let row = failed_publication retries e run.later a.attempt_number p in
    let attempt = failed_attempt retries e run.completed a in
    let stored =
      find-save (by_id p.id) publication_id p row db.publications refl (ground arith) found in
    let stored' =
      find-save (attempt_by_id a.id) attempt_id a attempt db.attempts refl (ground arith) found' in
    (ground arith, ground arith, ground arith)

find_first :
    (p : PublicationAttempt → Bool) (a : PublicationAttempt) (xs : List PublicationAttempt)
    → p a ≡ true
    → find p (a ∷ xs) ≡ some a
unfolding find
find_first p a xs h = ground arith

-- Every outcome of the delivery, on the rows of the claim.
settle-Settled :
    (m : ℕ) (run : Run) (o : Delivered String) (p : Publication) (a : PublicationAttempt) (db : Db)
    → find (by_id p.id) db.publications ≡ some p
    → find (attempt_by_id a.id) db.attempts ≡ some a
    → Settled m run o p a (settle m run p.id a.id o db)
unfolding settle retry_delay
settle-Settled m run (done x) p a db found found' =
    finish_success-Settled m run x p a db found found'
settle-Settled m run (transient e) p a db found found' =
    let (result, row, attempt) = finish_failure-Settled m run e true p a db found found' in
    elim (Bool-cases (ltb a.attempt_number m)) [
      | inl again ↦ (ground arith, row ∙ rw (again) refl, ground arith)
      | inr last ↦ (ground arith, row ∙ rw (last) refl, ground arith)
    ]
settle-Settled m run (permanent e) p a db found found' =
    finish_failure-Settled m run e false p a db found found'
settle-Settled m run (uncaught e) p a db found found' = (refl, found, found')

claim_due :
    (id now new_id : ℕ) (db : Db) (old : Publication)
    → find (is_due id now) db.publications ≡ some old
    → let a = first_attempt new_id (count (is_attempt_of id) db.attempts + 1) now old in
      attempt_clash a db ≡ false
      → claim id now new_id db ≡ (
        ok (some (claimed old, a)),
        record db {
          publications = save publication_id (claimed old) db.publications;
          attempts = a ∷ db.attempts;
        },
      )
unfolding claim
claim_due id now new_id db old found fresh =
    ground (arith, find_sound (is_due id now) old db.publications found)

publish_claimed :
    (m : ℕ) (provider : Provider) (run : Run) (id : ℕ) (db after : Db) (p : Publication)
    (a : PublicationAttempt)
    → claim id run.now run.new_id db ≡ (ok (some (p, a)), after)
    → publish_due_publication m provider run id db
      ≡ settle m run p.id a.id (deliver provider p after) (run.others after)
unfolding publish_due_publication after_claim
publish_claimed m provider run id db after p a h = rw h refl

-- `publish_due_publication` on a publication that is due and whose attempt can be stored, where the
-- other transactions during the delivery leave its two rows alone: the result, the publication and
-- the attempt are those of the delivery's outcome. A delivery that succeeds gives PUBLISHED with the
-- provider's identifier, unless this has more than 255 characters: then the call raises a DataError and
-- the publication is left PUBLISHING; a transient failure goes back to SCHEDULED, at the second reading of the clock
-- plus min (2 ^ n) 30 minutes for its attempt number n, while n is below the maximum, and else gives
-- FAILED;
-- a permanent one gives FAILED; an exception that nothing catches leaves it PUBLISHING.
pub publish_due_publication-outcome :
    (m : ℕ) (provider : Provider) (run : Run) (db : Db) (old : Publication)
    → find (is_due old.id run.now) db.publications ≡ some old
    → find (by_id old.id) db.publications ≡ some old
    → attempt_clash (held_attempt run (count (is_attempt_of old.id) db.attempts + 1) old) db ≡ false
    → ((x : Db)
        → find (by_id old.id) (run.others x).publications ≡ find (by_id old.id) x.publications)
    → ((x : Db)
        → find (attempt_by_id run.new_id) (run.others x).attempts
          ≡ find (attempt_by_id run.new_id) x.attempts)
    → let a = held_attempt run (count (is_attempt_of old.id) db.attempts + 1) old in
      let after = record db {
        publications = save publication_id (held_publication old) db.publications;
        attempts = a ∷ db.attempts;
      } in
      Settled m run
        (deliver provider (held_publication old) after)
        (held_publication old)
        a
        (publish_due_publication m provider run old.id db)
publish_due_publication-outcome m provider run db old due found fresh quiet quiet' =
    let a : PublicationAttempt =
      first_attempt run.new_id (count (is_attempt_of old.id) db.attempts + 1) run.now old in
    let after : Db = record db {
      publications = save publication_id (claimed old) db.publications;
      attempts = a ∷ db.attempts;
    } in
    rw
      (publish_claimed m provider run old.id db after (claimed old) a
        (claim_due old.id run.now run.new_id db old due fresh))
      (settle-Settled m run (deliver provider (claimed old) after) (claimed old) a
        (run.others after)
        (quiet after
          ∙ find-save (by_id old.id) publication_id old (claimed old) db.publications refl
              (ground arith) found)
        (quiet' after ∙ find_first (attempt_by_id run.new_id) a db.attempts (ground arith)))
