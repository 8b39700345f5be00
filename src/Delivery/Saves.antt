-- ===== src/Delivery/Saves.antt =====
-- What the second transaction of `publish_due_publication` (relay/publications/services.py) does to
-- the publications.
use aleyacloud_relay.Base.{
  ℕ, Bool, true, false, String, none, ◌≡◌, refl, ◌≢◌, ◌⊎◌, inl, inr, ap, arith, ◌==◌, find, save,
  Option-cases, Bool-cases, find_sound, find-save_other, find-save_less, find-save_key,
}
use aleyacloud_relay.Models.Lifecycle.{LifecycleState, is_scheduled}
use aleyacloud_relay.Models.Publications.{Publication, PublicationAttempt}
use aleyacloud_relay.Store.{Db}
use aleyacloud_relay.Delivery.{
  publication_id, Delivered, done, transient, permanent, uncaught, Failure, Run, finish_success,
  finish_failure, is_too_long, settle, failed_publication, should_retry,
}
use aleyacloud_relay.Delivery.Claim.{is_waiting}
use aleyacloud_relay.Delivery.Workers.{run}

abbrev pub is_row : ℕ → Publication → Bool
is_row id p = p.id == id

-- What the second transaction does to the publications: nothing, or it saves the row of `p`, which
-- waits again only after a failure.
abbrev pub Saves : (waits : Bool) (p : ℕ) (before after : Db) → Type 0
Saves waits p before after =
    (after.publications ≡ before.publications)
    ⊎ ((row : Publication) × (row.id ≡ p)
        × (is_scheduled row.state ≡ true → waits ≡ true)
        × (after.publications ≡ save publication_id row before.publications))

finish_success-Saves :
    (p a : ℕ) (provider_id : String) (now : ℕ) (db : Db)
    → Saves false p db (finish_success p a provider_id now db).1
unfolding finish_success
finish_success-Saves p a provider_id now db =
    elim (Option-cases (find (is_row p) db.publications)) [
      | inl e ↦ inl (ground arith)
      | inr (old, e) ↦
          elim (Option-cases (find (λ (x : PublicationAttempt). x.id == a) db.attempts)) [
            | inl f ↦ inl (ground arith)
            | inr (attempt, f) ↦ elim (Bool-cases (is_too_long provider_id)) [
              | inl long ↦ inl (ground arith)
              | inr short ↦ inr (
                record old {
                  state = LifecycleState.published;
                  provider_publication_id = provider_id;
                  last_error_code = "";
                  last_error_message = "";
                },
                ground (arith, find_sound (is_row p) old db.publications e),
                (λ h. cc),
                ground arith,
              )
            ]
          ]
    ]

finish_failure-Saves :
    (m p a : ℕ) (e : Failure) (is_transient : Bool) (completed now : ℕ) (db : Db)
    → Saves true p db (finish_failure m p a e is_transient completed now db).1
unfolding finish_failure
finish_failure-Saves m p a e is_transient completed now db =
    elim (Option-cases (find (is_row p) db.publications)) [
      | inl e' ↦ inl (ground arith)
      | inr (old, e') ↦
          elim (Option-cases (find (λ (x : PublicationAttempt). x.id == a) db.attempts)) [
            | inl f ↦ inl (ground arith)
            | inr (attempt, f) ↦ inr (
              failed_publication (should_retry m is_transient attempt) e now attempt.attempt_number
                  old,
              ground (arith, find_sound (is_row p) old db.publications e'),
              (λ _. refl),
              ground arith,
            )
          ]
    ]

pub Saves-other :
    (waits : Bool) (p id : ℕ) (b a : Db)
    → Saves waits p b a
    → id ≢ p
    → find (is_waiting id) a.publications ≡ find (is_waiting id) b.publications
Saves-other waits p id b a (inl same) ne = ap (find (is_waiting id)) same
Saves-other waits p id b a (inr (row, here, w, e)) ne =
    rw e (find-save_other (is_waiting id) publication_id row b.publications (λ x k. ground arith))

pub Saves-row :
    (waits : Bool) (p id : ℕ) (b a : Db)
    → Saves waits p b a
    → find (is_row id) b.publications ≢ none
    → find (is_row id) a.publications ≢ none
Saves-row waits p id b a (inl same) h = rw same h
Saves-row waits p id b a (inr (row, here, w, e)) h =
    rw e (find-save_key publication_id id row b.publications h)

pub Saves-done :
    (p id : ℕ) (b a : Db)
    → Saves false p b a
    → find (is_waiting id) b.publications ≡ none
    → find (is_waiting id) a.publications ≡ none
Saves-done p id b a (inl same) h = rw same h
Saves-done p id b a (inr (row, here, w, e)) h =
    rw e (find-save_less (is_waiting id) publication_id row b.publications (ground arith) h)

-- Whether the outcome lets the publication wait again.
abbrev pub may_wait : Delivered String → Bool
may_wait (done x) = false
may_wait (transient e) = true
may_wait (permanent e) = true
may_wait (uncaught e) = false

pub settle-Saves :
    (m : ℕ) (run : Run) (p a : ℕ) (o : Delivered String) (db : Db)
    → Saves (may_wait o) p db (settle m run p a o db).1
unfolding settle
settle-Saves m run p a (done x) db = finish_success-Saves p a x run.completed db
settle-Saves m run p a (transient e) db =
    finish_failure-Saves m p a e true run.completed run.later db
settle-Saves m run p a (permanent e) db =
    finish_failure-Saves m p a e false run.completed run.later db
settle-Saves m run p a (uncaught e) db = inl refl
