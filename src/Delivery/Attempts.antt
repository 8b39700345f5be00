-- ===== src/Delivery/Attempts.antt =====
-- What the second transaction of `publish_due_publication` (relay/publications/services.py) does to the
-- attempts.
use aleyacloud_relay.Base.{
  ℕ, Bool, true, false, String, List, [], ◌∷◌, none, some, ◌≡◌, refl, ◌⊎◌, inl, inr, arith, ltb,
  ◌==◌, find, count, save, Option-cases, Bool-cases, find_sound,
}
use aleyacloud_relay.Models.Lifecycle.{LifecycleState, is_scheduled}
use aleyacloud_relay.Models.Publications.{Publication, PublicationAttempt, Outcome}
use aleyacloud_relay.Store.{Db}
use aleyacloud_relay.Delivery.{
  is_attempt_of, publication_id, attempt_id, Delivered, done, transient, permanent, uncaught,
  Failure, Run, finish_success, is_too_long, finish_failure, settle, failed_publication,
  failed_attempt, should_retry,
}
use aleyacloud_relay.Delivery.Workers.{run}
use aleyacloud_relay.Delivery.Saves.{is_row}

abbrev pub has_attempt_id : ℕ → PublicationAttempt → Bool
has_attempt_id id a = a.id == id

-- No two attempts have one id.
abbrev pub Keyed : List PublicationAttempt → Type 0
Keyed [] = Unit
Keyed (x ∷ xs) = (find (has_attempt_id x.id) xs ≡ none) × Keyed xs

find_id-save :
    (i : ℕ) (row : PublicationAttempt) (xs : List PublicationAttempt)
    → find (has_attempt_id i) xs ≡ none
    → find (has_attempt_id i) (save attempt_id row xs) ≡ none
unfolding find save
find_id-save i row [] h = refl
find_id-save i row (x ∷ xs) h = ground (arith, find_id-save i row xs)

pub Keyed-save :
    (row : PublicationAttempt) (xs : List PublicationAttempt)
    → Keyed xs
    → Keyed (save attempt_id row xs)
unfolding save
Keyed-save row [] k = tt
Keyed-save row (x ∷ xs) k = (
  elim (Bool-cases (x.id == row.id)) [
    | inl here ↦ rw here (find_id-save row.id row xs (ground arith))
    | inr away ↦ rw away (find_id-save x.id row xs k.0)
  ],
  Keyed-save row xs k.1,
)

save_absent :
    (row : PublicationAttempt) (xs : List PublicationAttempt)
    → find (has_attempt_id row.id) xs ≡ none
    → save attempt_id row xs ≡ xs
unfolding save find
save_absent row [] h = refl
save_absent row (x ∷ xs) h = ground (arith, save_absent row xs)

-- Saving an attempt keeps how many attempts each publication has.
pub count-save :
    (j : ℕ) (old row : PublicationAttempt) (xs : List PublicationAttempt)
    → Keyed xs
    → find (has_attempt_id row.id) xs ≡ some old
    → row.publication ≡ old.publication
    → count (is_attempt_of j) (save attempt_id row xs) ≡ count (is_attempt_of j) xs
unfolding count save find
count-save j old row [] k f e = refl
count-save j old row (x ∷ xs) k f e = elim (Bool-cases (x.id == row.id)) [
  | inl here ↦ let same : x.id ≡ row.id = ground arith in ground (arith, save_absent row xs)
  | inr away ↦ ground (arith, count-save j old row xs k.1)
]

-- The second transaction writes nothing, or saves the row `prow` of the publication and the row `arow`
-- of the attempt, where the publication waits again only below the maximum.
abbrev pub Effect : (m p a : ℕ) (before after : Db) → Type 0
Effect m p a before after =
    ((after.publications ≡ before.publications) × (after.attempts ≡ before.attempts))
    ⊎ ((old : PublicationAttempt) × (arow : PublicationAttempt) × (prow : Publication) × (find
            (has_attempt_id a) before.attempts
          ≡ some old)
        × (arow.id ≡ old.id)
        × (arow.publication ≡ old.publication)
        × (arow.attempt_number ≡ old.attempt_number)
        × (prow.id ≡ p)
        × (is_scheduled prow.state ≡ true → ltb old.attempt_number m ≡ true)
        × (after.publications ≡ save publication_id prow before.publications)
        × (after.attempts ≡ save attempt_id arow before.attempts))

finish_success-Effect :
    (m p a : ℕ) (provider_id : String) (now : ℕ) (db : Db)
    → Effect m p a db (finish_success p a provider_id now db).1
unfolding finish_success
finish_success-Effect m p a provider_id now db =
    elim (Option-cases (find (is_row p) db.publications)) [
      | inl e ↦ inl (ground arith, ground arith)
      | inr (old, e) ↦ elim (Option-cases (find (has_attempt_id a) db.attempts)) [
        | inl f ↦ inl (ground arith, ground arith)
        | inr (attempt, f) ↦ elim (Bool-cases (is_too_long provider_id)) [
          | inl long ↦ inl (ground arith, ground arith)
          | inr short ↦ inr (
            attempt,
            record attempt { outcome = Outcome.published; completed_at = some now },
            record old {
              state = LifecycleState.published;
              provider_publication_id = provider_id;
              last_error_code = "";
              last_error_message = "";
            },
            f,
            refl,
            refl,
            refl,
            ground (arith, find_sound (is_row p) old db.publications e),
            (λ h. cc),
            ground arith,
            ground arith,
          )
        ]
      ]
    ]

retries_below :
    (m : ℕ) (e : Failure) (is_transient : Bool) (later : ℕ) (a : PublicationAttempt)
    (p : Publication)
    → is_scheduled
        (failed_publication (should_retry m is_transient a) e later a.attempt_number p).state
      ≡ true
    → ltb a.attempt_number m ≡ true
retries_below m e is_transient later a p h = ground arith

finish_failure-Effect :
    (m p a : ℕ) (e : Failure) (is_transient : Bool) (completed later : ℕ) (db : Db)
    → Effect m p a db (finish_failure m p a e is_transient completed later db).1
unfolding finish_failure
finish_failure-Effect m p a e is_transient completed later db =
    elim (Option-cases (find (is_row p) db.publications)) [
      | inl e' ↦ inl (ground arith, ground arith)
      | inr (old, e') ↦ elim (Option-cases (find (has_attempt_id a) db.attempts)) [
        | inl f ↦ inl (ground arith, ground arith)
        | inr (attempt, f) ↦ inr (
          attempt,
          failed_attempt (should_retry m is_transient attempt) e completed attempt,
          failed_publication (should_retry m is_transient attempt) e later attempt.attempt_number
              old,
          f,
          refl,
          refl,
          refl,
          ground (arith, find_sound (is_row p) old db.publications e'),
          retries_below m e is_transient later attempt old,
          ground arith,
          ground arith,
        )
      ]
    ]

pub settle-Effect :
    (m : ℕ) (run : Run) (p a : ℕ) (o : Delivered String) (db : Db)
    → Effect m p a db (settle m run p a o db).1
unfolding settle
settle-Effect m run p a (done x) db = finish_success-Effect m p a x run.completed db
settle-Effect m run p a (transient e) db =
    finish_failure-Effect m p a e true run.completed run.later db
settle-Effect m run p a (permanent e) db =
    finish_failure-Effect m p a e false run.completed run.later db
settle-Effect m run p a (uncaught e) db = inl (refl, refl)
