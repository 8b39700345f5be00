-- ===== src/Delivery/Bound.antt =====
-- A publication is attempted at most RELAY_PUBLICATION_MAX_ATTEMPTS times, by all the workers that run
-- `publish_due_publication` (relay/publications/services.py) together.
use aleyacloud_relay.Base.{
  ℕ, zero, suc, ◌+◌, ◌≤◌, ◌<◌, false, ◌&&◌, ◌||◌, List, [], ◌∷◌, Option, none, some, ◌≡◌, refl,
  subst, ◌≢◌, inl, inr, ap, ◌∙◌, arith, ◌==◌, find, count, Bool-cases, find_sound, find-save_other,
  find-save_key, find-weaken, exists-find,
}
use aleyacloud_relay.Models.Publications.{Publication, PublicationAttempt}
use aleyacloud_relay.Store.{Db, Result, ok, raise}
use aleyacloud_relay.Posts.{Payload, request_fingerprint}
use aleyacloud_relay.Scheduling.{
  ScheduleRequest, schedule_entries, has_publication_key, new_publication, schedule_publication,
}
use aleyacloud_relay.Scheduling.Idempotency.{schedule-Ends}
use aleyacloud_relay.Delivery.{is_due, claim, is_attempt_of, publication_id}
use aleyacloud_relay.Delivery.Claim.{
  claim-Claimed, is_waiting, claim_not_waiting, claim_nothing, claim_waiting,
}
use aleyacloud_relay.Delivery.Workers.{World, idle, Event, holds, take_hold, step, run}
use aleyacloud_relay.Delivery.Saves.{is_row}
use aleyacloud_relay.Delivery.Exclusion.{IsExclusive, idle-IsExclusive, step-IsExclusive}
use aleyacloud_relay.Delivery.Attempts.{has_attempt_id}
use aleyacloud_relay.Delivery.LastAttempt.{
  Bounds, IsBounded, holds-release, holds-held, settles-Bounds,
}

holds_nothing :
    (j b : ℕ) (w : World)
    → IsExclusive j w
    → find (is_waiting j) w.db.publications ≢ none
    → holds w.inflight j b ≡ false
holds_nothing j b w v waiting = elim (Bool-cases (holds w.inflight j b)) [
  | inl h ↦
      let some_held = holds-held j b w.inflight h in
      absurd (waiting (v.1 (omega (arith, some_held))).0)
  | inr h ↦ h
]

-- A claim of `j` itself.
claim_own :
    (m j : ℕ) (w : World) (p : Publication) (a : PublicationAttempt) (pubs : List Publication)
    → IsBounded m j w
    → IsExclusive j w
    → find (is_waiting j) w.db.publications ≢ none
    → find (is_waiting j) pubs ≡ none
    → find (is_row j) pubs ≢ none
    → find (has_attempt_id a.id) w.db.attempts ≡ none
    → a.publication ≡ j
    → a.attempt_number ≡ count (is_attempt_of j) w.db.attempts + 1
    → p.id ≡ j
    → Bounds m j ((p.id, a.id) ∷ w.inflight) pubs (a ∷ w.db.attempts)
unfolding count find holds
claim_own m j w p a pubs (keyed, few, waits, rows, last) v waiting quiet row fresh own number here =
    let size : count (is_attempt_of j) (a ∷ w.db.attempts)
        ≡ suc (count (is_attempt_of j) w.db.attempts) =
      ground arith in
    (
      (fresh, keyed),
      omega (arith, size, waits waiting),
      (λ q. absurd (q quiet)),
      (λ _. row),
      (λ b h.
          let free = holds_nothing j b w v waiting in
          (a, ground arith, own, omega (arith, size, number))),
    )

-- A row that is found keeps its place before a row with a new id.
find_other :
    (b : ℕ) (a : PublicationAttempt) (xs : List PublicationAttempt) {r : PublicationAttempt}
    → find (has_attempt_id b) xs ≡ some r
    → find (has_attempt_id a.id) xs ≡ none
    → find (has_attempt_id b) (a ∷ xs) ≡ some r
unfolding find
find_other b a xs f fresh = elim (Bool-cases (a.id == b)) [
  | inl here ↦
      let here' : a.id ≡ b = ground arith in
      let fresh_b = subst (λ (x : ℕ). find (has_attempt_id x) xs ≡ none) here' fresh in cc
  | inr away ↦ ground arith
]

-- A claim of another publication.
claim_other :
    (m j : ℕ) (w : World) (p : Publication) (a : PublicationAttempt) (pubs : List Publication)
    → IsBounded m j w
    → find (is_waiting j) pubs ≡ find (is_waiting j) w.db.publications
    → (find (is_row j) w.db.publications ≢ none → find (is_row j) pubs ≢ none)
    → find (has_attempt_id a.id) w.db.attempts ≡ none
    → a.publication ≢ j
    → p.id ≢ j
    → Bounds m j ((p.id, a.id) ∷ w.inflight) pubs (a ∷ w.db.attempts)
unfolding count find holds
claim_other m j w p a pubs (keyed, few, waits, rows, last) quiet row fresh other away =
    let size : count (is_attempt_of j) (a ∷ w.db.attempts) ≡ count (is_attempt_of j) w.db.attempts =
      ground arith in
    (
      (fresh, keyed),
      omega (arith, size, few),
      (λ q. omega (arith, size, waits (λ e. q (quiet ∙ e)))),
      (λ pos. row (rows (omega (arith, size, pos)))),
      (λ b h.
          let (r, f, q, less) = last b (ground arith) in
          (r, ground (arith, find_other b a w.db.attempts), q, omega (arith, size, less))),
    )

claims-Bounds :
    (m id now new_id j : ℕ) (w : World)
    → IsBounded m j w
    → IsExclusive j w
    → (r : Result (Option (Publication × PublicationAttempt))) → (claim id now new_id w.db).0 ≡ r
    → Bounds m j
        (take_hold w.inflight r)
        (claim id now new_id w.db).1.publications
        (claim id now new_id w.db).1.attempts
unfolding take_hold
claims-Bounds m id now new_id j w b v (raise e) h =
    rw (claim_nothing id now new_id w.db (λ p a k. cc)) b
claims-Bounds m id now new_id j w b v (ok none) h =
    rw (claim_nothing id now new_id w.db (λ p a k. cc)) b
claims-Bounds m id now new_id j w b v (ok (some (p, a))) h =
    let (old, (found, e, e', clash, after)) = claim-Claimed id now new_id w.db h in
    let due = find_sound (is_due id now) old w.db.publications found in
    let pubs = ap (λ (x : Db). x.publications) after in
    let attempts = ap (λ (x : Db). x.attempts) after in
    let waiting = claim_waiting id now new_id w.db h in
    let quiet = claim_not_waiting id now new_id w.db h in
    let row : find (is_row id) w.db.publications ≢ none = (λ f.
      waiting
        (find-weaken (is_waiting id) (is_row id) w.db.publications (λ x k. ground arith) f)) in
    let fresh : find (has_attempt_id a.id) w.db.attempts ≡ none =
      exists-find
        (λ (x : PublicationAttempt).
          x.id == a.id || (x.publication == a.publication && x.attempt_number == a.attempt_number))
        (has_attempt_id a.id) w.db.attempts (λ x k. ground arith) clash in
    elim (Bool-cases (j == id)) [
      | inl here ↦
          let same : id ≡ j = ground arith in
          rw attempts (
            claim_own m j w p a (claim id now new_id w.db).1.publications b v
              (subst (λ (x : ℕ). find (is_waiting x) w.db.publications ≢ none) same waiting)
              (subst
                (λ (x : ℕ). find (is_waiting x) (claim id now new_id w.db).1.publications ≡ none)
                same quiet)
              (rw pubs (
                find-save_key publication_id j p w.db.publications
                  (subst (λ (x : ℕ). find (is_row x) w.db.publications ≢ none) same row)))
              fresh (ground arith)
              (subst (λ (x : ℕ). a.attempt_number ≡ count (is_attempt_of x) w.db.attempts + 1) same
                (ap (λ (x : PublicationAttempt). x.attempt_number) e'))
              (ground arith))
      | inr away ↦ rw attempts (
          claim_other m j w p a (claim id now new_id w.db).1.publications b
            (ap (find (is_waiting j)) pubs
              ∙ find-save_other (is_waiting j) publication_id p w.db.publications
                  (λ x k. ground arith))
            (λ q. rw pubs (find-save_key publication_id j p w.db.publications q)) fresh
            (λ q. ground arith) (λ q. ground arith))
    ]

-- Where the publication is not there it has no attempts.
no_attempts : (c : ℕ) (row : Option Publication) → (0 < c → row ≢ none) → row ≡ none → c ≡ 0
no_attempts zero row rows h = refl
no_attempts (suc c) row rows h = absurd (rows (omega arith) h)

schedules-Bounds :
    (sha256 : Payload → ℕ) (q : ScheduleRequest) (id m j : ℕ) (xs : List (ℕ × ℕ)) (db : Db)
    → 1 ≤ m
    → Bounds m j xs db.publications db.attempts
    → Bounds m j xs
        (schedule_publication sha256 q id (λ x. x) db).1.publications
        (schedule_publication sha256 q id (λ x. x) db).1.attempts
unfolding find
schedules-Bounds sha256 q id m j xs db positive b =
    let p : Publication = new_publication (request_fingerprint sha256 (schedule_entries q)) q id in
    let (keyed, few, waits, rows, last) = b in
    elim (schedule-Ends sha256 q id (λ x. x) db) [
      | inl (existing, found, e) ↦
          let same : (schedule_publication sha256 q id (λ x. x) db).1 ≡ db = ground (arith, e) in
          rw same b
      | inr (missing, inl (x, e)) ↦ rw e b
      | inr (missing, inr (fits, fresh, e)) ↦ rw e (
        keyed,
        few,
        (λ waiting. elim (Bool-cases (id == j)) [
          | inr away ↦ waits (λ none_waits. waiting (ground arith))
          | inl here ↦
              let unknown =
                exists-find
                  (λ (x : Publication).
                    x.id == id || has_publication_key q.tenant q.idempotency_key x)
                  (is_row j) db.publications (λ x k. ground arith) fresh in
              omega (
                arith,
                no_attempts (count (is_attempt_of j) db.attempts) (find (is_row j) db.publications)
                    rows unknown,
              )
        ]),
        (λ pos f. rows pos (ground arith)),
        last,
      )
    ]

start-Bounds :
    (m j : ℕ) (publications : List Publication) (attempts : List PublicationAttempt)
    → 1 ≤ m
    → attempts ≡ []
    → Bounds m j [] publications attempts
unfolding count holds
start-Bounds m j publications [] positive e =
    (tt, omega arith, (λ _. positive), (λ pos. absurd (omega arith)), (λ a h. ground arith))
start-Bounds m j publications (a ∷ attempts) positive e = cc

module _ (sha256 : Payload → ℕ) (m : ℕ) where
  step-IsBounded :
      (j : ℕ) (w : World) (e : Event)
      → 1 ≤ m
      → IsBounded m j w
      → IsExclusive j w
      → IsBounded m j (step sha256 m w e)
  unfolding step
  step-IsBounded j w (Event.claims id now new_id) positive b v =
      claims-Bounds m id now new_id j w b v _ refl
  step-IsBounded j w (Event.settles run p a o) positive b v =
      elim (Bool-cases (holds w.inflight p a)) [
        | inl held_now ↦ rw (held_now, step) (settles-Bounds m j run p a o w b held_now)
        | inr free ↦ rw (free, step) b
      ]
  step-IsBounded j w (Event.crashes p a) positive (keyed, few, waits, rows, last) v =
      (keyed, few, waits, rows, (λ b h. last b (holds-release p a j b w.inflight h)))
  step-IsBounded j w (Event.schedules q id) positive b v =
      schedules-Bounds sha256 q id m j w.inflight w.db positive b

  run-IsBounded :
      (j : ℕ) (w : World) (es : List Event)
      → 1 ≤ m
      → IsBounded m j w
      → IsExclusive j w
      → IsBounded m j (run sha256 m w es)
  unfolding run
  run-IsBounded j w [] positive b v = b
  run-IsBounded j w (e ∷ es) positive b v =
      run-IsBounded j (step sha256 m w e) es positive (step-IsBounded j w e positive b v)
        (step-IsExclusive sha256 m j w e v)

  -- From a database without attempts in which no worker is at work, whatever the order in which any
  -- number of workers claim, settle and crash while publications are scheduled: no publication ever
  -- has more attempts than the maximum, if that is at least one.
  pub attempts_bounded :
      (db : Db) (es : List Event) (j : ℕ)
      → 1 ≤ m
      → db.attempts ≡ []
      → count (is_attempt_of j) (run sha256 m (idle db) es).db.attempts ≤ m
  attempts_bounded db es j positive fresh =
      (run-IsBounded j (idle db) es positive
        (start-Bounds m j db.publications db.attempts positive fresh) (idle-IsExclusive db j)).1
