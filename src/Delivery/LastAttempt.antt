-- ===== src/Delivery/LastAttempt.antt =====
-- Who holds an attempt holds the last one of its publication, and the second transaction of
-- `publish_due_publication` (relay/publications/services.py) keeps the bound on the attempts.
use aleyacloud_relay.Base.{
  ℕ, ◌≤◌, ◌<◌, true, String, List, [], ◌∷◌, none, some, ◌≡◌, subst, ◌≢◌, inl, inr, ap, sym, ◌∙◌,
  arith, ltb, ltb→lt, ◌==◌, find, count, save, Bool-cases, find_sound, find-save, find-save-none,
  find-save_other, find-save_key,
}
use aleyacloud_relay.Models.Lifecycle.{is_scheduled}
use aleyacloud_relay.Models.Publications.{Publication, PublicationAttempt}
use aleyacloud_relay.Delivery.{is_attempt_of, publication_id, attempt_id, Delivered, Run, settle}
use aleyacloud_relay.Delivery.Claim.{is_waiting}
use aleyacloud_relay.Delivery.Workers.{World, holds, release, run}
use aleyacloud_relay.Delivery.Saves.{is_row}
use aleyacloud_relay.Delivery.Exclusion.{held}
use aleyacloud_relay.Delivery.Attempts.{
  has_attempt_id, Keyed, Keyed-save, count-save, settle-Effect,
}

-- A worker that holds an attempt of `j` holds the last one of them.
abbrev pub HoldsLast : (j : ℕ) → List (ℕ × ℕ) → List PublicationAttempt → Type 0
HoldsLast j xs attempts =
    (a : ℕ)
    → holds xs j a ≡ true
    → (row : PublicationAttempt) × (find (has_attempt_id a) attempts ≡ some row)
      × (row.publication ≡ j)
      × (count (is_attempt_of j) attempts ≤ row.attempt_number)

-- The publication `j` has at most `m` attempts, and fewer while it waits for one more.
abbrev pub Bounds : (m j : ℕ) → List (ℕ × ℕ) → List Publication → List PublicationAttempt → Type 0
Bounds m j xs publications attempts =
    Keyed attempts
    × (count (is_attempt_of j) attempts ≤ m)
    × (find (is_waiting j) publications ≢ none → count (is_attempt_of j) attempts < m)
    × (0 < count (is_attempt_of j) attempts → find (is_row j) publications ≢ none)
    × HoldsLast j xs attempts

abbrev pub IsBounded : (m j : ℕ) → World → Type 0
IsBounded m j w = Bounds m j w.inflight w.db.publications w.db.attempts

pub holds-held : (j a : ℕ) (xs : List (ℕ × ℕ)) → holds xs j a ≡ true → 0 < held j xs
unfolding holds held
holds-held j a [] h = ground arith
holds-held j a ((q, b) ∷ xs) h = ground (arith, holds-held j a xs)

pub holds-release :
    (p a j b : ℕ) (xs : List (ℕ × ℕ)) → holds (release xs p a) j b ≡ true → holds xs j b ≡ true
unfolding holds release
holds-release p a j b [] h = ground arith
holds-release p a j b ((q, c) ∷ xs) h = ground (arith, holds-release p a j b xs)

-- What the saved row of the attempt keeps for those who hold attempts of `j`.
HoldsLast-save :
    (j a : ℕ) (old row : PublicationAttempt) (xs : List (ℕ × ℕ))
    (attempts : List PublicationAttempt)
    → Keyed attempts
    → find (has_attempt_id a) attempts ≡ some old
    → row.id ≡ old.id
    → row.publication ≡ old.publication
    → row.attempt_number ≡ old.attempt_number
    → HoldsLast j xs attempts
    → HoldsLast j xs (save attempt_id row attempts)
HoldsLast-save j a old row xs attempts keyed found i p n last b h =
    let (r, f, q, few) = last b h in
    let fits = find_sound (has_attempt_id a) old attempts found in
    let i' : row.id ≡ a = ground arith in
    let size =
      count-save j old row attempts keyed
        (subst (λ (x : ℕ). find (has_attempt_id x) attempts ≡ some old) (sym i') found) p in
    elim (Bool-cases (b == a)) [
      | inl here ↦
          let here' : a ≡ b = ground arith in
          let found_b =
            subst (λ (x : ℕ). find (has_attempt_id x) attempts ≡ some old) here' found in
          let same : r ≡ old = ground arith in
          (
            row,
            find-save (has_attempt_id b) attempt_id old row attempts i (ground arith) found_b,
            ground arith,
            ground (arith, size, few),
          )
      | inr away ↦ (
        r,
        find-save_other (has_attempt_id b) attempt_id row attempts (λ x k. ground arith) ∙ f,
        q,
        omega (arith, size, few),
      )
    ]

-- A publication that waits after an outcome has an attempt left.
waits_below :
    (m j p a : ℕ) (old : PublicationAttempt) (prow : Publication) (xs : List (ℕ × ℕ))
    (publications : List Publication) (attempts : List PublicationAttempt)
    → prow.id ≡ p
    → (is_scheduled prow.state ≡ true → ltb old.attempt_number m ≡ true)
    → holds xs p a ≡ true
    → find (has_attempt_id a) attempts ≡ some old
    → HoldsLast j xs attempts
    → (find (is_waiting j) publications ≢ none → count (is_attempt_of j) attempts < m)
    → find (is_waiting j) (save publication_id prow publications) ≢ none
    → count (is_attempt_of j) attempts < m
waits_below m j p a old prow xs publications attempts here below h found last waits waiting =
    elim (Bool-cases (j == p)) [
      | inl same ↦ elim (Bool-cases (is_scheduled prow.state)) [
        | inl scheduled ↦
            let same' : p ≡ j = ground arith in
            let (r, f, q, few) = last a (subst (λ (x : ℕ). holds xs x a ≡ true) same' h) in
            let r_is : r ≡ old = ground arith in
            let number = ap (λ (x : PublicationAttempt). x.attempt_number) r_is in
            omega (arith, few, number, ltb→lt old.attempt_number m (below scheduled))
        | inr done_ ↦ absurd (
            waiting (
              find-save-none (is_waiting j) publication_id prow publications (ground arith)
                (λ x k. ground arith)))
      ]
      | inr away ↦ waits (λ e. waiting (
          find-save_other (is_waiting j) publication_id prow publications (λ x k. ground arith)
          ∙ e))
    ]

pub settles-Bounds :
    (m j : ℕ) (run : Run) (p a : ℕ) (o : Delivered String) (w : World)
    → IsBounded m j w
    → holds w.inflight p a ≡ true
    → Bounds m j
        (release w.inflight p a)
        (settle m run p a o w.db).1.publications
        (settle m run p a o w.db).1.attempts
settles-Bounds m j run p a o w (keyed, few, waits, rows, last) h =
    let released : HoldsLast j (release w.inflight p a) w.db.attempts =
      (λ b k. last b (holds-release p a j b w.inflight k)) in
    elim (settle-Effect m run p a o w.db) [
      | inl (pubs, attempts) ↦ rw (pubs, attempts) (keyed, few, waits, rows, released)
      | inr (old, arow, prow, found, i, pub_, n, here, below, pubs, attempts) ↦
          let fits = find_sound (has_attempt_id a) old w.db.attempts found in
          let i' : arow.id ≡ a = ground arith in
          let size =
            count-save j old arow w.db.attempts keyed
              (subst (λ (x : ℕ). find (has_attempt_id x) w.db.attempts ≡ some old) (sym i') found)
              pub_ in
          rw (pubs, attempts)
            (
              Keyed-save arow w.db.attempts keyed,
              omega (arith, size, few),
              (λ waiting. rw size (
                  waits_below m j p a old prow w.inflight w.db.publications w.db.attempts here below
                    h found last waits waiting)),
              (λ pos.
                  find-save_key publication_id j prow w.db.publications
                    (rows (omega (arith, size, pos)))),
              HoldsLast-save j a old arow (release w.inflight p a) w.db.attempts keyed found i pub_
                  n released,
            )
    ]
