-- ===== src/Delivery/Claim.antt =====
-- The first transaction of `publish_due_publication` (relay/publications/services.py).
use aleyacloud_relay.Base.{
  ℕ, ◌+◌, Bool, false, ◌&&◌, ◌∷◌, none, some, ◌≡◌, inl, inr, ap, ◌∙◌, arith, ◌==◌, find, count,
  save, Option-cases, find_sound, find-save-none, find-weaken, ◌≢◌,
}
use aleyacloud_relay.Models.Lifecycle.{is_scheduled}
use aleyacloud_relay.Models.Publications.{Publication, PublicationAttempt}
use aleyacloud_relay.Store.{Db, ok}
use aleyacloud_relay.Delivery.{
  is_due, claim, claimed, first_attempt, attempt_clash, is_attempt_of, publication_id,
}

-- What a claim that goes through has found and written.
abbrev pub Claimed :
    (id now new_id : ℕ) (before after : Db)
    → Publication
    → PublicationAttempt
    → Publication
    → Type 0
Claimed id now new_id before after p a old =
    (find (is_due id now) before.publications ≡ some old)
    × (p ≡ claimed old)
    × (a ≡ first_attempt new_id (count (is_attempt_of id) before.attempts + 1) now old)
    × (attempt_clash a before ≡ false)
    × (after ≡ record before {
      publications = save publication_id p before.publications;
      attempts = a ∷ before.attempts;
    })

pub claim-Claimed :
    (id now new_id : ℕ) (db : Db) {p : Publication} {a : PublicationAttempt}
    → (claim id now new_id db).0 ≡ ok (some (p, a))
    → (old : Publication) × Claimed id now new_id db (claim id now new_id db).1 p a old
unfolding claim
claim-Claimed id now new_id db h = elim (Option-cases (find (is_due id now) db.publications)) [
  | inl e ↦ ground arith
  | inr (old, e) ↦ (old, ground (arith, find_sound (is_due id now) old db.publications e))
]

-- No row of the publication is left in the state SCHEDULED.
abbrev pub is_waiting : ℕ → Publication → Bool
is_waiting id p = p.id == id && is_scheduled p.state

pub claim_not_waiting :
    (id now new_id : ℕ) (db : Db) {p : Publication} {a : PublicationAttempt}
    → (claim id now new_id db).0 ≡ ok (some (p, a))
    → find (is_waiting id) (claim id now new_id db).1.publications ≡ none
claim_not_waiting id now new_id db {p} {a} h =
    let (old, (found, e, _, _, after)) = claim-Claimed id now new_id db h in
    ap (λ (x : Db). find (is_waiting id) x.publications) after
    ∙ find-save-none (is_waiting id) publication_id p db.publications (ground arith)
        (λ x w. ground (arith, find_sound (is_due id now) old db.publications found))

-- A claim that hands out nothing writes nothing.
pub claim_nothing :
    (id now new_id : ℕ) (db : Db)
    → ((p : Publication) (a : PublicationAttempt) → (claim id now new_id db).0 ≢ ok (some (p, a)))
    → (claim id now new_id db).1 ≡ db
unfolding claim
claim_nothing id now new_id db h = elim (Option-cases (find (is_due id now) db.publications)) [
  | inl e ↦ ground arith
  | inr (old, e) ↦
      let a : PublicationAttempt =
        first_attempt new_id (count (is_attempt_of old.id) db.attempts + 1) now old in
      ground (arith, h (claimed old) a)
]

-- What is claimed was waiting.
pub claim_waiting :
    (id now new_id : ℕ) (db : Db) {p : Publication} {a : PublicationAttempt}
    → (claim id now new_id db).0 ≡ ok (some (p, a))
    → find (is_waiting id) db.publications ≢ none
claim_waiting id now new_id db h e =
    let (old, (found, _, _, _, _)) = claim-Claimed id now new_id db h in
    let quiet =
      find-weaken (is_due id now) (is_waiting id) db.publications (λ x d. ground arith) e in
    cc
