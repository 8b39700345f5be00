-- ===== src/Posts/Approve.antt =====
-- `approve_post` of relay/api/services.py.
use aleyacloud_relay.Base.{
  ℕ, true, false, ◌||◌, String, none, some, ◌≡◌, refl, ◌⊎◌, inl, inr, ap, ◌∙◌, arith, find, save,
  Option-cases, Bool-cases, find_sound, find-save,
}
use aleyacloud_relay.Models.Lifecycle.{LifecycleState, is_draft, is_pending_approval, is_approved}
use aleyacloud_relay.Models.Content.{Post}
use aleyacloud_relay.Store.{Db, Result, ok, raise, does_not_exist, invalid_state_transition}
use aleyacloud_relay.Posts.{in_scope, approve_post}

abbrev pub approved_post : Post → Post
approved_post p = record p { state = LifecycleState.approved }

-- How a call of `approve_post` ends.
abbrev pub ApproveOutcome : (id tenant brand : ℕ) (subject : String) → Db → Type 0
ApproveOutcome id tenant brand subject db =
    let out = approve_post id tenant brand subject db in
    ((find (in_scope id tenant brand) db.posts ≡ none) × (out ≡ (raise does_not_exist, db)))
    ⊎ ((p : Post) × (find (in_scope id tenant brand) db.posts ≡ some p)
        × (((is_approved p.state ≡ true) × (out ≡ (ok p, db)))
            ⊎ (((is_draft p.state || is_pending_approval p.state) ≡ true)
                × (out.0 ≡ ok (approved_post p))
                × (out.1.posts ≡ save (λ (x : Post). x.id) (approved_post p) db.posts))
            ⊎ (((is_approved p.state || (is_draft p.state || is_pending_approval p.state)) ≡ false)
                × (out ≡ (raise invalid_state_transition, db)))))

module _ (id tenant brand : ℕ) (subject : String) where
  -- Every outcome of `approve_post`: a post that the tenant and brand do not have is refused; one that
  -- is approved is returned and nothing is written; a draft, or one that waits for its approval, is
  -- stored as approved; any other state is an invalid transition. A refusal writes nothing.
  pub approve_post-outcome : (db : Db) → ApproveOutcome id tenant brand subject db
  unfolding approve_post
  approve_post-outcome db = elim (Option-cases (find (in_scope id tenant brand) db.posts)) [
    | inl missing ↦ inl (missing, ground arith)
    | inr (p, found) ↦ elim (Bool-cases (is_approved p.state)) [
      | inl e ↦ inr (p, found, inl (e, ground arith))
      | inr e ↦ elim (Bool-cases (is_draft p.state || is_pending_approval p.state)) [
        | inl e2 ↦ inr (p, found, inr (inl (e2, ground arith, ground arith)))
        | inr e2 ↦ inr (p, found, inr (inr (ground arith, ground arith)))
      ]
    ]
  ]

  approve_approved :
      (db : Db) (p : Post)
      → find (in_scope id tenant brand) db.posts ≡ some p
      → is_approved p.state ≡ true
      → approve_post id tenant brand subject db ≡ (ok p, db)
  unfolding approve_post
  approve_approved db p found e = ground arith

module _ (id tenant brand : ℕ) (subject : String) where
  -- A second approval, by whomever, returns the same post and writes nothing.
  approve_post_twice :
      (other : String) (db : Db) {p : Post}
      → (approve_post id tenant brand subject db).0 ≡ ok p
      → approve_post id tenant brand other (approve_post id tenant brand subject db).1
        ≡ (ok p, (approve_post id tenant brand subject db).1)
  approve_post_twice other db {p} h =
      let out : Result Post × Db = approve_post id tenant brand subject db in
      elim (approve_post-outcome id tenant brand subject db) [
        | inl (missing, e) ↦ ground arith
        | inr (q, found, inl (e, same)) ↦
            let q_is : q ≡ p = ground arith in
            rw same (approve_approved id tenant brand other db q found e)
            ∙ ap (λ (x : Post). let r : Result Post × Db = (ok x, out.1) in r) q_is
        | inr (q, found, inr (inl (e, result, posts))) ↦
            let q_is : approved_post q ≡ p = ground arith in
            let fits = find_sound (in_scope id tenant brand) q db.posts found in
            approve_approved id tenant brand other out.1 (approved_post q)
              (rw posts (
                find-save (in_scope id tenant brand) (λ (x : Post). x.id) q (approved_post q)
                  db.posts refl fits found))
              refl
            ∙ ap (λ (x : Post). let r : Result Post × Db = (ok x, out.1) in r) q_is
        | inr (q, found, inr (inr (e, same))) ↦ ground arith
      ]
