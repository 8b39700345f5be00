-- ===== src/Delivery/Dispatch.antt =====
-- `dispatch_due_publications` of relay/publications/tasks.py.
use aleyacloud_relay.Base.{
  ℕ, zero, suc, ◌≤◌, min, Bool, true, ◌&&◌, ◌||◌, List, [], ◌∷◌, map, ◌≡◌, refl, sym, arith, leb,
  ap, ◌∙◌, if◌then◌else◌, select, any, count, length,
}
use aleyacloud_relay.Models.Lifecycle.{is_scheduled}
use aleyacloud_relay.Models.Publications.{Publication}
use aleyacloud_relay.Store.{Db}
use aleyacloud_relay.Delivery.{publication_id}

-- `.order_by("scheduled_for")`
unfoldable pub insert_publication : Publication → List Publication → List Publication
insert_publication p [] = p ∷ []
insert_publication p (q ∷ qs) =
    if leb p.scheduled_for q.scheduled_for then p ∷ q ∷ qs else q ∷ insert_publication p qs

unfoldable pub sort_publications : List Publication → List Publication
sort_publications [] = []
sort_publications (p ∷ ps) = insert_publication p (sort_publications ps)

-- `[:n]`
unfoldable pub take {ℓ} : {A : Type ℓ} → ℕ → List A → List A
take ℕ.zero xs = []
take (ℕ.suc n) [] = []
take (ℕ.suc n) (x ∷ xs) = x ∷ take n xs

-- `dispatch_due_publications`: the ids for which it queues `publish_publication`.
unfoldable pub dispatch_due_publications : (now : ℕ) → Db → List ℕ
dispatch_due_publications now db = map publication_id (
    take 100 (
      sort_publications (
        select (λ (p : Publication). is_scheduled p.state && leb p.scheduled_for now)
          db.publications)))

abbrev pub due_now : ℕ → Publication → Bool
due_now now p = is_scheduled p.state && leb p.scheduled_for now

any-insert_publication :
    (q : Publication → Bool) (p : Publication) (ps : List Publication)
    → any q (insert_publication p ps) ≡ (q p || any q ps)
unfolding any insert_publication
any-insert_publication q p [] = refl
any-insert_publication q p (r ∷ rs) = ground (arith, any-insert_publication q p rs)

any-sort_publications :
    (q : Publication → Bool) (ps : List Publication) → any q (sort_publications ps) ≡ any q ps
unfolding any sort_publications
any-sort_publications q [] = refl
any-sort_publications q (p ∷ ps) =
    ground (arith, any-insert_publication q p (sort_publications ps), any-sort_publications q ps)

length-insert_publication :
    (p : Publication) (ps : List Publication) → length (insert_publication p ps) ≡ suc (length ps)
unfolding insert_publication
length-insert_publication p [] = refl
length-insert_publication p (r ∷ rs) = ground (arith, length-insert_publication p rs)

length-sort_publications : (ps : List Publication) → length (sort_publications ps) ≡ length ps
unfolding sort_publications
length-sort_publications [] = refl
length-sort_publications (p ∷ ps) =
    omega (arith, length-insert_publication p (sort_publications ps), length-sort_publications ps)

any-take :
    (q : Publication → Bool) (n : ℕ) (ps : List Publication)
    → any q (take n ps) ≡ true
    → any q ps ≡ true
unfolding any take
any-take q zero ps h = ground arith
any-take q (suc n) [] h = h
any-take q (suc n) (p ∷ ps) h = ground (arith, any-take q n ps)

take-all : (n : ℕ) (ps : List Publication) → length ps ≤ n → take n ps ≡ ps
unfolding take
take-all zero [] h = refl
take-all zero (p ∷ ps) h = absurd (omega arith)
take-all (suc n) [] h = refl
take-all (suc n) (p ∷ ps) h = ap (λ (x : List Publication). p ∷ x) (take-all n ps (omega arith))

length-take : (n : ℕ) (ps : List Publication) → length (take n ps) ≡ min n (length ps)
unfolding take
length-take zero ps = omega arith
length-take (suc n) [] = omega arith
length-take (suc n) (p ∷ ps) = omega (arith, length-take n ps)

length-select : (q : Publication → Bool) (ps : List Publication) → length (select q ps) ≡ count q ps
unfolding select count
length-select q [] = refl
length-select q (p ∷ ps) = ground (arith, length-select q ps)

length-ids : (ps : List Publication) → length (map publication_id ps) ≡ length ps
length-ids [] = refl
length-ids (p ∷ ps) = omega (arith, length-ids ps)

any-ids :
    (q : ℕ → Bool) (ps : List Publication) → any q (map publication_id ps) ≡ any (λ p. q p.id) ps
unfolding any
any-ids q [] = refl
any-ids q (p ∷ ps) = ground (arith, any-ids q ps)

any-select :
    (q r : Publication → Bool) (ps : List Publication)
    → any q (select r ps) ≡ any (λ p. r p && q p) ps
unfolding any select
any-select q r [] = refl
any-select q r (p ∷ ps) = ground (arith, any-select q r ps)

-- What `dispatch_due_publications` queues: only publications that are scheduled and whose time has come,
-- as many as there are but at most a hundred; and, where a hundred suffice, every such publication. This
-- is said of any test on ids.
pub dispatch_due_publications-due :
    (now : ℕ) (db : Db) (q : ℕ → Bool)
    → (any q (dispatch_due_publications now db) ≡ true
        → any (λ p. due_now now p && q p.id) db.publications ≡ true)
      × (length (dispatch_due_publications now db) ≡ min 100 (count (due_now now) db.publications))
      × (count (due_now now) db.publications ≤ 100
          → any q (dispatch_due_publications now db)
            ≡ any (λ p. due_now now p && q p.id) db.publications)
unfolding dispatch_due_publications
dispatch_due_publications-due now db q =
    let due = select (due_now now) db.publications in
    let sorted = sort_publications due in
    let found : any (λ p. q p.id) sorted ≡ any (λ p. due_now now p && q p.id) db.publications =
      any-sort_publications (λ p. q p.id) due
      ∙ any-select (λ p. q p.id) (due_now now) db.publications in
    let size : length sorted ≡ count (due_now now) db.publications =
      length-sort_publications due ∙ length-select (due_now now) db.publications in
    (
      (λ h. sym found ∙ any-take (λ p. q p.id) 100 sorted (sym (any-ids q (take 100 sorted)) ∙ h)),
      length-ids (take 100 sorted) ∙ length-take 100 sorted ∙ ap (min 100) size,
      (λ few.
          any-ids q (take 100 sorted)
          ∙ ap (any (λ p. q p.id)) (take-all 100 sorted (rw size few))
          ∙ found),
    )
