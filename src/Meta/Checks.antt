-- ===== src/Meta/Checks.antt =====
-- Calls of `MetaPublishingClient` (relay/social/publishing.py) that publish only finished containers.
use aleyacloud_relay.Base.{
  ℕ, zero, suc, Bool, true, false, ◌&&◌, ◌||◌, String, str_eq, eq_refl, [], ◌∷◌, Option, none, some,
  ◌≡◌, refl, inl, inr, arith, Option-cases, Bool-cases,
}
use aleyacloud_relay.Meta.{
  Edge, Fields, Request, Payload, Reply, Trace, Server, Attempt, done, transient, permanent, Http,
  ◌>>=◌, id_of, read_status, send, on_status, wait_rounds,
}

-- The container that a request publishes.
abbrev pub publishes : Request → Option String
publishes (Request.post account Edge.media_publish (Fields.creation c) token) = some c
publishes (Request.post account Edge.media_publish _ token) = none
publishes (Request.post account _ fields token) = none
publishes (Request.status c token) = none

abbrev pub says_finished : Attempt String → Bool
says_finished (done code) = str_eq code "FINISHED"
says_finished (transient e) = false
says_finished (permanent e) = false

-- Whether the server has reported the container as FINISHED.
unfoldable pub finished : String → Trace → Bool
finished c [] = false
finished c ((Request.post account edge fields token, reply) ∷ t) = finished c t
finished c ((Request.status d token, reply) ∷ t) =
    str_eq d c && says_finished (read_status reply) || finished c t

abbrev Allowed : Option String → Trace → Type 0
Allowed none t = Unit
Allowed (some c) t = finished c t ≡ true

-- Every container that the trace publishes had been reported as FINISHED before.
abbrev pub Checked : Trace → Type 0
Checked [] = Unit
Checked ((request, reply) ∷ t) = Allowed (publishes request) t × Checked t

-- A call that keeps the trace so.
abbrev pub Keeps : {A : Type 0} → Http A → Type 0
Keeps m = (t : Trace) → Checked t → Checked (m t).1

pub bind_rest :
    {A B : Type 0} (f : A → Http B) (r : Attempt A) (t : Trace)
    → ((a : A) → Keeps (f a))
    → Checked t
    → Checked (((λ _. (r, t)) >>= f) t).1
bind_rest f (done a) t kf h = kf a t h
bind_rest f (transient e) t kf h = h
bind_rest f (permanent e) t kf h = h

pub >>=-Keeps :
    {A B : Type 0} (m : Http A) (f : A → Http B)
    → Keeps m
    → ((a : A) → Keeps (f a))
    → Keeps (m >>= f)
>>=-Keeps m f km kf t h = bind_rest f (m t).0 (m t).1 kf (km t h)

pub id_of-Keeps : (p : Payload) → Keeps (id_of p)
unfolding id_of
id_of-Keeps p t h = elim (Option-cases p.id) [
  | inl e ↦ rw (e, id_of) h
  | inr (v, e) ↦ rw (e, id_of) h
]

-- A call after which the container has been reported as FINISHED.
abbrev pub Finishes : String → Http (Unit {0}) → Type 0
Finishes c m = (t : Trace) → (m t).0 ≡ done tt → finished c (m t).1 ≡ true

on_status-Keeps :
    (again : Http (Unit {0})) (code : String) → Keeps again → Keeps (on_status again code)
unfolding on_status
on_status-Keeps again code ka t h = elim (Bool-cases (str_eq code "FINISHED")) [
  | inl e ↦ rw (e, on_status) h
  | inr e ↦ elim (Bool-cases (str_eq code "ERROR" || str_eq code "EXPIRED")) [
    | inl f ↦ rw (e, on_status) (rw (f, on_status) h)
    | inr f ↦ rw (e, on_status) (rw (f, on_status) (ka t h))
  ]
]

on_status-Finishes :
    (c : String) (again : Http (Unit {0})) (code : String) (t : Trace)
    → Finishes c again
    → (str_eq code "FINISHED" ≡ true → finished c t ≡ true)
    → (on_status again code t).0 ≡ done tt
    → finished c (on_status again code t).1 ≡ true
unfolding on_status
on_status-Finishes c again code t fa now h = ground (arith, now, fa t)

module _ (server : Server) where
  pub wait_rounds-Keeps : (n : ℕ) (c token : String) → Keeps (wait_rounds server n c token)
  unfolding wait_rounds
  wait_rounds-Keeps zero c token = λ t h. h
  wait_rounds-Keeps (suc n) c token =
      >>=-Keeps (send server read_status (Request.status c token))
        (on_status (wait_rounds server n c token)) (λ t h. (tt, h))
        (λ code. on_status-Keeps (wait_rounds server n c token) code (wait_rounds-Keeps n c token))

  -- One round, by what the reply says.
  round-Finishes :
      (c token : String) (again : Http (Unit {0})) (t : Trace) (reply : Reply) (r : Attempt String)
      → read_status reply ≡ r
      → Finishes c again
      → (((λ _. (r, (Request.status c token, reply) ∷ t)) >>= on_status again) t).0 ≡ done tt
      → finished c (((λ _. (r, (Request.status c token, reply) ∷ t)) >>= on_status again) t).1
        ≡ true
  unfolding finished
  round-Finishes c token again t reply (done code) e fa h =
      on_status-Finishes c again code ((Request.status c token, reply) ∷ t) fa
        (λ over. rw (eq_refl c, e, over)) h
  round-Finishes c token again t reply (transient x) e fa h = cc
  round-Finishes c token again t reply (permanent x) e fa h = cc

  -- The wait returns only where the server has said FINISHED.
  pub wait_rounds-Finishes : (n : ℕ) (c token : String) → Finishes c (wait_rounds server n c token)
  unfolding wait_rounds
  wait_rounds-Finishes zero c token t h = cc
  wait_rounds-Finishes (suc n) c token t h =
      let request : Request = Request.status c token in
      round-Finishes c token (wait_rounds server n c token) t (server t request) _ refl
        (wait_rounds-Finishes n c token) h

finish_rest :
    {B : Type 0} (c : String) (f : Unit {0} → Http B) (r : Attempt (Unit {0})) (t : Trace)
    → Checked t
    → (r ≡ done tt → finished c t ≡ true)
    → ((t : Trace) → Checked t → finished c t ≡ true → Checked (f tt t).1)
    → Checked (((λ _. (r, t)) >>= f) t).1
finish_rest c f (done tt) t h over kf = kf t h (over refl)
finish_rest c f (transient e) t h over kf = h
finish_rest c f (permanent e) t h over kf = h

-- What follows the wait may rely on the report.
pub >>=-Finishes :
    {B : Type 0} (c : String) (m : Http (Unit {0})) (f : Unit {0} → Http B)
    → Keeps m
    → Finishes c m
    → ((t : Trace) → Checked t → finished c t ≡ true → Checked (f tt t).1)
    → Keeps (m >>= f)
>>=-Finishes c m f km over kf t h = finish_rest c f (m t).0 (m t).1 (km t h) (over t) kf
