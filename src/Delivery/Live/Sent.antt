-- ===== src/Delivery/Live/Sent.antt =====
-- What stands behind a publication that `publish_due_publication` (relay/publications/services.py)
-- records as PUBLISHED, from the stored rows to the requests to Meta.
use aleyacloud_relay.Base.{
  ℕ, ◌+◌, ◌≤◌, true, false, ◌&&◌, ◌∷◌, String, List, [], map, Option, none, some, ◌≡◌, refl, ◌∙◌,
  sym, ap, inl, inr, arith, ◌==◌, leb, find, count, length, save, Option-cases, Bool-cases,
}
use aleyacloud_relay.Models.Lifecycle.{LifecycleState}
use aleyacloud_relay.Models.Content.{PostVariant, MediaAsset}
use aleyacloud_relay.Models.Social.{ChannelConnection}
use aleyacloud_relay.Models.Publications.{Publication, PublicationAttempt}
use aleyacloud_relay.Store.{Error, Db, Result, ok, raise}
use aleyacloud_relay.Storage.{publishable_image_url}
use aleyacloud_relay.Crypto.{decrypt_token}
use aleyacloud_relay.Meta
use aleyacloud_relay.Meta.{Attempt, publish_images}
use aleyacloud_relay.Meta.Checks.{Checked}
use aleyacloud_relay.Meta.Finished.{publish_images_checks}
use aleyacloud_relay.Meta.Requests.{publish_images-most_requests}
use aleyacloud_relay.Media.{variant_assets, ordered_media_assets}
use aleyacloud_relay.Delivery.{
  PublishResult, Delivered, done, transient, permanent, uncaught, ◌>>=ᵈ◌, urls, Provider, Run,
  is_due, is_attempt_of, attempt_clash, publication_id, deliver, publish_due_publication,
}
use aleyacloud_relay.Delivery.Outcomes.{
  by_id, attempt_by_id, held_publication, held_attempt, is_over_long, outcome_publication,
  outcome_result, publish_due_publication-outcome,
}
use aleyacloud_relay.Delivery.Live.{
  Production, or_permanent, url_of, delivered, publish_connection, live,
}

>>=-done :
    {A B : Type 0} (d : Delivered A) (f : A → Delivered B) {b : B}
    → (d >>=ᵈ f) ≡ done b
    → (a : A) × (d ≡ done a) × (f a ≡ done b)
>>=-done (done a) f h = (a, refl, h)
>>=-done (transient e) f h = ground arith
>>=-done (permanent e) f h = ground arith
>>=-done (uncaught e) f h = ground arith

or_permanent-done :
    {A B : Type 0} (code : String) (describe : Error → String) (f : A → B) (r : Result A) {b : B}
    → or_permanent code describe f r ≡ done b
    → (a : A) × (r ≡ ok a) × (f a ≡ b)
or_permanent-done code describe f (ok a) h = (a, refl, ground arith)
or_permanent-done code describe f (raise e) h = ground arith

url_of-done : (o : Option (List ℕ)) {u : List ℕ} → url_of o ≡ done u → o ≡ some u
unfolding url_of
url_of-done none h = ground arith
url_of-done (some u) h = ground arith

delivered-done : (r : Attempt String) {id : String} → delivered r ≡ done id → r ≡ Meta.done id
unfolding delivered
delivered-done (Meta.done x) h = ground arith
delivered-done (Meta.transient x) h = ground arith
delivered-done (Meta.permanent x) h = ground arith

urls-done :
    (url : MediaAsset → Option (List ℕ)) (media : List MediaAsset) {us : List (List ℕ)}
    → urls (λ a. url_of (url a)) media ≡ done us
    → map url media ≡ map some us
unfolding urls
urls-done url [] h = ground arith
urls-done url (a ∷ as') {us} h =
    let (u, one, rest) =
      >>=-done (url_of (url a)) (λ u. urls (λ a. url_of (url a)) as' >>=ᵈ λ us. done (u ∷ us)) h in
    let (vs, others, end) = >>=-done (urls (λ a. url_of (url a)) as') (λ us. done (u ∷ us)) rest in
    let head = url_of-done (url a) one in
    let tail = urls-done url as' others in
    let same : (u ∷ vs) ≡ us = ground arith in rw (← same) (rw (head, tail) refl)

deliver-done :
    (provider : Provider) (p : Publication) (db : Db) {id : String}
    → deliver provider p db ≡ done id
    → (v : PostVariant) × (c : ChannelConnection) × (find
          (λ (v : PostVariant). v.id == p.post_variant)
          db.variants
        ≡ some v)
      × (find (λ (c : ChannelConnection). c.id == p.channel_connection) db.connections ≡ some c)
      × (leb 1 (length (ordered_media_assets v db)) && leb (length (ordered_media_assets v db)) 10
          ≡ true)
      × ((provider.client >>=ᵈ λ _. provider.decrypt_token c.encrypted_access_token >>=ᵈ λ token.
            urls provider.publishable_image_url (ordered_media_assets v db) >>=ᵈ λ image_urls.
            provider.publish_images c token v.body image_urls)
          ≡ done id)
unfolding deliver
deliver-done provider p db h =
    elim (Option-cases (find (λ (v : PostVariant). v.id == p.post_variant) db.variants)) [
      | inl missing ↦ ground arith
      | inr (v, found) ↦
          elim (Option-cases
            (find (λ (c : ChannelConnection). c.id == p.channel_connection) db.connections)) [
              | inl missing ↦ ground arith
              | inr (c, found') ↦
                  elim (Bool-cases (
                    leb 1 (length (ordered_media_assets v db))
                    && leb (length (ordered_media_assets v db)) 10)) [
                      | inr unfit ↦ ground arith
                      | inl fits ↦ (v, c, found, found', fits, ground arith)
                    ]
            ]
    ]

result-published :
    (m : ℕ) (o : Delivered String) (a : PublicationAttempt)
    → outcome_result m o a ≡ ok PublishResult.published
    → (id : String) × (is_over_long id ≡ false) × (o ≡ done id)
result-published m (done id) a h = (id, ground arith, refl)
result-published m (transient e) a h = ground arith
result-published m (permanent e) a h = ground arith
result-published m (uncaught e) a h = ground arith

module _ (w : Production) where
  -- What the worker read and what it sent, for a publication and an answer of Meta.
  abbrev pub Sent : Db → Publication → (id : String) → Type 0
  Sent db p id =
      (v : PostVariant) × (c : ChannelConnection) × (token : String) × (image_urls : List (List ℕ))
      × (find (λ (v : PostVariant). v.id == p.post_variant) db.variants ≡ some v)
      × (find (λ (c : ChannelConnection). c.id == p.channel_connection) db.connections ≡ some c)
      × (decrypt_token w.fernet w.key c.encrypted_access_token ≡ ok token)
      × (map (publishable_image_url w.storage w.signer w.quote) (ordered_media_assets v db)
          ≡ map some image_urls)
      × (1 ≤ length (ordered_media_assets v db))
      × (length (ordered_media_assets v db) ≤ 10)
      × (let out = publish_connection w c token v.body image_urls [] in
          (out.0 ≡ Meta.done id) × Checked out.1 × (length out.1 ≤ 67))

  deliver-Sent :
      (p : Publication) (db : Db) {id : String} → deliver (live w) p db ≡ done id → Sent db p id
  unfolding live publish_connection
  deliver-Sent p db {id} h =
      let (v, c, found, found', fits, sent) = deliver-done (live w) p db h in
      let provider = live w in
      let media = ordered_media_assets v db in
      let (u, ready, one) =
        >>=-done provider.client
          (λ _. provider.decrypt_token c.encrypted_access_token >>=ᵈ λ token.
            urls provider.publishable_image_url media >>=ᵈ λ image_urls.
            provider.publish_images c token v.body image_urls)
          sent in
      let (token, clear, two) =
        >>=-done (provider.decrypt_token c.encrypted_access_token)
          (λ token. urls provider.publishable_image_url media >>=ᵈ λ image_urls.
            provider.publish_images c token v.body image_urls)
          one in
      let (image_urls, signed, three) =
        >>=-done (urls provider.publishable_image_url media)
          (λ image_urls. provider.publish_images c token v.body image_urls) two in
      let (t, plain, same) =
        or_permanent-done "TokenEncryptionError" w.describe (λ t. t)
          (decrypt_token w.fernet w.key c.encrypted_access_token) clear in
      let texts = map w.text image_urls in
      let bounds =
        publish_images-most_requests w.server c.provider_channel_id token v.body c.channel texts in
      (
        v,
        c,
        token,
        image_urls,
        found,
        found',
        plain ∙ ap (λ x. ok x) same,
        urls-done (publishable_image_url w.storage w.signer w.quote) media signed,
        ground (arith, fits),
        ground (arith, fits),
        (
          delivered-done _ three,
          publish_images_checks w.server c.provider_channel_id token v.body c.channel texts,
          bounds.1,
        ),
      )

  -- Where a publication is due, its attempt can be stored, and the other transactions during the delivery
  -- leave its two rows alone: if `publish_due_publication` with the production clients returns
  -- "published", then the stored row is PUBLISHED with an identifier that Meta's server gave for this
  -- publication's variant and connection. Before that, the stored token was decrypted, each of the one to
  -- ten images got its URL, no Instagram container was published before Meta had
  -- reported it as FINISHED, and at most 67 requests were made.
  pub publish_due_publication-Sent :
      (m : ℕ) (run : Run) (db : Db) (old : Publication)
      → find (is_due old.id run.now) db.publications ≡ some old
      → find (by_id old.id) db.publications ≡ some old
      → attempt_clash (held_attempt run (count (is_attempt_of old.id) db.attempts + 1) old) db
        ≡ false
      → ((x : Db)
          → find (by_id old.id) (run.others x).publications ≡ find (by_id old.id) x.publications)
      → ((x : Db)
          → find (attempt_by_id run.new_id) (run.others x).attempts
            ≡ find (attempt_by_id run.new_id) x.attempts)
      → (publish_due_publication m (live w) run old.id db).0 ≡ ok PublishResult.published
      → (id : String) × Sent db old id
        × (find (by_id old.id) (publish_due_publication m (live w) run old.id db).1.publications
            ≡ some (record old {
              state = LifecycleState.published;
              provider_publication_id = id;
              last_error_code = "";
              last_error_message = "";
            }))
  unfolding ordered_media_assets variant_assets
  publish_due_publication-Sent m run db old due found fresh quiet quiet' published =
      let a = held_attempt run (count (is_attempt_of old.id) db.attempts + 1) old in
      let after : Db = record db {
        publications = save publication_id (held_publication old) db.publications;
        attempts = a ∷ db.attempts;
      } in
      let (result, row, attempt) =
        publish_due_publication-outcome m (live w) run db old due found fresh quiet quiet' in
      let (id, short, over) =
        result-published m (deliver (live w) (held_publication old) after) a
          (sym result ∙ published) in
      (
        id,
        deliver-Sent (held_publication old) after over,
        row
            ∙ ap (λ o. some (outcome_publication m run o a (held_publication old))) over
            ∙ rw short refl,
      )
