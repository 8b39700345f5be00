-- ===== src/Meta/Requests.antt =====
-- How many requests `MetaPublishingClient.publish_images` of relay/social/publishing.py makes: it ends
-- against every server, also where a container is never processed.
use aleyacloud_relay.Base.{
  ℕ, zero, suc, ◌+◌, ◌*◌, ◌≤◌, ◌<◌, ◌⊎◌, true, ◌&&◌, ◌||◌, String, str_eq, List, [], ◌∷◌, ◌≡◌, refl,
  inl, inr, arith, leb, if◌then◌else◌, length, Bool-cases, Option-cases,
}
use aleyacloud_relay.Models.Social.{Channel}
use aleyacloud_relay.Meta.{
  Edge, Fields, Request, Payload, Reply, Trace, Server, Attempt, done, transient, permanent, Http,
  ◌>>=◌, pure, id_of, on_status, collect, send, read_status, read_post, post_to, wait_rounds,
  wait_for_instagram_container, upload_photos, publish_facebook_carousel, create_children,
  publish_container, publish_instagram_carousel, publish_facebook_photo, publish_on, publish_images,
}

-- At most k more requests.
abbrev Within : {A : Type 0} → ℕ → Http A → Type 0
Within k m = (t : Trace) → length (m t).1 ≤ length t + k

Within-weaken : {A : Type 0} {j : ℕ} (k : ℕ) (m : Http A) → Within j m → j ≤ k → Within k m
Within-weaken k m h le t = omega (arith, h t)

bind_rest :
    {A B : Type 0} (f : A → Http B) (k n : ℕ) (r : Attempt A) (t : Trace)
    → ((a : A) → Within k (f a))
    → length t ≤ n
    → length (((λ _. (r, t)) >>= f) t).1 ≤ n + k
bind_rest f k n (done a) t kf h = omega (arith, kf a t)
bind_rest f k n (transient e) t kf h = omega arith
bind_rest f k n (permanent e) t kf h = omega arith

>>=-Within :
    {A B : Type 0} (j k : ℕ) (m : Http A) (f : A → Http B)
    → Within j m
    → ((a : A) → Within k (f a))
    → Within (j + k) (m >>= f)
>>=-Within j k m f km kf t = omega (arith, bind_rest f k (length t + j) (m t).0 (m t).1 kf (km t))

id_of-Within : (p : Payload) → Within 0 (id_of p)
unfolding id_of
id_of-Within p t = elim (Option-cases p.id) [
  | inl e ↦ rw (e, id_of) (omega arith)
  | inr (v, e) ↦ rw (e, id_of) (omega arith)
]

on_status-Within :
    (k : ℕ) (again : Http (Unit {0})) (code : String)
    → Within k again
    → Within k (on_status again code)
unfolding on_status
on_status-Within k again code ka t = elim (Bool-cases (str_eq code "FINISHED")) [
  | inl e ↦ rw (e, on_status) (omega arith)
  | inr e ↦ elim (Bool-cases (str_eq code "ERROR" || str_eq code "EXPIRED")) [
    | inl f ↦ rw (e, on_status) (rw (f, on_status) (omega arith))
    | inr f ↦ rw (e, on_status) (rw (f, on_status) (ka t))
  ]
]

module _ (server : Server) where
  send-Within :
      {A : Type 0} (read : Reply → Attempt A) (request : Request)
      → Within 1 (send server read request)
  send-Within read request t = omega arith

  wait_rounds-Within : (n : ℕ) (c token : String) → Within n (wait_rounds server n c token)
  unfolding wait_rounds
  wait_rounds-Within zero c token = λ t. omega arith
  wait_rounds-Within (suc n) c token =
      let again = wait_rounds server n c token in
      Within-weaken (suc n) (send server read_status (Request.status c token) >>= on_status again)
        (>>=-Within 1 n (send server read_status (Request.status c token)) (on_status again)
          (send-Within read_status (Request.status c token))
          (λ code. on_status-Within n again code (wait_rounds-Within n c token)))
        (omega arith)

  wait-Within : (c token : String) → Within 5 (wait_for_instagram_container server c token)
  unfolding wait_for_instagram_container
  wait-Within c token = wait_rounds-Within 5 c token

  post_to-Within :
      (account : String) (edge : Edge) (fields : Fields) (token : String)
      → Within 1 (post_to server account edge fields token)
  unfolding post_to
  post_to-Within account edge fields token =
      send-Within read_post (Request.post account edge fields token)

  -- A post, the identifier in its reply and what follows.
  post_id-Within :
      {B : Type 0} (k : ℕ) (account : String) (edge : Edge) (fields : Fields) (token : String)
      (f : String → Http B)
      → ((id : String) → Within k (f id))
      → Within
          (1 + (0 + k))
          (post_to server account edge fields token >>= λ reply. id_of reply >>= f)
  post_id-Within k account edge fields token f kf =
      >>=-Within 1 (0 + k) (post_to server account edge fields token) (λ reply. id_of reply >>= f)
        (post_to-Within account edge fields token)
        (λ reply. >>=-Within 0 k (id_of reply) f (id_of-Within reply) kf)

  module _ (account token body : String) where
    collect-Within :
        (k : ℕ) (others : Http (List String))
        → Within k others
        → (id : String) → Within k (collect others id)
    collect-Within k others ko id =
        Within-weaken k (collect others id)
          (>>=-Within k 0 others (λ ids. pure (id ∷ ids)) ko (λ ids t. omega arith)) (omega arith)

    upload_photos-Within :
        (urls : List String) → Within (length urls) (upload_photos server account token body urls)
    unfolding upload_photos
    upload_photos-Within [] = λ t. omega arith
    upload_photos-Within (url ∷ urls) =
        let others = upload_photos server account token body urls in
        Within-weaken (length (url ∷ urls)) (upload_photos server account token body (url ∷ urls))
          (post_id-Within (length urls) account Edge.photos (Fields.unpublished_photo url) token
            (collect others) (collect-Within (length urls) others (upload_photos-Within urls)))
          (omega arith)

    create_children-Within :
        (urls : List String)
        → Within (6 * length urls) (create_children server account token body urls)
    unfolding create_children
    create_children-Within [] = λ t. omega arith
    create_children-Within (url ∷ urls) =
        let others = create_children server account token body urls in
        let k = 6 * length urls in
        Within-weaken (6 * length (url ∷ urls))
          (create_children server account token body (url ∷ urls))
          (post_id-Within (5 + k) account Edge.media (Fields.carousel_item url) token
            (λ id. wait_for_instagram_container server id token >>= λ _. collect others id)
            (λ id.
              >>=-Within 5 k (wait_for_instagram_container server id token) (λ _. collect others id)
                (wait-Within id token)
                (λ _. collect-Within k others (create_children-Within urls) id)))
          (omega arith)

    publish_container-Within :
        (fields : Fields) → Within 7 (publish_container server account token body fields)
    unfolding publish_container
    publish_container-Within fields =
        let publish : String → Http String =
          (λ id. post_to server account Edge.media_publish (Fields.creation id) token >>= id_of) in
        Within-weaken 7 (publish_container server account token body fields)
          (post_id-Within 6 account Edge.media fields token
            (λ id. wait_for_instagram_container server id token >>= λ _. publish id)
            (λ id.
              >>=-Within 5 1 (wait_for_instagram_container server id token) (λ _. publish id)
                (wait-Within id token)
                (λ _.
                  >>=-Within 1 0
                    (post_to server account Edge.media_publish (Fields.creation id) token) id_of
                    (post_to-Within account Edge.media_publish (Fields.creation id) token)
                    id_of-Within)))
          (omega arith)

    publish_facebook_carousel-Within :
        (urls : List String)
        → Within (length urls + 1) (publish_facebook_carousel server account token body urls)
    unfolding publish_facebook_carousel
    publish_facebook_carousel-Within urls =
        let story : List String → Http String =
          (λ ids. post_to server account Edge.feed (Fields.feed_story body ids) token >>= id_of) in
        >>=-Within (length urls) 1 (upload_photos server account token body urls) story
          (upload_photos-Within urls)
          (λ ids.
            >>=-Within 1 0 (post_to server account Edge.feed (Fields.feed_story body ids) token)
              id_of (post_to-Within account Edge.feed (Fields.feed_story body ids) token)
              id_of-Within)

    publish_instagram_carousel-Within :
        (urls : List String)
        → Within (6 * length urls + 7) (publish_instagram_carousel server account token body urls)
    unfolding publish_instagram_carousel
    publish_instagram_carousel-Within urls =
        >>=-Within (6 * length urls) 7 (create_children server account token body urls)
          (λ ids. publish_container server account token body (Fields.carousel ids body))
          (create_children-Within urls) (λ ids. publish_container-Within (Fields.carousel ids body))

    publish_facebook_photo-Within :
        (url : String) → Within 1 (publish_facebook_photo server account token body url)
    unfolding publish_facebook_photo
    publish_facebook_photo-Within url =
        >>=-Within 1 0 (post_to server account Edge.photos (Fields.photo url body) token) id_of
          (post_to-Within account Edge.photos (Fields.photo url body) token) id_of-Within

    -- The most requests that a publication of n images takes on a channel.
    abbrev pub most_requests : Channel → ℕ → ℕ
    most_requests Channel.meta_facebook_page n = if leb n 1 then n else n + 1
    most_requests Channel.meta_instagram_business_account n = if leb n 1 then 7 * n else 6 * n + 7

    publish_on-Within :
        (channel : Channel) (urls : List String)
        → Within
            (most_requests channel (length urls))
            (publish_on server account token body channel urls)
    unfolding publish_on
    publish_on-Within Channel.meta_facebook_page [] = λ t. omega arith
    publish_on-Within Channel.meta_facebook_page (url ∷ []) = publish_facebook_photo-Within url
    publish_on-Within Channel.meta_facebook_page (u ∷ v ∷ urls) =
        Within-weaken (most_requests Channel.meta_facebook_page (length (u ∷ v ∷ urls)))
          (publish_facebook_carousel server account token body (u ∷ v ∷ urls))
          (publish_facebook_carousel-Within (u ∷ v ∷ urls)) (ground arith)
    publish_on-Within Channel.meta_instagram_business_account [] = λ t. omega arith
    publish_on-Within Channel.meta_instagram_business_account (url ∷ []) =
        publish_container-Within (Fields.image url body)
    publish_on-Within Channel.meta_instagram_business_account (u ∷ v ∷ urls) =
        Within-weaken
          (most_requests Channel.meta_instagram_business_account (length (u ∷ v ∷ urls)))
          (publish_instagram_carousel server account token body (u ∷ v ∷ urls))
          (publish_instagram_carousel-Within (u ∷ v ∷ urls)) (ground arith)

    most_requests-le : (channel : Channel) (n : ℕ) → n ≤ 10 → most_requests channel n ≤ 67
    most_requests-le Channel.meta_facebook_page n h = ground arith
    most_requests-le Channel.meta_instagram_business_account n h = ground arith

    publish_images-requests :
        (channel : Channel) (urls : List String)
        → ((length (publish_images server account token body channel urls []).1 ≡ 0))
          ⊎ ((leb 1 (length urls) && leb (length urls) 10 ≡ true)
              × (length (publish_images server account token body channel urls []).1
                  ≤ most_requests channel (length urls)))
    unfolding publish_images
    publish_images-requests channel urls =
        elim (Bool-cases (leb 1 (length urls) && leb (length urls) 10)) [
          | inl fits ↦
              inr
                (fits, rw (fits, publish_images) (omega (arith, publish_on-Within channel urls [])))
          | inr out ↦ inl (rw (out, publish_images) refl)
        ]

    -- Against every server, also one that never processes an image, `publish_images` ends: for n images
    -- after at most n requests on Facebook where n is one and n + 1 where it is more, on Instagram after
    -- at most 7 and 6 * n + 7, and so never after more than 67. For no image and for more than ten it
    -- makes no request.
    pub publish_images-most_requests :
        (channel : Channel) (urls : List String)
        → let trace : Trace = (publish_images server account token body channel urls []).1 in
          (length trace ≤ most_requests channel (length urls))
          × (length trace ≤ 67)
          × ((length urls ≡ 0) ⊎ (10 < length urls) → length trace ≡ 0)
    publish_images-most_requests channel urls = elim (publish_images-requests channel urls) [
      | inl unsent ↦ (omega (arith, unsent), omega (arith, unsent), λ h. unsent)
      | inr (fits, most) ↦ (
        most,
        omega (arith, most, most_requests-le channel (length urls) (ground arith)),
        λ h. absurd (ground arith),
      )
    ]
