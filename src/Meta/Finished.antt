-- ===== src/Meta/Finished.antt =====
-- `MetaPublishingClient` (relay/social/publishing.py) and Instagram's containers.
use aleyacloud_relay.Base.{
  true, ◌&&◌, String, List, [], ◌∷◌, none, ◌≡◌, refl, inl, inr, Bool-cases, leb, length,
}
use aleyacloud_relay.Models.Social.{Channel}
use aleyacloud_relay.Meta.{
  Edge, Fields, Request, Trace, Server, Http, pure, ◌>>=◌, collect, id_of, post_to,
  wait_for_instagram_container, upload_photos, publish_facebook_carousel, create_children,
  publish_container, publish_instagram_carousel, publish_facebook_photo, publish_on, publish_images,
}
use aleyacloud_relay.Meta.Checks.{
  bind_rest, publishes, finished, Checked, Keeps, Finishes, >>=-Keeps, >>=-Finishes, id_of-Keeps,
  wait_rounds-Keeps, wait_rounds-Finishes,
}

module _ (server : Server) where
  wait-Keeps : (c token : String) → Keeps (wait_for_instagram_container server c token)
  unfolding wait_for_instagram_container
  wait-Keeps c token = wait_rounds-Keeps server 5 c token

  wait-Finishes : (c token : String) → Finishes c (wait_for_instagram_container server c token)
  unfolding wait_for_instagram_container
  wait-Finishes c token = wait_rounds-Finishes server 5 c token

  -- A post that publishes no container.
  post_to-Keeps :
      (account : String) (edge : Edge) (fields : Fields) (token : String)
      → publishes (Request.post account edge fields token) ≡ none
      → Keeps (post_to server account edge fields token)
  unfolding post_to
  post_to-Keeps account edge fields token other t h = (rw other tt, h)

  -- One that publishes the container which has been reported.
  publish-Keeps :
      (account c token : String) (t : Trace)
      → Checked t
      → finished c t ≡ true
      → Checked (post_to server account Edge.media_publish (Fields.creation c) token t).1
  unfolding post_to
  publish-Keeps account c token t h over = (over, h)

  -- A post and the identifier in its reply.
  post_id-Keeps :
      {B : Type 0} (account : String) (edge : Edge) (fields : Fields) (token : String)
      (f : String → Http B)
      → publishes (Request.post account edge fields token) ≡ none
      → ((id : String) → Keeps (f id))
      → Keeps (post_to server account edge fields token >>= λ reply. id_of reply >>= f)
  post_id-Keeps account edge fields token f other kf =
      >>=-Keeps (post_to server account edge fields token) (λ reply. id_of reply >>= f)
        (post_to-Keeps account edge fields token other)
        (λ reply. >>=-Keeps (id_of reply) f (id_of-Keeps reply) kf)

  module _ (account token body : String) where
    collect-Keeps :
        (others : Http (List String)) → Keeps others → (id : String) → Keeps (collect others id)
    collect-Keeps others ko id = >>=-Keeps others (λ ids. pure (id ∷ ids)) ko (λ ids t h. h)

    upload_photos-Keeps :
        (urls : List String) → Keeps (upload_photos server account token body urls)
    unfolding upload_photos
    upload_photos-Keeps [] = λ t h. h
    upload_photos-Keeps (url ∷ urls) =
        let others = upload_photos server account token body urls in
        post_id-Keeps account Edge.photos (Fields.unpublished_photo url) token (collect others) refl
          (collect-Keeps others (upload_photos-Keeps urls))

    create_children-Keeps :
        (urls : List String) → Keeps (create_children server account token body urls)
    unfolding create_children
    create_children-Keeps [] = λ t h. h
    create_children-Keeps (url ∷ urls) =
        let others = create_children server account token body urls in
        post_id-Keeps account Edge.media (Fields.carousel_item url) token
          (λ id. wait_for_instagram_container server id token >>= λ _. collect others id) refl
          (λ id.
            >>=-Keeps (wait_for_instagram_container server id token) (λ _. collect others id)
              (wait-Keeps id token) (λ _. collect-Keeps others (create_children-Keeps urls) id))

    publish_container-Keeps :
        (fields : Fields) → Keeps (publish_container server account token body fields)
    unfolding publish_container
    publish_container-Keeps fields =
        let publish : String → Http String =
          (λ id. post_to server account Edge.media_publish (Fields.creation id) token >>= id_of) in
        post_id-Keeps account Edge.media fields token
          (λ id. wait_for_instagram_container server id token >>= λ _. publish id) refl
          (λ id.
            >>=-Finishes id (wait_for_instagram_container server id token) (λ _. publish id)
              (wait-Keeps id token) (wait-Finishes id token)
              (λ t h over.
                let sent = post_to server account Edge.media_publish (Fields.creation id) token t in
                bind_rest id_of sent.0 sent.1 id_of-Keeps
                  (publish-Keeps account id token t h over)))

    publish_facebook_carousel-Keeps :
        (urls : List String) → Keeps (publish_facebook_carousel server account token body urls)
    unfolding publish_facebook_carousel
    publish_facebook_carousel-Keeps urls =
        let story : List String → Http String =
          (λ ids. post_to server account Edge.feed (Fields.feed_story body ids) token >>= id_of) in
        >>=-Keeps (upload_photos server account token body urls) story (upload_photos-Keeps urls)
          (λ ids.
            >>=-Keeps (post_to server account Edge.feed (Fields.feed_story body ids) token) id_of
              (post_to-Keeps account Edge.feed (Fields.feed_story body ids) token refl) id_of-Keeps)

    publish_instagram_carousel-Keeps :
        (urls : List String) → Keeps (publish_instagram_carousel server account token body urls)
    unfolding publish_instagram_carousel
    publish_instagram_carousel-Keeps urls =
        >>=-Keeps (create_children server account token body urls)
          (λ ids. publish_container server account token body (Fields.carousel ids body))
          (create_children-Keeps urls) (λ ids. publish_container-Keeps (Fields.carousel ids body))

    publish_facebook_photo-Keeps :
        (url : String) → Keeps (publish_facebook_photo server account token body url)
    unfolding publish_facebook_photo
    publish_facebook_photo-Keeps url =
        >>=-Keeps (post_to server account Edge.photos (Fields.photo url body) token) id_of
          (post_to-Keeps account Edge.photos (Fields.photo url body) token refl) id_of-Keeps

    publish_on-Keeps :
        (channel : Channel) (urls : List String)
        → Keeps (publish_on server account token body channel urls)
    unfolding publish_on
    publish_on-Keeps Channel.meta_facebook_page [] = λ t h. h
    publish_on-Keeps Channel.meta_facebook_page (url ∷ []) = publish_facebook_photo-Keeps url
    publish_on-Keeps Channel.meta_facebook_page (u ∷ v ∷ urls) =
        publish_facebook_carousel-Keeps (u ∷ v ∷ urls)
    publish_on-Keeps Channel.meta_instagram_business_account [] = λ t h. h
    publish_on-Keeps Channel.meta_instagram_business_account (url ∷ []) =
        publish_container-Keeps (Fields.image url body)
    publish_on-Keeps Channel.meta_instagram_business_account (u ∷ v ∷ urls) =
        publish_instagram_carousel-Keeps (u ∷ v ∷ urls)

    -- Whatever the server answers to `publish_images`: no container is published before the
    -- server has reported it as FINISHED.
    pub publish_images_checks :
        (channel : Channel) (urls : List String)
        → Checked (publish_images server account token body channel urls []).1
    unfolding publish_images
    publish_images_checks channel urls =
        elim (Bool-cases (leb 1 (length urls) && leb (length urls) 10)) [
          | inl fits ↦ rw (fits, publish_images) (publish_on-Keeps channel urls [] tt)
          | inr unfit ↦ rw (unfit, publish_images) tt
        ]
