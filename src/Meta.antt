-- ===== src/Meta.antt =====
-- relay/social/publishing.py: `MetaPublishingClient`, against a server that answers each request
-- knowing all requests before it. A reply's body is the object that `response.json()` returns.
pub mod Checks
pub mod Finished
pub mod Requests
use aleyacloud_relay.Base.{
  ℕ, zero, suc, Bool, true, false, not, ◌&&◌, ◌||◌, String, str_eq, List, [], ◌∷◌, ◌++◌, Option,
  none, some, ltb, leb, ◌==◌, if◌then◌else◌, length,
}
use aleyacloud_relay.Models.Social.{Channel}

pub data Edge : Type 0 where
  photos feed media media_publish : Edge

-- The form fields of a request, beside the access token.
pub data Fields : Type 0 where
  photo : (url caption : String) → Fields
  unpublished_photo : (url : String) → Fields
  feed_story : (message : String) (attached_media : List String) → Fields
  image : (image_url caption : String) → Fields
  carousel_item : (image_url : String) → Fields
  carousel : (children : List String) (caption : String) → Fields
  creation : (creation_id : String) → Fields

pub data Request : Type 0 where
  post : (account : String) → Edge → Fields → (access_token : String) → Request
  -- the `status_code` of a container
  status : (creation_id access_token : String) → Request

-- `id` is none where the reply has none or an empty one.
pub record Payload : Type 0 where
  pub id : Option String
  pub status_code : String

-- `httpx.RequestError`, or a response, whose body may be no JSON.
pub data Reply : Type 0 where
  unreachable : Reply
  response : (status_code : ℕ) → Option Payload → Reply

abbrev pub Trace : Type 0
Trace = List (Request × Reply)

abbrev pub Server : Type 0
Server = Trace → Request → Reply

-- A value, MetaPublishTransientError or MetaPublishPermanentError.
pub data Attempt (A : Type 0) : Type 0 where
  done : A → Attempt A
  transient : String → Attempt A
  permanent : String → Attempt A

abbrev pub Http : Type 0 → Type 0
Http A = Trace → Attempt A × Trace

abbrev pub pure : {A : Type 0} → A → Http A
pure a t = (done a, t)

abbrev pub fail : {A : Type 0} → Attempt A → Http A
fail e t = (e, t)

infixl 5 ◌>>=◌ ◌>>◌
abbrev pub ◌>>=◌ : {A B : Type 0} → Http A → (A → Http B) → Http B
◌>>=◌ m f t =
    let (r, t') = m t in
    elim r [ done a ↦ f a t' | transient e ↦ (transient e, t') | permanent e ↦ (permanent e, t') ]

abbrev pub ◌>>◌ : {A B : Type 0} → Http A → Http B → Http B
m >> k = m >>= λ _. k

-- `status_code == 429 or status_code >= 500`, and httpx's `is_error`.
abbrev pub is_overloaded : ℕ → Bool
is_overloaded code = code == 429 || leb 500 code

abbrev pub is_error : ℕ → Bool
is_error code = leb 400 code && leb code 599

-- `_id`
unfoldable pub id_of : Payload → Http String
id_of payload t = elim payload.id [
  | none ↦ (permanent "Meta did not return a publication identifier.", t)
  | some value ↦ (done value, t)
]

unfoldable pub read_post : Reply → Attempt Payload
read_post unreachable = transient "Meta could not be reached."
read_post (response code body) =
    if is_overloaded code
    then transient "Meta temporarily rejected the request."
    else if is_error code
    then permanent "Meta rejected the publication request."
    else elim body [
      | none ↦ permanent "Meta returned an invalid publication response."
      | some payload ↦ done payload
    ]

unfoldable pub read_status : Reply → Attempt String
read_status unreachable = transient "Meta could not check the Instagram media."
read_status (response code body) =
    if is_overloaded code
    then transient "Meta temporarily rejected the Instagram media check."
    else if is_error code
    then permanent "Meta rejected the Instagram media container."
    else elim body [
      | none ↦ permanent "Meta returned an invalid Instagram media status."
      | some payload ↦ done payload.status_code
    ]

-- What one round makes of the status.
unfoldable pub on_status : Http (Unit {0}) → String → Http (Unit {0})
on_status again code =
    if str_eq code "FINISHED"
    then pure tt
    else if str_eq code "ERROR" || str_eq code "EXPIRED"
    then fail (permanent "Meta could not process the Instagram image.")
    else again

-- `ids.append(id)`, before the ids of the images that follow.
abbrev pub collect : Http (List String) → String → Http (List String)
collect others id = others >>= λ ids. pure (id ∷ ids)

module _ (server : Server) where
  -- `client.post` and `client.get`
  abbrev pub send : {A : Type 0} → (Reply → Attempt A) → Request → Http A
  send read request t = let reply : Reply = server t request in (read reply, (request, reply) ∷ t)

  -- `_post`
  unfoldable pub post_to :
      (account : String) → Edge → Fields → (access_token : String) → Http Payload
  post_to account edge fields token = send read_post (Request.post account edge fields token)

  -- `_wait_for_instagram_container` with the rounds that are left of its five.
  unfoldable pub wait_rounds : ℕ → (creation_id access_token : String) → Http (Unit {0})
  wait_rounds zero creation_id token =
      fail (transient "Instagram media is still processing; Relay will retry.")
  wait_rounds (suc n) creation_id token =
      let again = wait_rounds n creation_id token in
      send read_status (Request.status creation_id token) >>= on_status again

  unfoldable pub wait_for_instagram_container :
      (creation_id access_token : String) → Http (Unit {0})
  wait_for_instagram_container = wait_rounds 5

  module _ (account access_token body : String) where
    -- the loop of `_publish_facebook_carousel`
    unfoldable pub upload_photos : List String → Http (List String)
    upload_photos [] = pure []
    upload_photos (url ∷ urls) =
        let others = upload_photos urls in
        post_to account Edge.photos (Fields.unpublished_photo url) access_token >>= λ uploaded.
        id_of uploaded >>= collect others

    unfoldable pub publish_facebook_carousel : List String → Http String
    publish_facebook_carousel image_urls = do
      media_ids ← upload_photos image_urls
      published ← post_to account Edge.feed (Fields.feed_story body media_ids) access_token
      id_of published

    -- the loop of `_publish_instagram_carousel`
    unfoldable pub create_children : List String → Http (List String)
    create_children [] = pure []
    create_children (url ∷ urls) =
        let others = create_children urls in
        post_to account Edge.media (Fields.carousel_item url) access_token >>= λ child.
        id_of child >>= λ child_id.
        wait_for_instagram_container child_id access_token >>= λ _. collect others child_id

    -- The container, its wait and its publication, which both Instagram paths end with.
    unfoldable pub publish_container : Fields → Http String
    publish_container fields = do
      container ← post_to account Edge.media fields access_token
      creation_id ← id_of container
      wait_for_instagram_container creation_id access_token
      published ← post_to account Edge.media_publish (Fields.creation creation_id) access_token
      id_of published

    unfoldable pub publish_instagram_carousel : List String → Http String
    publish_instagram_carousel image_urls = do
      child_ids ← create_children image_urls
      publish_container (Fields.carousel child_ids body)

    unfoldable pub publish_facebook_photo : String → Http String
    publish_facebook_photo url = do
      reply ← post_to account Edge.photos (Fields.photo url body) access_token
      id_of reply

    -- The dispatch on the channel and on the number of images.
    unfoldable pub publish_on : Channel → List String → Http String
    publish_on channel [] =
        fail (permanent "A Meta publication must contain between one and ten images.")
    publish_on Channel.meta_facebook_page (url ∷ []) = publish_facebook_photo url
    publish_on Channel.meta_facebook_page urls = publish_facebook_carousel urls
    publish_on Channel.meta_instagram_business_account (url ∷ []) =
        publish_container (Fields.image url body)
    publish_on Channel.meta_instagram_business_account urls = publish_instagram_carousel urls

    unfoldable pub publish_images : Channel → List String → Http String
    publish_images channel image_urls =
        if not (leb 1 (length image_urls) && leb (length image_urls) 10)
        then fail (permanent "A Meta publication must contain between one and ten images.")
        else publish_on channel image_urls
