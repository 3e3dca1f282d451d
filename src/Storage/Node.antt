-- ===== src/Storage/Node.antt =====
-- `Upload` and then `Download` of internal/zerog/storage/client.go, at a storage node that serves what
-- it has accepted.
use agent_inference_ethden.Base.{
  ◌≡◌, ◌≢◌, ◌⊎◌, refl, inl, inr, ok, none, some, Option, String, Bytes, ◌∷◌, arith, eq_iff,
}
use agent_inference_ethden.Base.Encoding.{base64_encode}
use agent_inference_ethden.World.{World, History, Response, http, ctx_check}
use agent_inference_ethden.Storage.{
  UploadPayload, Client, Codec, Metadata, storage_endpoint, payload_of, upload, download,
}
use agent_inference_ethden.Storage.Laws.{post, ask, upload-ok}

module _ (w : World) (codec : Codec) (c : Client) where
  -- `decode` is how the node reads the body of a post. It serves a content that it has answered with
  -- 200 or 201, in base64 in the payload, under the id of the payload.
  pub record IsNode (decode : Bytes → Option UploadPayload) (content : Bytes) : Type 0 where
    pub serves :
        (h : History) (body : Bytes) (response : Response) (payload : UploadPayload)
        → w.http_do h (post w codec c body) ≡ ok response
        → (response.status ≡ 200) ⊎ (response.status ≡ 201)
        → decode body ≡ some payload
        → payload.content ≡ base64_encode content
        → w.http_do (ctx_check ∷ http (post w codec c body) ∷ h) (ask w codec c payload.content_id)
          ≡ ok (record { status = 200; body = content; read_error = none })

  fetched :
      (id : String) (h : History) (content : Bytes)
      → w.ctx_err h ≡ none
      → storage_endpoint c.cfg ≢ ""
      → w.new_request_err "GET" (ask w codec c id).url ≡ none
      → w.http_do (ctx_check ∷ h) (ask w codec c id)
        ≡ ok (record { status = 200; body = content; read_error = none })
      → (download w codec c id h).0 ≡ ok content
  unfolding download
  fetched id h content live set valid got = ground (arith, eq_iff (storage_endpoint c.cfg) "")

  -- What an upload has sent can be downloaded with the id that it returned, as long as the context
  -- lives: the content comes back. The node has to be configured, to read the payload of this upload
  -- from the body that is posted, and to serve what it has accepted.
  pub download-upload :
      (decode : Bytes → Option UploadPayload) (content : Bytes) (meta : Metadata) (h : History)
      {id : String}
      → IsNode decode content
      → ((body : Bytes)
          → codec.marshal_payload (payload_of w codec content meta id) ≡ ok body
          → decode body ≡ some (payload_of w codec content meta id))
      → storage_endpoint c.cfg ≢ ""
      → w.new_request_err "GET" (ask w codec c id).url ≡ none
      → ((g : History) → w.ctx_err g ≡ none)
      → (upload w codec c content meta h).0 ≡ ok id
      → (download w codec c id (upload w codec c content meta h).1).0 ≡ ok content
  unfolding payload_of
  download-upload decode content meta h {id} node reads set valid live e =
      let (named, rest) = upload-ok w codec c content meta h e in
      let (g, anchored, stored) = rest in
      elim stored [
        | inl (unset, kept) ↦ absurd (set unset)
        | inr (is_set, s) ↦
            let served =
              node.serves g s.body s.response (payload_of w codec content meta id) s.answered
                s.created (reads s.body s.encoded) refl in
            rw s.posted (
              fetched id (http (post w codec c s.body) ∷ g) content
                (live (http (post w codec c s.body) ∷ g)) set valid served)
      ]
