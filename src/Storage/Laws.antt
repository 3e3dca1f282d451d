-- ===== src/Storage/Laws.antt =====
-- The branches of `Upload` and `Download` in internal/zerog/storage/client.go.
use agent_inference_ethden.Base.{
  suc, ◌≤◌, ◌<◌, ◌≡◌, ◌≢◌, ◌⊎◌, inl, inr, ok, err, wrap, Error, String, ◌<>◌, eq_iff, Bool-cases,
  Result-cases, Bytes, [], ◌∷◌, length, All, arith, some, none, cause, content_not_found, str_eq,
  sentinel, refl,
}
use agent_inference_ethden.Base.Encoding.{hex_encode, hex_decode, hex_decode-hex_encode}
use agent_inference_ethden.World.{
  World, History, Tx, Receipt, Request, Response, fixed, uint, sent, mined, http, ctx_check,
  transactions, requests, make_transact_opts,
}
use agent_inference_ethden.Storage.{
  Client, Codec, Metadata, storage_endpoint, payload_of, upload_to_node, submit_root, store, upload,
  download,
}

module _ (w : World) (codec : Codec) (c : Client) where
  -- The transaction that anchors a content.
  abbrev pub anchor : Bytes → Tx
  anchor content = record {
    contract = c.contract;
    opts = record { key = c.key; chain_id = c.cfg.chain_id; value = none };
    method = "submit";
    args = fixed (codec.sha256 content) ∷ uint (length content) ∷ [];
  }

  -- In the history `h` the content's hash and length were accepted by the Flow contract.
  pub record Anchored (content : Bytes) (h : History) : Type 0 where
    pub before : History
    pub hash : String
    pub receipt : Receipt
    pub accepted : w.transact before (anchor content) ≡ ok hash
    pub mined_ok : w.wait_mined (sent (anchor content) ∷ before) hash ≡ ok receipt
    pub succeeded : receipt.status ≡ 1
    pub done : h ≡ mined hash ∷ sent (anchor content) ∷ before

  abbrev pub post : Bytes → Request
  post body = record {
    method = "POST";
    url = storage_endpoint c.cfg <> "/api/storage";
    content_type = some "application/json";
    authorization = none;
    body = body;
  }

  -- The node took the content: the last effect posts its payload, and the answer was 200 or 201.
  pub record Stored (content : Bytes) (meta : Metadata) (id : String) (h h' : History)
      : Type 0 where
    pub body : Bytes
    pub response : Response
    pub encoded : codec.marshal_payload (payload_of w codec content meta id) ≡ ok body
    pub answered : w.http_do h (post body) ≡ ok response
    pub created : (response.status ≡ 200) ⊎ (response.status ≡ 201)
    pub posted : h' ≡ http (post body) ∷ h

  upload_to_node-Stored :
      (content : Bytes) (meta : Metadata) (id : String) (h : History)
      → (upload_to_node w codec c content meta id h).0 ≡ ok tt
      → Stored content meta id h (upload_to_node w codec c content meta id h).1
  unfolding upload_to_node
  upload_to_node-Stored content meta id h e =
      elim (Result-cases (codec.marshal_payload (payload_of w codec content meta id))) [
        | inr (f, q) ↦ ground arith
        | inl (body, q) ↦ elim (Result-cases (w.http_do h (post body))) [
          | inr (f, r) ↦ ground arith
          | inl (response, r) ↦ record {
            body = body;
            response = response;
            encoded = q;
            answered = r;
            created = ground arith;
            posted = ground arith;
          }
        ]
      ]

  upload_to_node-transactions :
      (content : Bytes) (meta : Metadata) (id : String) (h : History)
      → transactions (upload_to_node w codec c content meta id h).1 ≡ transactions h
  unfolding upload_to_node
  upload_to_node-transactions content meta id h = ground arith

  submit_root-Anchored :
      (content : Bytes) (h : History)
      → (submit_root w codec c content h).0 ≡ ok tt
      → Anchored content (submit_root w codec c content h).1
  unfolding submit_root make_transact_opts
  submit_root-Anchored content h e = ground arith

  submit_root-counts :
      (content : Bytes) (h : History)
      → (length (transactions (submit_root w codec c content h).1) ≤ suc (length (transactions h)))
        × (requests (submit_root w codec c content h).1 ≡ requests h)
  unfolding submit_root make_transact_opts
  submit_root-counts content h = (ground arith, ground arith)

  store-transactions :
      (content : Bytes) (meta : Metadata) (id : String) (h : History)
      → transactions (store w codec c content meta id h).1 ≡ transactions h
  unfolding store
  store-transactions content meta id h =
      ground (arith, upload_to_node-transactions content meta id h)

  -- What the second part did when it succeeded.
  abbrev pub WasStored : Bytes → Metadata → String → History → History → Type 0
  WasStored content meta id h h' =
      ((storage_endpoint c.cfg ≡ "") × (h' ≡ h))
      ⊎ ((storage_endpoint c.cfg ≢ "") × Stored content meta id h h')

  store-WasStored :
      (content : Bytes) (meta : Metadata) (id : String) (h : History)
      → (store w codec c content meta id h).0 ≡ ok tt
      → WasStored content meta id h (store w codec c content meta id h).1
  unfolding store
  store-WasStored content meta id h e = elim (Bool-cases (str_eq (storage_endpoint c.cfg) "")) [
    | inl none_set ↦ inl ((eq_iff (storage_endpoint c.cfg) "").0 none_set, ground arith)
    | inr some_set ↦ inr (
      λ q. ground (arith, (eq_iff (storage_endpoint c.cfg) "").1 q),
      rw some_set (upload_to_node-Stored content meta id h (ground arith)),
    )
  ]

  abbrev root_id : Bytes → String
  root_id content = hex_encode (codec.sha256 content)

  abbrev anchored : Bytes → History → History
  anchored content h = (submit_root w codec c content (ctx_check ∷ h)).1

  upload-parts :
      (content : Bytes) (meta : Metadata) (h : History) {id : String}
      → (upload w codec c content meta h).0 ≡ ok id
      → ((submit_root w codec c content (ctx_check ∷ h)).0 ≡ ok tt)
        × ((store w codec c content meta (root_id content) (anchored content h)).0 ≡ ok tt)
        × (id ≡ root_id content)
        × ((upload w codec c content meta h).1
            ≡ (store w codec c content meta (root_id content) (anchored content h)).1)
  unfolding upload
  upload-parts content meta h e = ground arith

  -- A successful upload returns the hash of the content in hexadecimal. The content was anchored
  -- on-chain; after that it was posted to the node, if an endpoint is configured, and nothing else
  -- was done.
  pub upload-ok :
      (content : Bytes) (meta : Metadata) (h : History) {id : String}
      → (upload w codec c content meta h).0 ≡ ok id
      → (id ≡ hex_encode (codec.sha256 content))
        × ((g : History) × Anchored content g
            × WasStored content meta id g (upload w codec c content meta h).1)
  upload-ok content meta h e =
      let (submitted, stored, named, ended) = upload-parts content meta h e in
      (
        named,
        (
          anchored content h,
          submit_root-Anchored content (ctx_check ∷ h) submitted,
          rw (ended, named)
              (store-WasStored content meta (root_id content) (anchored content h) stored),
        ),
      )

  -- Whatever happens, an upload sends at most one transaction, also with MaxRetries set.
  pub upload-sends :
      (content : Bytes) (meta : Metadata) (h : History)
      → length (transactions (upload w codec c content meta h).1) ≤ suc (length (transactions h))
  unfolding upload
  upload-sends content meta h = grind (arith, submit_root-counts, store-transactions)

  -- Nothing is posted to the node before the anchor was mined with status 1.
  pub upload-Anchored_first :
      (content : Bytes) (meta : Metadata) (h : History)
      → (requests (upload w codec c content meta h).1 ≡ requests h)
        ⊎ ((g : History) × Anchored content g × (requests g ≡ requests h))
  unfolding upload
  upload-Anchored_first content meta h =
      let counts = submit_root-counts content (ctx_check ∷ h) in
      elim (Result-cases (submit_root w codec c content (ctx_check ∷ h)).0) [
        | inl (u, q) ↦
            inr (anchored content h, submit_root-Anchored content (ctx_check ∷ h) q, counts.1)
        | inr (f, q) ↦ inl (ground (arith, counts.1))
      ]

  -- The content's hash can be read back from the id, since a hash is a list of bytes.
  pub upload-id :
      (content : Bytes) (meta : Metadata) (h : History) {id : String}
      → All (λ b. b < 256) (codec.sha256 content)
      → (upload w codec c content meta h).0 ≡ ok id
      → hex_decode id ≡ ok (codec.sha256 content)
  upload-id content meta h bytes e =
      rw (upload-ok content meta h e).0 (hex_decode-hex_encode (codec.sha256 content) bytes)

  abbrev pub ask : String → Request
  ask id = record {
    method = "GET";
    url = storage_endpoint c.cfg <> "/api/storage/" <> id;
    content_type = none;
    authorization = none;
    body = [];
  }

  -- The bytes of a successful download are the body, read to its end, of an answer 200 to its GET
  -- request.
  pub download-body :
      (id : String) (h : History) (bs : Bytes)
      → (download w codec c id h).0 ≡ ok bs
      → (r : Response) × (w.http_do (ctx_check ∷ h) (ask id) ≡ ok r)
        × (r.status ≡ 200)
        × (r.read_error ≡ none)
        × (r.body ≡ bs)
  unfolding download
  download-body id h bs e = elim (Result-cases (w.http_do (ctx_check ∷ h) (ask id))) [
    | inl (r, q) ↦ (r, q, ground arith, ground arith, ground arith)
    | inr (f, q) ↦ ground arith
  ]

  -- With the context alive and an endpoint set, an answer 404 ends a download in `ErrNotFound`.
  pub download_missing :
      (id : String) (h : History) (r : Response)
      → w.ctx_err h ≡ none
      → storage_endpoint c.cfg ≢ ""
      → w.new_request_err "GET" (ask id).url ≡ none
      → w.http_do (ctx_check ∷ h) (ask id) ≡ ok r
      → r.status ≡ 404
      → (e : Error) × ((download w codec c id h).0 ≡ err e) × (cause e ≡ some content_not_found)
  unfolding download
  download_missing id h r live set valid got missing = (
    wrap ("storage: content " <> id <> ": ") (sentinel content_not_found),
    ground (arith, eq_iff (storage_endpoint c.cfg) ""),
    refl,
  )
