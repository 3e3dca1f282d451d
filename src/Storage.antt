-- ===== src/Storage.antt =====
-- The storage client: internal/zerog/storage/models.go and client.go.
mod Types
pub mod Laws
pub mod Node
pub mod Typed
pub mod Keeps
pub mod Tests
pub use Types.*
use agent_inference_ethden.Base.{
  ℕ, String, ◌<>◌, none, some, Bool, not, ◌||◌, List, [], ◌∷◌, Bytes, length, to_text, Error, new,
  sentinel, wrap, Result, ok, err, content_not_found, upload_failed, node_down, pure, raise, lift,
  annotate, or_fail, ◌>>=◌, ◌>>◌, raise_if, raise_some, str_eq, ◌==◌, if◌then◌else◌,
}
use agent_inference_ethden.Base.Int.{pos, is_zero}
use agent_inference_ethden.Base.Decimal.{decimal}
use agent_inference_ethden.Base.Encoding.{hex_encode, base64_encode}
use agent_inference_ethden.World.{
  World, Io, Value, uint, fixed, Request, Response, ctx_err, transact, wait_mined, http_do,
  make_transact_opts,
}

-- The `StorageClient` that `NewClient` returns.
pub record Client : Type 0 where
  pub cfg : ClientConfig
  pub contract : ℕ
  pub key : ℕ

-- `io.ReadAll(resp.Body)`
read_all : Response → Result Bytes
read_all response = elim response.read_error [ none ↦ ok response.body | some e ↦ err e ]

module _ (w : World) (codec : Codec) where
  unfoldable pub new_client : ClientConfig → ℕ → Client
  new_client cfg key =
      let chunk =
        if is_zero cfg.default_chunk_size then pos 4_194_304 else cfg.default_chunk_size in
      let retries = if is_zero cfg.max_retries then pos 3 else cfg.max_retries in
      record {
        cfg = record cfg { default_chunk_size = chunk; max_retries = retries };
        contract = w.hex_to_address cfg.flow_contract_address;
        key = key;
      }

  pub payload_of : Bytes → Metadata → String → UploadPayload
  payload_of content meta content_id = record {
    content = base64_encode content;
    name = meta.name;
    content_type = meta.content_type;
    tags = meta.tags;
    content_id = content_id;
  }

  -- `http.NewRequestWithContext`, then `Client.Do`; the code drops the cause of a failed call.
  fetch : Request → String → Error → Io Response
  fetch request created failed = do
    raise_some (w.new_request_err request.method request.url) created
    or_fail failed (http_do w request)

  pub upload_to_node : Client → Bytes → Metadata → String → Io Unit
  unfolding fetch
  upload_to_node c content meta content_id = do
    body ←
        annotate "marshal upload request: "
          (lift (codec.marshal_payload (payload_of content meta content_id)))
    response ←
        fetch
          (record {
            method = "POST";
            url = storage_endpoint c.cfg <> "/api/storage";
            content_type = some "application/json";
            authorization = none;
            body = body;
          })
          "create upload request: " (wrap "upload to node: " (sentinel node_down))
    raise_if (not (response.status == 200 || response.status == 201)) (
        wrap
          ("node returned status "
            <> decimal response.status
            <> ": "
            <> to_text response.body
            <> ": ")
          (sentinel upload_failed))

  -- The first part of `Upload`: the hash goes to the Flow contract.
  pub submit_root : Client → Bytes → Io Unit
  submit_root c content = do
    opts ←
        annotate "storage: create transact opts: "
          (lift (make_transact_opts w c.key c.cfg.chain_id))
    hash ← annotate "storage: flow submit tx: " (
        transact w (record {
          contract = c.contract;
          opts = opts;
          method = "submit";
          args = fixed (codec.sha256 content) ∷ uint (length content) ∷ [];
        }))
    receipt ← annotate ("storage: wait for flow tx " <> hash <> ": ") (wait_mined w hash)
    raise_if (not (receipt.status == 1))
        (wrap "storage: flow submit reverted: " (sentinel upload_failed))

  -- Its second part: the content goes to the storage node, if an endpoint is configured.
  pub store : Client → Bytes → Metadata → String → Io Unit
  store c content meta content_id =
      if str_eq (storage_endpoint c.cfg) ""
      then pure tt
      else annotate "storage: node upload: " (upload_to_node c content meta content_id)

  pub upload : Client → Bytes → Metadata → Io String
  upload c content meta = do
    cancelled ← ctx_err w
    raise_some cancelled "storage: context cancelled before upload: "
    submit_root c content
    let content_id = hex_encode (codec.sha256 content)
    store c content meta content_id
    pure content_id

  pub download : Client → String → Io Bytes
  unfolding fetch read_all
  download c content_id = do
    cancelled ← ctx_err w
    raise_some cancelled "storage: context cancelled before download: "
    let endpoint = storage_endpoint c.cfg
    raise_if (str_eq endpoint "")
        (wrap "storage: no storage node endpoint configured: " (sentinel node_down))
    response ←
        fetch
          (record {
            method = "GET";
            url = endpoint <> "/api/storage/" <> content_id;
            content_type = none;
            authorization = none;
            body = [];
          })
          "storage: create download request: "
          (wrap "storage: download failed: " (sentinel node_down))
    raise_if (response.status == 404)
        (wrap ("storage: content " <> content_id <> ": ") (sentinel content_not_found))
    raise_if (not (response.status == 200)) (
        new (
          "storage: download returned status "
          <> decimal response.status
          <> ": "
          <> to_text response.body))
    lift (read_all response)

  pub list : Client → String → Io (List Metadata)
  unfolding fetch read_all
  list c prefix = do
    cancelled ← ctx_err w
    raise_some cancelled "storage: context cancelled before list: "
    let endpoint = storage_endpoint c.cfg
    raise_if (str_eq endpoint "")
        (wrap "storage: no storage node endpoint configured: " (sentinel node_down))
    response ←
        fetch
          (record {
            method = "GET";
            url = endpoint <> "/api/storage?prefix=" <> prefix;
            content_type = none;
            authorization = none;
            body = [];
          })
          "storage: create list request: " (wrap "storage: list failed: " (sentinel node_down))
    body ← annotate "storage: read list response: " (lift (read_all response))
    raise_if (not (response.status == 200))
        (new ("storage: list returned status " <> decimal response.status <> ": " <> to_text body))
    annotate "storage: parse list response: " (lift (codec.unmarshal_items body))
