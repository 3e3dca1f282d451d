-- ===== src/Storage/Tests.antt =====
-- The storage client at concrete inputs.
use agent_inference_ethden.Base.{
  Option, ◌≡◌, ◌≢◌, refl, ok, Bytes, [], ◌∷◌, some, none, eq_iff, arith, str_eq, if◌then◌else◌,
}
use agent_inference_ethden.Base.Int.{pos}
use agent_inference_ethden.Base.Encoding.{hex_encode}
use agent_inference_ethden.World.{World, History, make_transact_opts}
use agent_inference_ethden.World.Sample.{sample_world}
use agent_inference_ethden.Storage.{
  Client, Codec, Metadata, UploadPayload, payload_of, upload, download, submit_root, store,
  upload_to_node, fetch, read_all,
}
use agent_inference_ethden.Storage.Types.{storage_endpoint}
use agent_inference_ethden.Storage.Laws
use agent_inference_ethden.Storage.Node
use agent_inference_ethden.Storage.Laws.{Anchored, WasStored, ask}

abbrev pub client : Client
client = record {
  cfg = record {
    chain_rpc = "";
    chain_id = pos 16_602;
    flow_contract_address = "0x22";
    private_key = "";
    storage_node_endpoint = "http://node";
    default_chunk_size = pos 4_194_304;
    max_retries = pos 3;
    endpoint = "";
  };
  contract = 9;
  key = 3;
}

abbrev pub codec : Codec
codec = record {
  marshal_payload = λ p. ok (8 ∷ []);
  unmarshal_items = λ b. ok [];
  sha256 = λ b. 171 ∷ 5 ∷ [];
}

abbrev metadata : Metadata
metadata = record {
  content_id = "";
  name = "inference-t1";
  size = pos 0;
  content_type = "application/json";
  created_at = 0;
  tags = [];
}

abbrev content : Bytes
content = 1 ∷ 2 ∷ 3 ∷ []

abbrev empty_node : World
empty_node = record sample_world {
  http_do = λ h request. ok (record { status = 404; body = []; read_error = none });
}

pub uploaded :
    (bs : Bytes) (meta : Metadata) (h : History)
    → (upload sample_world codec client bs meta h).0 ≡ ok "ab05"
unfolding upload submit_root store upload_to_node fetch make_transact_opts storage_endpoint
    hex_encode
uploaded bs meta h = refl

downloaded : (download sample_world codec client "ab05" []).0 ≡ ok (1 ∷ [])
unfolding download fetch read_all storage_endpoint
downloaded = refl

endpoint_set : storage_endpoint client.cfg ≢ ""
unfolding storage_endpoint
endpoint_set = λ e. ground (arith, (eq_iff "http://node" "").1 e)

upload-ok_example :
    ("ab05" ≡ hex_encode (codec.sha256 content))
    × ((g : History) × Anchored sample_world codec client content g
        × WasStored sample_world codec client content metadata "ab05" g
            (upload sample_world codec client content metadata []).1)
upload-ok_example =
    Laws.upload-ok sample_world codec client content metadata [] (uploaded content metadata [])

-- A node that has this content.
abbrev full_node : World
full_node = record sample_world {
  http_do = λ h request. ok (record {
    status = 200;
    body = if str_eq request.method "GET" then content else [];
    read_error = none;
  });
}

abbrev decode : Bytes → Option UploadPayload
decode body = some (payload_of full_node codec content metadata "ab05")

full_node-IsNode : Node.IsNode full_node codec client decode content
full_node-IsNode = record {
  serves = λ h body response payload answered created read held. ground arith;
}

filled : (upload full_node codec client content metadata []).0 ≡ ok "ab05"
unfolding upload submit_root store upload_to_node fetch make_transact_opts storage_endpoint
    hex_encode
filled = refl

download-upload_example :
    (download full_node codec client "ab05" (upload full_node codec client content metadata []).1).0
    ≡ ok (1 ∷ 2 ∷ 3 ∷ [])
download-upload_example =
    Node.download-upload full_node codec client decode content metadata [] full_node-IsNode
      (λ body e. refl) endpoint_set refl (λ g. refl) filled
