-- ===== src/Compute/Sample.antt =====
-- A broker and a codec for the tests.
use agent_inference_ethden.Base.{ok, none, some, [], ◌∷◌, replicate}
use agent_inference_ethden.Base.Int.{pos}
use agent_inference_ethden.Compute.Types.{
  Broker, Codec, ChatResponse, JobRequest, State, Model, Session,
}

abbrev pub chat : ChatResponse
chat = record {
  id = "job1";
  choices = record { message = record { role = "assistant"; content = "42" }; index = pos 0 } ∷ [];
  usage = record { prompt_tokens = pos 3; completion_tokens = pos 4; total_tokens = pos 7 };
  model = "m";
  error = none;
}

abbrev pub codec : Codec
codec = record {
  marshal_chat = λ r. ok [];
  unmarshal_chat = λ b. ok chat;
  unmarshal_services = λ b. ok [];
  marshal_token = λ t. ok [];
  keccak256 = λ b. [];
  sign = λ hash key. ok (replicate 65 0);
  duration_text = λ d. "5m0s";
}

abbrev pub broker : Broker
broker = record {
  cfg = record {
    chain_rpc = "";
    chain_id = pos 16_602;
    serving_contract_address = "0x9";
    private_key = "";
    endpoint = "http://fallback";
    provider_address = "";
    poll_interval = 2_000_000_000;
    poll_timeout = 300_000_000_000;
  };
  contract = 9;
  key = 3;
}

abbrev pub request : JobRequest
request = record {
  model_id = "m";
  input = "6 * 7";
  max_tokens = pos 100;
  temperature = 0;
  metadata = [];
}

abbrev pub model : Model
model = record { id = "m"; name = "M"; provider = "0x5"; service_type = ""; url = "http://p" }

abbrev pub empty_session : Session
empty_session = record {
  cached_token = "";
  cached_provider = "";
  token_expiry = 0;
  setup_done = [];
}

abbrev pub fresh_state : State
fresh_state = record {
  history = [];
  models = none;
  models_ttl = 0;
  results = [];
  session = some empty_session;
}
