-- ===== src/Mock/Tests.antt =====
-- The mocks at concrete inputs.
use agent_inference_ethden.Base.{◌≡◌, refl, ok, []}
use agent_inference_ethden.Base.Int.{pos, negsuc}
use agent_inference_ethden.Base.Decimal.{decimal_ℤ}
use agent_inference_ethden.Compute.{JobRequest}
use agent_inference_ethden.Mock.{ComputeBroker, submit_job, get_status, new_compute_broker}

abbrev request : JobRequest
request = record {
  model_id = "m";
  input = "6 * 7";
  max_tokens = pos 100;
  temperature = 0;
  metadata = [];
}

first_id : (submit_job request (new_compute_broker 0)).0 ≡ ok "mock-job-1"
unfolding submit_job new_compute_broker decimal_ℤ
first_id = refl

-- The mint of a token lies a day back, also before the zero time.
minted_before :
    (get_status {S = Unit {0}} 0 "7" tt).0
    ≡ ok (record {
      token_id = "7";
      owner = "0x0000000000000000000000000000000000000000";
      minted_at = negsuc 86_399_999_999_999;
      metadata_hash = "0xmockhash";
      chain_id = pos 16_602;
    })
unfolding get_status
minted_before = refl

abbrev broker : ComputeBroker
broker = record { job_counter = 5; drawn = 0 }
