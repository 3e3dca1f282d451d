-- ===== src/World/Sample.antt =====
-- A world for the tests, in which every call succeeds: each transaction is mined with status 1 and
-- one log of each event, each request is answered 200, and the clock stands at three hours.
use agent_inference_ethden.Base.{none, ok, true, [], ◌∷◌, replicate, str_eq, if◌then◌else◌}
use agent_inference_ethden.World.Types.{address, flag, tick}
use agent_inference_ethden.World.{World}

abbrev pub sample_world : World
sample_world = record {
  ctx_err = λ h. none;
  now = λ h. 10_800_000_000_000;
  wait = λ h d. none;
  poll = λ h. tick;
  rand_read = λ h n. ok (replicate n 7);
  keyed_transactor_err = λ key chain. none;
  transact = λ h tx. ok "0xabc";
  wait_mined = λ h hash. ok (record {
    status = 1;
    logs = record { topics = 11 ∷ 77 ∷ [] } ∷ record { topics = 22 ∷ 0 ∷ 5 ∷ 42 ∷ [] } ∷ [];
  });
  view = λ h v. ok (if str_eq v.method "isDataAvailable" then flag true ∷ [] else address 5 ∷ []);
  hex_to_address = λ s. 9;
  address_hex = λ a. "0x5";
  hex_to_hash = λ s. 77;
  hash_hex = λ a. "0x4d";
  pubkey_to_address = λ key. key;
  event_id = λ name. if str_eq name "Transfer" then 22 else 11;
  new_request_err = λ method url. none;
  http_do = λ h request. ok (record { status = 200; body = 1 ∷ []; read_error = none });
  hcs_publish = λ h topic message. none;
}
