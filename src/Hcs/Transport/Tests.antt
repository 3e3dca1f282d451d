-- ===== src/Hcs/Transport/Tests.antt =====
-- The transport at a network that grants everything, and at one that refuses subscriptions.
use agent_inference_ethden.Base.{
  ◌≡◌, refl, Bool, true, false, none, some, [], ◌∷◌, Error, new, wrap, ok, err,
}
use agent_inference_ethden.Base.Int.{pos, negsuc}
use agent_inference_ethden.Hcs.Transport.{
  HcsTransportConfig, HcsTransport, new_transport, Journal, Hiero, publish, subscribe, up,
  run_subscription, reconnect_loop, subscribe_once, checked, subscribed, clock_read,
}
use agent_inference_ethden.Hcs.Transport.Loop as Loop
use agent_inference_ethden.Hcs.Transport.Reports as Reports

abbrev pub network : (Journal → Bool) → Hiero
network ends = record {
  topic_id_from_string = λ s. ok 1001;
  ctx_err = λ j. none;
  now = λ j. 90_000_000_000;
  wait = λ j d. none;
  freeze = λ j topic message. none;
  execute = λ j topic message. ok 5;
  get_receipt = λ j response. none;
  subscribe = λ j topic start. none;
  ends = ends;
  taken = λ j. 0;
}

abbrev refusal : Error
refusal = new "unavailable"

abbrev refusing_network : Hiero
refusing_network = record (network (λ j. false)) { subscribe = λ j topic start. some refusal }

abbrev pub transport : HcsTransport
transport = record {
  client = 3;
  message_buffer = 4;
  reconnect_delay = 2_000_000_000;
  max_reconnects = 1;
}

abbrev zero_config : HcsTransportConfig
zero_config = record {
  client = 3;
  message_buffer = pos 0;
  reconnect_delay = negsuc 6;
  max_reconnects = pos 0;
}

-- The defaults of a configuration that sets nothing.
zero_transport : new_transport zero_config ≡ record {
  client = 3;
  message_buffer = 100;
  reconnect_delay = 2_000_000_000;
  max_reconnects = 10;
}
unfolding new_transport
zero_transport = refl

-- The subscription starts thirty seconds before now.
subscribed_recently :
    subscribe (network (λ j. false)) transport "0.0.1"
    ≡ (up, subscribed 1001 (pos 60_000_000_000) ∷ clock_read ∷ checked ∷ [])
unfolding subscribe run_subscription reconnect_loop subscribe_once
subscribed_recently = refl

unconfirmed :
    (publish
      (record (network (λ j. false)) { get_receipt = λ j r. some (new "busy") })
      "0.0.1"
      (7 ∷ [])
      []).0
    ≡ err (wrap "hcs transport: publish to 0.0.1: receipt: " (new "busy"))
unfolding publish
unconfirmed = refl

run_subscription-Ending_example :
    Loop.Ending
      (network (λ j. true))
      transport
      "0.0.1"
      1001
      2
      []
      (run_subscription (network (λ j. true)) transport "0.0.1" 1001 [])
run_subscription-Ending_example =
    Loop.run_subscription-Ending (network (λ j. true)) transport "0.0.1" 1001
