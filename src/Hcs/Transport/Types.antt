-- ===== src/Hcs/Transport/Types.antt =====
-- `HCSTransportConfig`, `HCSTransport` and `NewHCSTransport` of internal/hcs/transport.go.
use agent_inference_ethden.Base.{ℕ, if◌then◌else◌}
use agent_inference_ethden.Base.Int.{ℤ, is_nonpos, pos_part}

abbrev pub default_message_buffer : ℕ
default_message_buffer = 100

abbrev pub default_reconnect_delay : ℕ
default_reconnect_delay = 2_000_000_000

abbrev pub default_max_reconnects : ℕ
default_max_reconnects = 10

-- The pointer to the client is a number; a duration is in nanoseconds.
pub record HcsTransportConfig : Type 0 where
  pub client : ℕ
  pub message_buffer : ℤ
  pub reconnect_delay : ℤ
  pub max_reconnects : ℤ

pub record HcsTransport : Type 0 where
  pub client : ℕ
  pub message_buffer : ℕ
  pub reconnect_delay : ℕ
  pub max_reconnects : ℕ

-- `if n <= 0 { n = d }`
abbrev or_default : ℤ → ℕ → ℕ
or_default n d = if is_nonpos n then d else pos_part n

unfoldable pub new_transport : HcsTransportConfig → HcsTransport
new_transport cfg = record {
  client = cfg.client;
  message_buffer = or_default cfg.message_buffer default_message_buffer;
  reconnect_delay = or_default cfg.reconnect_delay default_reconnect_delay;
  max_reconnects = or_default cfg.max_reconnects default_max_reconnects;
}
