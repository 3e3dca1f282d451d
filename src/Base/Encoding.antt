-- ===== src/Base/Encoding.antt =====
-- Packages encoding/hex and encoding/base64 (the standard encoding).
use Prim.Native.Nat.{ℕ, ◌+◌, ◌-◌, ◌*◌, ◌/◌, ◌%◌, ◌<◌}
use Prim.Native.String.{String}
use mathlib.Core.Path.{◌≡◌, refl, ◌∙◌, ap}
use mathlib.Core.Bool.{◌&&◌}
use mathlib.Core.Option.{Option, none, some}
use mathlib.Core.List.{[], ◌∷◌}
use native.Mathlib.Omega.{arith}
use agent_inference_ethden.Base.Tests.{◌==◌, leb, ltb, if◌then◌else◌}
use agent_inference_ethden.Base.Lists.{Bytes, All}
use agent_inference_ethden.Base.Text.{to_text, to_bytes, to_bytes-to_text}
use agent_inference_ethden.Base.Errors.{Result, ok, err, new}

hex_digit : ℕ → ℕ
hex_digit n = if ltb n 10 then 48 + n else 87 + n

hex_bytes : Bytes → Bytes
hex_bytes [] = []
hex_bytes (b ∷ bs) = hex_digit (b / 16) ∷ hex_digit (b % 16) ∷ hex_bytes bs

-- `hex.EncodeToString`
unfoldable pub hex_encode : Bytes → String
unfolding hex_bytes hex_digit to_text
hex_encode bs = to_text (hex_bytes bs)

from_hex_digit : ℕ → Option ℕ
from_hex_digit c =
    if leb 48 c && leb c 57
    then some (c - 48)
    else if leb 97 c && leb c 102
    then some (c - 87)
    else if leb 65 c && leb c 70
    then some (c - 55)
    else none

decode_pair : Option ℕ → Option ℕ → Result Bytes → Result Bytes
decode_pair (some hi) (some lo) (ok bs) = ok ((hi * 16 + lo) ∷ bs)
decode_pair (some hi) (some lo) (err e) = err e
decode_pair _ _ _ = err (new "encoding/hex: invalid byte")

unhex_bytes : Bytes → Result Bytes
unfolding from_hex_digit decode_pair
unhex_bytes [] = ok []
unhex_bytes (c ∷ []) = err (new "encoding/hex: odd length hex string")
unhex_bytes (c ∷ d ∷ cs) = decode_pair (from_hex_digit c) (from_hex_digit d) (unhex_bytes cs)

-- `hex.DecodeString`; the message about a bad byte does not name it.
unfoldable pub hex_decode : String → Result Bytes
unfolding unhex_bytes to_bytes
hex_decode s = unhex_bytes (to_bytes s)

from_hex_digit-hex_digit : (n : ℕ) → n < 16 → from_hex_digit (hex_digit n) ≡ some n
unfolding from_hex_digit hex_digit
from_hex_digit-hex_digit n h = ground arith

hex_digit-lt : (n : ℕ) → n < 16 → hex_digit n < 256
unfolding hex_digit
hex_digit-lt n h = ground arith

hex_bytes-All : (bs : Bytes) → All (λ b. b < 256) bs → All (λ b. b < 256) (hex_bytes bs)
unfolding hex_bytes
hex_bytes-All [] h = tt
hex_bytes-All (b ∷ bs) h = (
  hex_digit-lt (b / 16) (omega arith),
  (hex_digit-lt (b % 16) (omega arith), hex_bytes-All bs h.1),
)

unhex_bytes-hex_bytes : (bs : Bytes) → All (λ b. b < 256) bs → unhex_bytes (hex_bytes bs) ≡ ok bs
unfolding unhex_bytes hex_bytes
unhex_bytes-hex_bytes [] h = refl
unhex_bytes-hex_bytes (b ∷ bs) h = ground (
  arith,
  from_hex_digit-hex_digit (b / 16),
  from_hex_digit-hex_digit (b % 16),
  unhex_bytes-hex_bytes bs h.1,
)

pub hex_decode-hex_encode :
    (bs : Bytes) → All (λ b. b < 256) bs → hex_decode (hex_encode bs) ≡ ok bs
unfolding hex_decode hex_encode
hex_decode-hex_encode bs h =
    ap unhex_bytes (to_bytes-to_text (hex_bytes bs) (hex_bytes-All bs h))
    ∙ unhex_bytes-hex_bytes bs h

base64_digit : ℕ → ℕ
base64_digit n =
    if ltb n 26
    then 65 + n
    else if ltb n 52
    then 71 + n
    else if ltb n 62
    then n - 4
    else if n == 62
    then b'+'
    else b'/'

base64_bytes : Bytes → Bytes
base64_bytes [] = []
base64_bytes (a ∷ []) = base64_digit (a / 4) ∷ base64_digit (a % 4 * 16) ∷ b'=' ∷ b'=' ∷ []
base64_bytes (a ∷ b ∷ []) =
    base64_digit (a / 4)
    ∷ base64_digit (a % 4 * 16 + b / 16)
    ∷ base64_digit (b % 16 * 4)
    ∷ b'='
    ∷ []
base64_bytes (a ∷ b ∷ c ∷ rest) =
    base64_digit (a / 4)
    ∷ base64_digit (a % 4 * 16 + b / 16)
    ∷ base64_digit (b % 16 * 4 + c / 64)
    ∷ base64_digit (c % 64)
    ∷ base64_bytes rest

-- `base64.StdEncoding.EncodeToString`
unfoldable pub base64_encode : Bytes → String
unfolding base64_bytes base64_digit to_text
base64_encode bs = to_text (base64_bytes bs)
