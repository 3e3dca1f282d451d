-- ===== src/Base/Text.antt =====
-- Go strings are byte strings: here a text whose characters are its bytes, one for one.
use Prim.Native.Nat.{ℕ, ◌%◌, ◌<◌, compare, Ordering}
use Prim.Native.Char.{Char, char, code, IsScalar}
use Prim.Native.String.{String}
use mathlib.Core.Path.{◌≡◌, refl, ap₂}
use mathlib.Core.List.{[], ◌∷◌}
use native.Mathlib.Omega.{arith}
use agent_inference_ethden.Base.Lists.{Bytes, All}

byte_lt : (n : ℕ) → compare (n % 256) 55296 ≡ Ordering.lt
byte_lt n = ground arith

byte_IsScalar : (n : ℕ) → IsScalar (n % 256)
byte_IsScalar n = rw (byte_lt n) tt

byte_char : ℕ → Char
unfolding byte_IsScalar
byte_char n = char (n % 256) (byte_IsScalar n)

-- `string(b)`
unfoldable pub to_text : Bytes → String
unfolding byte_char byte_lt
to_text [] = String.[]
to_text (b ∷ bs) = String.◌∷◌ (byte_char b) (to_text bs)

-- `[]byte(s)`
unfoldable pub to_bytes : String → Bytes
to_bytes String.[] = []
to_bytes (String.◌∷◌ c s) = code c ∷ to_bytes s

pub to_bytes-to_text : (bs : Bytes) → All (λ b. b < 256) bs → to_bytes (to_text bs) ≡ bs
unfolding to_bytes to_text
to_bytes-to_text [] h = refl
to_bytes-to_text (b ∷ bs) h = ap₂ ◌∷◌ (omega arith) (to_bytes-to_text bs h.1)
