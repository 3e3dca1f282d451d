-- ===== src/Base/Int.antt =====
-- Go's signed integers. `negsuc n` is -(n + 1).
use Prim.Native.Nat.{ℕ, zero, suc, ◌+◌, ◌-◌, ◌%◌, ◌^◌, ◌≤◌, ◌<◌}
use mathlib.Core.Bool.{Bool, true, false}
use mathlib.Core.Path.{◌≡◌}
use native.Mathlib.Omega.{arith}
use agent_inference_ethden.Base.Tests.{ltb, leb, ◌==◌, if◌then◌else◌}

pub data ℤ : Type 0 where
  pos : ℕ → ℤ
  negsuc : ℕ → ℤ

-- `n <= 0`
abbrev pub is_nonpos : ℤ → Bool
is_nonpos (pos n) = ltb n 1
is_nonpos (negsuc n) = true

-- `n == 0`
abbrev pub is_zero : ℤ → Bool
is_zero (pos n) = ltb n 1
is_zero (negsuc n) = false

-- `a < n`
abbrev pub less : ℕ → ℤ → Bool
less a (pos n) = ltb a n
less a (negsuc n) = false

-- `n + 1`
abbrev pub add_one : ℤ → ℤ
add_one (pos n) = pos (suc n)
add_one (negsuc zero) = pos 0
add_one (negsuc (suc n)) = negsuc n

-- How often the loop `for i := 0; i <= n; i++` runs.
abbrev pub rounds : ℤ → ℕ
rounds (pos n) = suc n
rounds (negsuc n) = 0

-- `-n`
abbrev pub negate : ℕ → ℤ
negate zero = pos 0
negate (suc n) = negsuc n

-- The value of a number that is not negative.
abbrev pub pos_part : ℤ → ℕ
pos_part (pos n) = n
pos_part (negsuc n) = 0

-- `a - b`
abbrev pub sub_ℕ : ℕ → ℕ → ℤ
sub_ℕ a b = if leb b a then pos (a - b) else negsuc (b - a - 1)

-- `a == b`
abbrev pub eq_ℤ : ℤ → ℤ → Bool
eq_ℤ (pos n) (pos m) = n == m
eq_ℤ (negsuc n) (negsuc m) = n == m
eq_ℤ _ _ = false

pub eq_ℤ_refl : (a : ℤ) → eq_ℤ a a ≡ true
eq_ℤ_refl (pos n) = ground arith
eq_ℤ_refl (negsuc n) = ground arith

-- The int that 64 bits stand for.
abbrev pub signed : ℕ → ℤ
signed n = if ltb n (2 ^ 63) then pos n else sub_ℕ n (2 ^ 64)

pub signed-small : (n : ℕ) → n < 2 ^ 63 → signed n ≡ pos n
signed-small n h = ground arith

-- `a <= b`
abbrev pub IsAtMost : ℤ → ℤ → Type 0
IsAtMost (pos n) (pos m) = n ≤ m
IsAtMost (pos n) (negsuc m) = ⊥
IsAtMost (negsuc n) (pos m) = Unit
IsAtMost (negsuc n) (negsuc m) = m ≤ n

pub IsAtMost-refl : (a : ℤ) → IsAtMost a a
IsAtMost-refl (pos n) = omega arith
IsAtMost-refl (negsuc n) = omega arith

pub IsAtMost-trans : (a b c : ℤ) → IsAtMost a b → IsAtMost b c → IsAtMost a c
IsAtMost-trans (pos n) (pos m) (pos k) x y = omega arith
IsAtMost-trans (pos n) (pos m) (negsuc k) x y = y
IsAtMost-trans (pos n) (negsuc m) c x y = absurd x
IsAtMost-trans (negsuc n) b (pos k) x y = tt
IsAtMost-trans (negsuc n) (pos m) (negsuc k) x y = absurd y
IsAtMost-trans (negsuc n) (negsuc m) (negsuc k) x y = omega arith

-- One more does not make an int64 smaller, unless it is the largest.
pub signed-next : (n : ℕ) → n + 1 < 2 ^ 63 → IsAtMost (signed n) (signed ((n + 1) % 2 ^ 64))
signed-next n h =
    let more : (n + 1) % 2 ^ 64 ≡ n + 1 = omega arith in
    rw (more, signed-small n (omega arith), signed-small (n + 1) h) (omega arith)
