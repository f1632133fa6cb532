-- ===== src/Numerics/Digits.antt =====
-- The digits that inttobase64 of Sources/servers.c writes determine the number.
use native.Mathlib.Nat.{mul_left_comm, pow-succ'}
use undernet_cservice_p.Prelude.{
  ℕ, zero, suc, ◌+◌, ◌-◌, ◌/◌, ◌%◌, ◌*◌, ◌^◌, ◌<◌, ◌≡◌, refl, ap, ◌∙◌, ◌&&◌, [], ◌∷◌, ◌==◌, leb,
  if◌then◌else◌, Str, length, arith,
}
use undernet_cservice_p.Numerics.{convert2y, inttobase64_loop, inttobase64}

-- The place of a digit among those of convert2y.
unfoldable pub digit_value : ℕ → ℕ
digit_value c =
    if leb b'a' c && leb c b'z'
    then c - b'a' + 26
    else if leb b'0' c && leb c b'9'
    then c - b'0' + 52
    else if c == b'['
    then 62
    else if c == b']'
    then 63
    else c - b'A'

-- The number that digits stand for, the first being the highest.
unfoldable pub base64_value : ℕ → Str → ℕ
unfolding digit_value
base64_value acc [] = acc
base64_value acc (c ∷ s) = base64_value (acc * 64 + digit_value c) s

digit_value-convert2y : (d : ℕ) → d < 64 → digit_value (convert2y d) ≡ d
unfolding digit_value convert2y
digit_value-convert2y d h = ground (arith, h)

pow_step : (n : ℕ) → 64 ^ suc n ≡ 64 * 64 ^ n
pow_step n = pow-succ' 64 n

scale : (acc p v : ℕ) → (acc * p + v / 64) * 64 + v % 64 ≡ acc * (64 * p) + v
scale acc p v = omega (arith, mul_left_comm acc 64 p)

inttobase64_loop-value :
    (count acc v : ℕ) (digits : Str)
    → v < 64 ^ count
    → base64_value acc (inttobase64_loop count v digits)
      ≡ base64_value (acc * 64 ^ count + v) digits
unfolding base64_value inttobase64_loop
inttobase64_loop-value zero acc v digits h = ap (λ n. base64_value n digits) (omega (arith, h))
inttobase64_loop-value (suc count) acc v digits h =
    let p : ℕ = 64 ^ count in
    let below : v / 64 < p = omega (arith, h, pow_step count) in
    rw
      (
        inttobase64_loop-value count acc (v / 64) (convert2y (v % 64) ∷ digits) below,
        digit_value-convert2y (v % 64) (omega arith),
        pow_step count,
        scale acc p v,
      )
      refl

inttobase64_loop-length :
    (count v : ℕ) (digits : Str) → length (inttobase64_loop count v digits) ≡ count + length digits
unfolding inttobase64_loop
inttobase64_loop-length zero v digits = omega arith
inttobase64_loop-length (suc count) v digits =
    omega (arith, inttobase64_loop-length count (v / 64) (convert2y (v % 64) ∷ digits))

-- A number that `count` digits have room for is the value of the digits that inttobase64 writes,
-- which are as many as asked for.
pub inttobase64-value :
    (v count : ℕ)
    → v < 64 ^ count
    → (base64_value 0 (inttobase64 v count) ≡ v) × (length (inttobase64 v count) ≡ count)
unfolding inttobase64 base64_value
inttobase64-value v count h = (
  inttobase64_loop-value count 0 v [] h ∙ omega arith,
  omega (arith, inttobase64_loop-length count v []),
)
