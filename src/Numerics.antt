-- ===== src/Numerics.antt =====
-- inttobase64 of Sources/servers.c: the digits of the numbers of servers and users.
pub mod Digits
use undernet_cservice_p.Prelude.{
  ℕ, zero, suc, ◌+◌, ◌-◌, ◌/◌, ◌%◌, ◌*◌, Bool, true, false, List, [], ◌∷◌, ◌++◌, ◌==◌, ltb, leb,
  if◌then◌else◌, Str,
}

-- convert2y[d]
unfoldable pub convert2y : ℕ → ℕ
convert2y d =
    if ltb d 26
    then b'A' + d
    else if ltb d 52
    then b'a' + (d - 26)
    else if ltb d 62
    then b'0' + (d - 52)
    else if d == 62
    then b'['
    else b']'

-- The loop from the last digit to the first: `digits` is what is written already.
unfoldable pub inttobase64_loop : ℕ → ℕ → Str → Str
unfolding convert2y
inttobase64_loop zero v digits = digits
inttobase64_loop (suc count) v digits =
    inttobase64_loop count (v / 64) (convert2y (v % 64) ∷ digits)

unfoldable pub inttobase64 : ℕ → ℕ → Str
unfolding inttobase64_loop
inttobase64 v count = inttobase64_loop count v []
