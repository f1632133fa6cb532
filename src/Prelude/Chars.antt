-- ===== src/Prelude/Chars.antt =====
-- C strings without their terminating byte, and what the code uses of <ctype.h> and <string.h>
-- in the C locale.
use Prim.Native.Nat.{ℕ, ◌-◌}
use Prim.Native.Char.{code}
use Prim.Native.String.{String}
use mathlib.Core.Path.{◌≡◌}
use mathlib.Core.Logic.{◌↔◌}
use mathlib.Core.List.{List, [], ◌∷◌, map}
use mathlib.Core.Bool.{Bool, true, false, ◌&&◌}
use native.Mathlib.Omega.{arith}
use undernet_cservice_p.Prelude.Tests.{leb, ◌==◌, if◌then◌else◌}

-- A string is the list of its bytes before the terminating zero.
abbrev pub Str : Type 0
Str = List ℕ

abbrev pub codes : String → Str
codes String.[] = []
codes (String.◌∷◌ c s) = code c ∷ codes s

-- toupper
unfoldable pub to_upper : ℕ → ℕ
to_upper c = if leb b'a' c && leb c b'z' then c - 32 else c

-- isdigit
abbrev pub is_digit : ℕ → Bool
is_digit c = leb b'0' c && leb c b'9'

-- strcmp(a, b) == 0
unfoldable pub str_eq : Str → Str → Bool
str_eq [] [] = true
str_eq (a ∷ s) (b ∷ t) = a == b && str_eq s t
str_eq _ _ = false

-- strcasecmp(a, b) == 0
unfoldable pub str_case_eq : Str → Str → Bool
unfolding to_upper
str_case_eq [] [] = true
str_case_eq (a ∷ s) (b ∷ t) = to_upper a == to_upper b && str_case_eq s t
str_case_eq _ _ = false

-- *s
abbrev pub head_byte : Str → ℕ
head_byte [] = 0
head_byte (c ∷ _) = c

pub to_upper_zero : (c : ℕ) → to_upper c ≡ 0 → c ≡ 0
unfolding to_upper
to_upper_zero c h = ground arith

pub str_eq_iff : (s t : Str) → (str_eq s t ≡ true) ↔ (s ≡ t)
unfolding str_eq
str_eq_iff [] [] = ground arith
str_eq_iff [] (b ∷ t) = ground arith
str_eq_iff (a ∷ s) [] = ground arith
str_eq_iff (a ∷ s) (b ∷ t) = ground (arith, str_eq_iff s t)

pub str_case_eq_iff : (s t : Str) → (str_case_eq s t ≡ true) ↔ (map to_upper s ≡ map to_upper t)
unfolding str_case_eq
str_case_eq_iff [] [] = ground arith
str_case_eq_iff [] (b ∷ t) = ground arith
str_case_eq_iff (a ∷ s) [] = ground arith
str_case_eq_iff (a ∷ s) (b ∷ t) = ground (arith, str_case_eq_iff s t)
