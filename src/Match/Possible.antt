-- ===== src/Match/Possible.antt =====
-- Sources/match.c: xmatch and matchX, which tell whether two patterns can match the same text.
pub mod Hits
pub mod Sound
pub mod Complete
use undernet_cservice_p.Prelude.{
  ℕ, zero, suc, ◌+◌, ◌≡◌, Bool, true, false, ◌&&◌, ◌||◌, [], ◌∷◌, ◌==◌, if◌then◌else◌, Str,
  str_case_eq, to_upper, length,
}

-- !strcasecmp(pat, "*")
abbrev pub is_star : Str → Bool
is_star pat = str_case_eq pat (b'*' ∷ [])

-- `matchX` tries `xmatch`, here `x`, on `pat1` and every end of `pat2`, the empty one included.
unfoldable pub match_x : (Str → Str → Bool) → Str → Str → Bool
match_x x pat1 [] = x pat1 []
match_x x pat1 (c ∷ pat2) = x pat1 (c ∷ pat2) || match_x x pat1 pat2

-- !*p && !strcasecmp(q, "*")
abbrev pub ends_in_star : Str → Str → Bool
ends_in_star [] q = is_star q
ends_in_star (c ∷ p) q = false

-- The `while` loop of `xmatch`, with the recursive calls made through `x`.
unfoldable pub xmatch_loop : (Str → Str → Bool) → Str → Str → Bool
unfolding match_x str_case_eq
xmatch_loop x [] [] = true
xmatch_loop x [] (b ∷ pat2) = false
xmatch_loop x (a ∷ pat1) [] = false
xmatch_loop x (a ∷ pat1) (b ∷ pat2) =
    let rest = xmatch_loop x pat1 pat2 in
    if a == b'*' && b == b'*'
    then match_x x pat1 pat2 || match_x x pat2 pat1
    else if a == b'*'
    then match_x x pat1 (b ∷ pat2)
    else if b == b'*'
    then match_x x pat2 (a ∷ pat1)
    else if a == b'?' || b == b'?' || to_upper a == to_upper b
    then (if ends_in_star pat1 pat2 || ends_in_star pat2 pat1 then true else rest)
    else false

unfoldable pub xmatch_fuel : ℕ → Str → Str → Bool
unfolding xmatch_loop
xmatch_fuel zero pat1 pat2 = false
xmatch_fuel (suc f) pat1 pat2 =
    if is_star pat1 || is_star pat2 then true else xmatch_loop (xmatch_fuel f) pat1 pat2

-- Each nested call has left at least one star behind.
unfoldable pub xmatch : Str → Str → Bool
unfolding xmatch_fuel
xmatch pat1 pat2 = xmatch_fuel (suc (length pat1 + length pat2)) pat1 pat2
