-- ===== src/Match/Mask.antt =====
-- Sources/match.c: match, which tells whether a text fits a mask of `*`, `?` and `\`.
pub mod Meaning
pub mod Correct
use undernet_cservice_p.Prelude.{
  ℕ, zero, suc, ◌+◌, ◌*◌, Bool, true, false, ◌||◌, ◌&&◌, not, Option, none, some, List, [], ◌∷◌,
  ◌==◌, if◌then◌else◌, Str, codes, to_upper, length,
}

abbrev pub backslash : ℕ
backslash = 92

-- Whether `s` begins with `needle`.
unfoldable pub starts_with : Str → Str → Bool
starts_with [] s = true
starts_with (c ∷ needle) [] = false
starts_with (c ∷ needle) (d ∷ s) = c == d && starts_with needle s

-- strstr, then strcpy(ptr, "*"): the text before the first place of `needle`, and a star.
unfoldable pub star_at : Str → Str → Option Str
unfolding starts_with
star_at needle [] = if starts_with needle [] then some (b'*' ∷ []) else none
star_at needle (c ∷ s) =
    if starts_with needle (c ∷ s)
    then some (b'*' ∷ [])
    else elim (star_at needle s) [ none ↦ none | some r ↦ some (c ∷ r) ]

abbrev pub or_else : Option Str → Option Str → Option Str
or_else none o = o
or_else (some r) o = some r

-- An IPv6 prefix length is replaced by a star.
unfoldable pub star_ipv6 : Str → Str
unfolding star_at
star_ipv6 s =
    elim (or_else (star_at (codes ":/112") s) (
      or_else (star_at (codes ":/96") s)
        (or_else (star_at (codes ":/80") s) (star_at (codes ":/64") s)))) [ none ↦ s | some r ↦ r ]

-- while (*++mask == '*');
unfoldable pub skip_stars : Str → Str
skip_stars [] = []
skip_stars (c ∷ p) = let rest = skip_stars p in if c == b'*' then rest else c ∷ p

-- The test of the `default` case, after a `\` (`quote`) or not: the mask after the byte that it
-- read, or none on a mismatch. At the end of the mask the byte read is zero.
unfoldable pub read_mask : Bool → Str → ℕ → Option Str
read_mask quote [] c = none
read_mask quote (d ∷ p) c =
    if to_upper c == to_upper d || (d == b'?' && not quote) then some p else none

-- The `stack`: a mask that begins with a star, and the text that was left there.
abbrev pub Stack : Type 0
Stack = List (Str × Str)

abbrev pub Round : Type 0
Round = Str → Str → Stack → Option Bool

-- A mismatch: the last star takes one more byte, or there is none.
unfoldable pub back_up : Round → Stack → Option Bool
back_up next [] = some false
back_up next ((mask, []) ∷ stack) = some false
back_up next ((mask, c ∷ s) ∷ stack) = next s mask stack

-- One round on a text that is not at its end.
unfoldable pub match_byte : Round → ℕ → Str → Str → Stack → Option Bool
unfolding read_mask back_up
match_byte next c s [] stack = back_up next stack
match_byte next c s (d ∷ p) stack =
    elim (if d == backslash then read_mask true p c else read_mask false (d ∷ p) c) [
      | none ↦ back_up next stack
      | some mask ↦ next s mask stack
    ]

-- The `while` loop on fuel; `none` means that it ran out. `length stack` is `level`.
unfoldable pub match_loop : ℕ → Round
unfolding skip_stars match_byte
match_loop zero s mask stack = none
match_loop (suc f) [] mask stack = some (length (skip_stars mask) == 0)
match_loop (suc f) (c ∷ s) [] stack = match_byte (match_loop f) c s [] stack
match_loop (suc f) (c ∷ s) (d ∷ p) stack =
    let pushed = match_loop f (c ∷ s) (skip_stars p) ((d ∷ p, c ∷ s) ∷ stack) in
    let byte = match_byte (match_loop f) c s (d ∷ p) stack in
    if d == b'*' then (if suc (length stack) == 200 then some false else pushed) else byte

-- Each round reads a byte of the mask, or moves the last star on.
unfoldable pub match : Str → Str → Option Bool
unfolding star_ipv6 match_loop
match instring inmask =
    let string = star_ipv6 instring in
    let mask = star_ipv6 inmask in
    match_loop (suc ((length string + 1) * (length mask + 2))) string mask []

-- A test of what `match` returns; `none`, which stands for fuel that ran out, counts as false.
unfoldable pub matches : Str → Str → Bool
unfolding match
matches string mask = elim (match string mask) [ none ↦ false | some b ↦ b ]
