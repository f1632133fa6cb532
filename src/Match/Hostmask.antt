-- ===== src/Match/Hostmask.antt =====
-- Sources/match.c: compare, which tells whether two nick!user@host masks can match the same user.
pub mod Parts
pub mod Fuel
use undernet_cservice_p.Prelude.{
  ℕ, zero, suc, ◌+◌, Bool, true, false, not, ◌&&◌, ◌||◌, List, [], ◌∷◌, ◌==◌, if◌then◌else◌, Str,
  length, is_digit, head_byte,
}
use undernet_cservice_p.Match.Possible.{xmatch}

abbrev pub is_nil : Str → Bool
is_nil [] = true
is_nil (c ∷ s) = false

-- if (*p) p++;
abbrev pub tail : Str → Str
tail [] = []
tail (c ∷ s) = s

abbrev pub is_bang_or_at : ℕ → Bool
is_bang_or_at c = c == b'!' || c == b'@'

abbrev pub is_at : ℕ → Bool
is_at c = c == b'@'

-- The test that clears `ip1` or `ip2` at byte `c` before `p`; `star` is its `*p1 == '*'`, and
-- `first` tells that nothing has been copied yet.
abbrev pub breaks_ip : Bool → Bool → ℕ → Str → Bool
breaks_ip star first c p =
    not (is_digit c)
    && not (c == b'.')
    && (not (c == b'*') || not (is_nil p))
    && (star || not first)

pub record Scan : Type 0 where
  pub segment : Str
  pub ip : Bool
  pub rest : Str

-- A loop that copies up to a separator, and what it leaves in the flag.
unfoldable pub scan : (ℕ → Bool) → (ℕ → Bool) → Bool → Bool → Str → Scan
scan stop star first ip [] = record { segment = []; ip = ip; rest = [] }
scan stop star first ip (c ∷ p) =
    let next = scan stop star false (ip && not (breaks_ip (star c) first c p)) p in
    if stop c
    then record { segment = []; ip = ip; rest = c ∷ p }
    else record { segment = c ∷ next.segment; ip = next.ip; rest = next.rest }

abbrev pub is_star_byte : ℕ → Bool
is_star_byte c = c == b'*'

-- The variables at the test of `xmatch`.
pub record Sides : Type 0 where
  pub one : Scan
  pub two : Scan
  pub in_uh : Bool

unfoldable pub read_sides : Bool → Str → Str → Sides
unfolding scan
read_sides in_uh p1 p2 =
    let one = scan is_bang_or_at is_star_byte true true p1 in
    record {
      one = one;
      two = scan is_bang_or_at is_star_byte true true p2;
      in_uh = in_uh || is_nil one.rest;
    }

-- *p1 != *p2: one of the two has fewer parts, and the other goes on to its host. For the second
-- mask the code tests `*p1 == '*'`.
unfoldable pub align : Sides → Sides
unfolding scan
align s =
    if head_byte s.one.rest == head_byte s.two.rest
    then s
    else if head_byte s.one.rest == b'!'
    then (let one = scan is_at is_star_byte true s.one.ip (tail s.one.rest) in
        record { one = one; two = s.two; in_uh = s.in_uh || is_nil one.rest })
    else record {
      one = s.one;
      two = scan is_at (λ _. head_byte s.one.rest == b'*') true s.two.ip (tail s.two.rest);
      in_uh = s.in_uh;
    }

abbrev pub differ : Bool → Bool → Bool
differ true b = not b
differ false b = b

abbrev pub refuses : Sides → Bool
refuses s = (s.in_uh && differ s.one.ip s.two.ip) || not (xmatch s.one.segment s.two.segment)

unfoldable pub compare_loop : ℕ → Bool → Str → Str → Bool
unfolding read_sides align
compare_loop zero in_uh p1 p2 = false
compare_loop (suc f) in_uh p1 p2 =
    let s = align (read_sides in_uh p1 p2) in
    let rest = compare_loop f s.in_uh (tail s.one.rest) (tail s.two.rest) in
    if refuses s then false else if is_nil (tail s.one.rest) then true else rest

-- Each round but the last uses up a separator of `p1`.
unfoldable pub compare : Str → Str → Bool
unfolding compare_loop
compare p1 p2 = compare_loop (suc (length p1)) false p1 p2
