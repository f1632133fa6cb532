-- ===== src/Bans/Masks.antt =====
-- MakeBanMask of Sources/bans.c.
use undernet_cservice_p.Prelude.{
  ℕ, zero, suc, ◌+◌, ◌-◌, Bool, true, false, ◌&&◌, ◌||◌, Option, none, some, List, [], ◌∷◌, ◌++◌,
  ◌==◌, leb, ltb, if◌then◌else◌, Str, codes, length, take, drop, head_byte, is_digit, str_case_eq,
}
use undernet_cservice_p.World.{Aluser}
use undernet_cservice_p.World.Text.{decimal, digits_value}
use undernet_cservice_p.World.Lookup.{hidden}

unfoldable pub is_ipv4 : Str → Bool
is_ipv4 [] = true
is_ipv4 (c ∷ s) = (is_digit c || c == b'.') && is_ipv4 s

unfoldable pub is_ipv6 : Str → Bool
is_ipv6 [] = false
is_ipv6 (c ∷ s) = c == b':' || is_ipv6 s

unfoldable pub skip_digits : Str → Str
skip_digits [] = []
skip_digits (c ∷ s) = let rest = skip_digits s in if is_digit c then rest else c ∷ s

-- The numbers that sscanf reads with "%d.%d.%d.%d" from digits and dots.
unfoldable pub scan_ints : ℕ → Str → List ℕ
unfolding digits_value skip_digits
scan_ints zero s = []
scan_ints (suc k) s =
    let rest = skip_digits s in
    let more = scan_ints k (drop 1 rest) in
    if is_digit (head_byte s)
    then digits_value 0 s ∷ (if head_byte rest == b'.' then more else [])
    else []

-- A class that needs a number which was not read has no defined mask.
unfoldable pub numeric_mask : List ℕ → Option Str
unfolding decimal
numeric_mask (a1 ∷ a2 ∷ []) =
    if leb a1 191 then some (decimal a1 ++ b'.' ∷ decimal a2 ++ codes ".*") else none
numeric_mask (a1 ∷ a2 ∷ a3 ∷ more) =
    if leb a1 191
    then some (decimal a1 ++ b'.' ∷ decimal a2 ++ codes ".*")
    else some (decimal a1 ++ b'.' ∷ decimal a2 ++ b'.' ∷ decimal a3 ++ codes ".*")
numeric_mask _ = none

-- The tokens of strtok at colons, the one begun first.
unfoldable pub tokens : Str → Str → List Str
tokens [] [] = []
tokens (t ∷ token) [] = (t ∷ token) ∷ []
tokens token (c ∷ s) =
    let same = tokens (token ++ c ∷ []) s in
    let next = tokens [] s in
    if c == b':' then (if length token == 0 then next else token ∷ next) else same

unfoldable pub join_tokens : List Str → Str
join_tokens [] = []
join_tokens (t ∷ ts) = t ++ b':' ∷ join_tokens ts

unfoldable pub ipv6_mask : Str → Str
unfolding tokens join_tokens
ipv6_mask site = join_tokens (take 4 (tokens [] site)) ++ codes ":/64"

abbrev last_bytes : ℕ → Str → Str
last_bytes n site = drop (length site - n) site

-- strlen(site) > n && !strncasecmp(site + strlen(site) - n, text, k)
abbrev ends_like : ℕ → ℕ → Str → Str → Bool
ends_like n k text site =
    ltb n (length site) && str_case_eq (take k (last_bytes n site)) (take k text)

-- How many labels from the right are kept, the dot before them included in the search.
unfoldable pub kept_dots : Str → ℕ
unfolding str_case_eq
kept_dots site =
    if ends_like 3 3 (codes ".AU") site
      || ends_like 7 4 (codes ".NET.") site
      || ends_like 7 4 (codes ".COM.") site
      || ends_like 7 4 (codes ".EDU.") site
      || ends_like 6 3 (codes ".AC.") site
    then 3
    else 2

abbrev byte_at : ℕ → Str → ℕ
byte_at i s = head_byte (drop i s)

-- while (i != j && ptr != site): `ptr` as an index, and the dots still to be found.
unfoldable pub walk_back : Str → ℕ → ℕ → ℕ × ℕ
walk_back site ptr zero = (ptr, 0)
walk_back site zero (suc dots) = (0, suc dots)
walk_back site (suc ptr) (suc dots) =
    if byte_at (suc ptr) site == b'.'
    then walk_back site ptr dots
    else walk_back site ptr (suc dots)

unfoldable pub name_mask : Str → Str
unfolding kept_dots walk_back
name_mask site =
    let (ptr, dots) = walk_back site (length site) (kept_dots site) in
    let start = if dots == 0 then ptr + 2 else ptr in
    if start == 0 then site else codes "*." ++ drop start site

unfoldable pub host_mask : Str → Option Str
unfolding is_ipv4 is_ipv6 scan_ints numeric_mask ipv6_mask name_mask
host_mask site =
    if is_ipv4 site
    then numeric_mask (scan_ints 4 site)
    else if is_ipv6 site
    then some (ipv6_mask site)
    else some (name_mask site)

-- while (strlen(ptr) == 10 || *ptr == '~') ptr++;
unfoldable pub strip_user : Str → Str
strip_user [] = []
strip_user (c ∷ s) =
    let rest = strip_user s in if length (c ∷ s) == 10 || c == b'~' then rest else c ∷ s

unfoldable pub user_mask : Str → Str → Str
unfolding strip_user str_case_eq
user_mask username hostmask =
    if str_case_eq (take 4 username) (codes "^wld")
    then codes "*!^wld*@" ++ hostmask
    else codes "*!*" ++ strip_user username ++ b'@' ∷ hostmask

-- MakeBanMask writes `some mask`; `none` is a mask made of numbers that were not read.
unfoldable pub make_ban_mask : Aluser → Option Str
unfolding host_mask user_mask
make_ban_mask luser =
    if hidden luser then some (codes "*!*@" ++ luser.hiddenhost) else elim (host_mask luser.site) [
      | none ↦ none
      | some hostmask ↦ some (user_mask luser.username hostmask)
    ]
