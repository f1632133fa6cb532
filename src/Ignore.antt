-- ===== src/Ignore.antt =====
-- Sources/ignore.c: the ignore list, without FAKE_UWORLD.
pub mod Floods
pub mod Expiry
use undernet_cservice_p.Prelude.{
  ℕ, zero, suc, ◌+◌, ◌-◌, ◌/◌, Bool, true, false, not, ◌&&◌, ◌||◌, Option, none, some, List, [],
  ◌∷◌, ◌++◌, ◌==◌, leb, ltb, if◌then◌else◌, Str, codes, remove_if, str_case_eq, ℤ, pos,
}
use undernet_cservice_p.World.{
  World, Aluser, Aignore, Aprivmsg, not_access, emit, has_flag, lfl_isservice, crash,
}
use undernet_cservice_p.World.Text.{notice, put_log, send_to_serv, decimal, line_end}
use undernet_cservice_p.World.Lookup.{
  to_luser, get_nick, gethost, hidden, full_mask, is_valid, access, broadcast,
}
use undernet_cservice_p.Event.{add_event, clean_ignores}
use undernet_cservice_p.Words.{get_word}
use undernet_cservice_p.Match.Case.{mycasecmp}
use undernet_cservice_p.Match.Hostmask.{compare}
use undernet_cservice_p.Bans.Masks.{make_ban_mask}
use undernet_cservice_p.Bans.Commands.{is_empty}

unfoldable pub add_silence : Str → Str → World → World
add_silence num mask w =
    send_to_serv (w.my_yyxxx ++ codes " U " ++ num ++ codes " " ++ mask ++ line_end) w

unfoldable pub rem_silence : Str → World → World
rem_silence mask w = send_to_serv (w.my_yyxxx ++ codes " U * -" ++ mask ++ line_end) w

-- The loop of `IsIgnored`, which sends the first mask that is found.
unfoldable pub ignored_loop : Str → Str → Str → List Aignore → World → World × Bool
unfolding compare add_silence
ignored_loop num userhost hiddenhost [] w = (w, false)
ignored_loop num userhost hiddenhost (curr ∷ list) w =
    let rest = ignored_loop num userhost hiddenhost list w in
    if compare userhost curr.mask || compare hiddenhost curr.mask
    then (add_silence num curr.mask w, true)
    else rest

abbrev pub hidden_mask : Aluser → Str
hidden_mask user = if hidden user then full_mask user user.hiddenhost else full_mask user user.site

unfoldable pub is_ignored : Str → World → World × Bool
unfolding to_luser ignored_loop
is_ignored num w = elim (to_luser num w) [
  | none ↦ (w, true)
  | some user ↦ ignored_loop num (full_mask user user.site) (hidden_mask user) w.ignore_list w
]

-- strchr(mask, '@') + 1, in a mask that has an `@`.
unfoldable pub site_of : Str → Str
site_of [] = []
site_of (c ∷ s) = let rest = site_of s in if c == b'@' then s else rest

abbrev is_pos_zero : ℤ → Bool
is_pos_zero (pos n) = n == 0
is_pos_zero _ = false

unfoldable pub count_site : Str → List Aignore → ℕ
unfolding site_of mycasecmp
count_site site [] = 0
count_site site (curr ∷ list) =
    let rest = count_site site list in
    if is_pos_zero (mycasecmp (site_of curr.mask) site) then suc rest else rest

-- MAX_IGNORE_PER_SITE
abbrev pub max_ignore_per_site : ℕ
max_ignore_per_site = 3

-- The entry is linked in, the server told, and its removal scheduled.
unfoldable pub link_ignore : Str → ℕ → World → World
unfolding add_event
link_ignore mask time w = record w {
  ignore_list = record { mask = mask; time = time } ∷ w.ignore_list;
}

unfoldable pub schedule_clean : ℕ → World → World
unfolding add_event
schedule_clean time w = record w { event_list = add_event clean_ignores time [] w.event_list }

abbrev ignore_site : Str → Str → World → World
ignore_site source site w0 =
    let mask = codes "*!*@" ++ site in
    let w1 =
      put_log (codes "Too many ignores.. ignoring the whole site")
        (link_ignore mask (w0.now + 300) w0) in
    let w2 = broadcast (codes "Ignoring the whole site! (" ++ site ++ codes ")") true w1 in
    schedule_clean (w0.now + 300) (add_silence source mask w2)

unfoldable pub add_ignore : Str → Str → ℕ → World → World
unfolding is_ignored count_site link_ignore add_silence schedule_clean broadcast site_of
add_ignore source mask t w =
    let (w1, found) = is_ignored source w in
    if found
    then w1
    else (let site = site_of mask in
        let count = count_site site w1.ignore_list in
        let w2 = add_silence source mask (link_ignore mask (w1.now + t) w1) in
        let w3 =
          notice source (codes "I don't like being flooded! I will ignore you from now on.") w2 in
        let w4 = schedule_clean (w1.now + t) w3 in
        if leb (max_ignore_per_site - 1) count then ignore_site source site w4 else w4)

-- curr->time <= now
abbrev pub is_over : ℕ → Aignore → Bool
is_over now curr = leb curr.time now

-- The loop of `CleanIgnores`, its output and the list that it leaves.
unfoldable pub clean_loop : List Aignore → World → World
unfolding rem_silence
clean_loop [] w = w
clean_loop (curr ∷ list) w =
    if is_over w.now curr
    then clean_loop list
        (rem_silence curr.mask (put_log (codes "Removing ignore for " ++ curr.mask) w))
    else clean_loop list w

unfoldable pub clean_ignore_list : World → World
unfolding clean_loop remove_if
clean_ignore_list w =
    let cleaned = clean_loop w.ignore_list w in
    record cleaned { ignore_list = remove_if (is_over w.now) w.ignore_list }

-- (curr->time - now) / 60 + 1, of an entry whose time has not passed.
unfoldable pub show_loop : Str → List Aignore → World → World
unfolding decimal
show_loop source [] w = w
show_loop source (curr ∷ list) w =
    let m = (curr.time - w.now) / 60 + 1 in
    show_loop source list (
      notice source
        (curr.mask
          ++ codes " for "
          ++ decimal m
          ++ codes " minute"
          ++ (if ltb 1 m then codes "s" else []))
        w)

unfoldable pub show_ignore_list : Str → World → World
unfolding show_loop
show_ignore_list source w = elim w.ignore_list [
  | [] ↦ notice source (codes "Ignore list is empty") w
  | curr ∷ list ↦ show_loop source (curr ∷ list) (notice source (codes "Ignore list:") w)
]

abbrev is_named : Str → Aignore → Bool
is_named mask curr = str_case_eq curr.mask mask || str_case_eq mask (codes "all")

unfoldable pub remove_loop : Str → Str → List Aignore → World → World
unfolding rem_silence str_case_eq
remove_loop source mask [] w = w
remove_loop source mask (curr ∷ list) w =
    if is_named mask curr
    then remove_loop source mask list (
        rem_silence curr.mask (
          put_log (codes "removed " ++ curr.mask)
            (notice source (codes "removed " ++ curr.mask) w)))
    else remove_loop source mask list w

unfoldable pub any_named : Str → List Aignore → Bool
unfolding str_case_eq
any_named mask [] = false
any_named mask (curr ∷ list) = is_named mask curr || any_named mask list

-- GetNick(source) is printed as glibc prints a NULL.
abbrev nick_or_null : Option Str → Str
nick_or_null none = codes "(null)"
nick_or_null (some nick) = nick

-- XADMIN_LEVEL
abbrev xadmin_level : ℕ
xadmin_level = 750

unfoldable pub admin_remove_ignore : Str → Str → World → World
unfolding access get_word remove_loop any_named remove_if get_nick broadcast
admin_remove_ignore source args w =
    let mask = get_word 0 args in
    if ltb (access (codes "*") source w) xadmin_level
    then emit (not_access source (codes "*")) w
    else if is_empty mask
    then notice source (codes "SYNTAX: remignore <mask|all>") w
    else (let removed = remove_loop source mask w.ignore_list w in
        let w1 : World = record removed { ignore_list = remove_if (is_named mask) w.ignore_list } in
        if any_named mask w.ignore_list
        then broadcast
            (nick_or_null (get_nick source w) ++ codes " removed ignore for [" ++ mask ++ codes "]")
            true w1
        else w1)
