-- ===== src/ShitList/Table.antt =====
-- sl_hash, IsShit and CleanShitList of Sources/shitlist.c.
use undernet_cservice_p.Prelude.{
  ℕ, ◌%◌, Bool, not, ◌&&◌, ◌||◌, Option, none, some, List, [], ◌∷◌, ◌++◌, ◌==◌, leb, ltb,
  if◌then◌else◌, Str, codes, drop, find, str_case_eq,
}
use undernet_cservice_p.World.{World, Aluser, ShitUser}
use undernet_cservice_p.World.Text.{notice, put_log}
use undernet_cservice_p.World.Lookup.{to_channel, sum_upper, full_mask, hidden, access}
use undernet_cservice_p.Match.Mask.{matches}
use undernet_cservice_p.Bans.Commands.{unban, is_empty}

-- The bytes from the second on.
unfoldable pub sl_hash : Str → ℕ
unfolding sum_upper
sl_hash channel = sum_upper (drop 1 channel) % 1000

abbrev hidden_mask : Aluser → Str
hidden_mask user = if hidden user then full_mask user user.hiddenhost else full_mask user user.site

unfoldable pub is_banned_by : Str → Aluser → ShitUser → Bool
unfolding matches
is_banned_by channel luser curr =
    matches channel curr.channel
    && (matches (full_mask luser luser.site) curr.match || matches (hidden_mask luser) curr.match)

-- The level, and what the caller may have written to `out` and `reason`.
unfoldable pub is_shit : Str → Aluser → World → ℕ × Option (Str × Str)
unfolding sl_hash is_banned_by find
is_shit channel luser w = elim (find (is_banned_by channel luser) (w.shit_list (sl_hash channel))) [
  | none ↦ (0, none)
  | some curr ↦ (
    curr.level,
    some (if hidden luser then codes "*!*@" ++ luser.hiddenhost else curr.match, curr.reason),
  )
]

abbrev pub set_bucket : ℕ → List ShitUser → World → World
set_bucket i list w = record w { shit_list = λ j. if j == i then list else w.shit_list j }

-- The loop of `CleanShitList`: the entries that stay.
unfoldable pub clean_entries : Str → List ShitUser → World → World × List ShitUser
unfolding to_channel unban str_case_eq
clean_entries channel [] w = (w, [])
clean_entries channel (curr ∷ list) w = elim (to_channel curr.channel w) [
  | none ↦ clean_entries channel list w
  | some chan ↦
      if (leb curr.expiration w.now && str_case_eq channel chan.name) || curr.level == 0
      then clean_entries channel list
          (if chan.on && chan.am_chan_op then unban [] curr.channel curr.match w else w)
      else (let (w1, kept) = clean_entries channel list w in (w1, curr ∷ kept))
]

-- CLEAN_SHITLIST_LEVEL
abbrev clean_shitlist_level : ℕ
clean_shitlist_level = 200

unfoldable pub clean_shit_list : Str → Str → World → World
unfolding access sl_hash clean_entries
clean_shit_list source channel w =
    if not (is_empty source) && ltb (access channel source w) clean_shitlist_level
    then notice source (codes "Your admin Access is too low") w
    else (let i = sl_hash channel in
        let (w1, kept) = clean_entries channel (w.shit_list i) w in
        let w2 = set_bucket i kept w1 in
        let w3 =
          if is_empty source then w2 else notice source (codes "Ban list is now up-to-date") w2 in
        put_log (codes "Cleaned banlist on " ++ channel) w3)
