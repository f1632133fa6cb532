-- ===== src/Floodpro.antt =====
-- CheckFlood of Sources/floodpro.c: the protection of a channel against floods.
pub mod Window
use undernet_cservice_p.Prelude.{
  ℕ, ◌+◌, ◌-◌, Bool, true, false, not, ◌&&◌, ◌||◌, Option, none, some, List, [], ◌∷◌, ◌++◌, ◌==◌,
  ltb, leb, if◌then◌else◌, Str, codes, length, remove_if,
}
use undernet_cservice_p.World.{World, Aluser, Auser, Achannel, Amsg, has_flag, lfl_isservice}
use undernet_cservice_p.World.Text.{notice, put_log, decimal}
use undernet_cservice_p.World.Lookup.{
  to_channel, to_user, set_user, log_to_user, gethost, full_mask,
}
use undernet_cservice_p.Kicks.{kick}
use undernet_cservice_p.ShitList.Table.{is_shit}
use undernet_cservice_p.ShitList.Commands.{add_to_shit_list}
use undernet_cservice_p.Suspend.{suspend}

-- PUBLIC_FLOOD_SUSPEND_TIME, PUBLIC_FLOOD_SHITLIST_TIME and PUBLIC_FLOOD_SHITLIST_LEVEL
abbrev public_flood_suspend_time : ℕ
public_flood_suspend_time = 600

abbrev public_flood_shitlist_time : ℕ
public_flood_shitlist_time = 24

abbrev public_flood_shitlist_level : ℕ
public_flood_shitlist_level = 75

-- msg->time < (now - 15)
abbrev pub is_old_msg : ℕ → Amsg → Bool
is_old_msg now msg = ltb (msg.time + 15) now

-- The history without the old messages, with the new one.
unfoldable pub record_msg : ℕ → ℕ → List Amsg → List Amsg
unfolding remove_if
record_msg now length msghist =
    record { time = now; length = length } ∷ remove_if (is_old_msg now) msghist

abbrev kick_text : ℕ → Str
kick_text count =
    if ltb count 5
    then codes " That was not very smart!"
    else if ltb count 10
    then codes " You're pushing your luck too far!"
    else codes " That was one time too many"

abbrev log_warning : ℕ → World → World
log_warning count w =
    if ltb count 5
    then put_log (codes "First warning") w
    else if ltb count 10
    then put_log (codes "Second warning") w
    else w

-- The level of the ban of a user whose level was `count`.
unfoldable pub flood_level : ℕ → ℕ
flood_level count = if ltb count 10 then count + 5 else public_flood_shitlist_level

unfoldable pub punish_flood : Str → Str → Aluser → World → World
unfolding gethost suspend is_shit kick add_to_shit_list flood_level decimal
punish_flood source channel user w =
    let w1 = notice source (codes "### FLOOD PROTECTION ACTIVATED ###") w in
    let w2 =
      suspend [] channel (full_mask user (gethost user) ++ b' ' ∷ decimal public_flood_suspend_time)
        w1 in
    let count = (is_shit channel user w2).0 in
    let w3 = put_log (codes "FLOODPRO ACTIVATED BY " ++ user.nick ++ codes " ON " ++ channel) w2 in
    let w4 = kick [] channel (user.nick ++ kick_text count) (log_warning count w3) in
    add_to_shit_list [] channel
      (user.nick
        ++ b' ' ∷ decimal public_flood_shitlist_time
        ++ b' ' ∷ decimal (flood_level count)
        ++ codes " *** FLOOD ***")
      0 w4

-- The message of `user`, with what the function returns.
unfoldable pub flood_message : Str → Str → ℕ → Achannel → Auser → World → World × ℕ
unfolding record_msg set_user punish_flood
flood_message source channel len chan user w =
    let msghist = record_msg w.now len user.msghist in
    let w1 = set_user channel source (λ u. record u { msghist = msghist }) w in
    if not chan.on || has_flag user.user.mode lfl_isservice
    then (w, 0)
    else if not (chan.msg_flood_pro == 0) && length msghist == chan.msg_flood_pro
    then (punish_flood source channel user.user w1, 1)
    else (w1, 0)

unfoldable pub flood_lookup : Str → Str → ℕ → World → World × ℕ
unfolding to_channel to_user flood_message
flood_lookup source channel len w = elim (to_channel channel w) [
  | none ↦ (w, 0)
  | some chan ↦ elim (to_user channel source w) [
    | none ↦ (w, 0)
    | some user ↦ flood_message source channel len chan user w
  ]
]

unfoldable pub check_flood : Str → Str → ℕ → World → World × ℕ
unfolding log_to_user flood_lookup
check_flood source channel len w = flood_lookup source channel len (log_to_user channel source w)
