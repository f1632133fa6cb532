-- ===== src/Ignore/Floods.antt =====
-- CheckPrivateFlood, CheckFloodFlood and CheckAdduserFlood of Sources/ignore.c, which fill the ignore
-- list.
use undernet_cservice_p.Prelude.{
  ℕ, suc, ◌+◌, ◌-◌, Bool, true, false, ◌&&◌, ◌||◌, none, some, List, [], ◌∷◌, ◌++◌, leb, ltb,
  if◌then◌else◌, Str, codes, remove_if, str_case_eq,
}
use undernet_cservice_p.World.{World, Aluser, Aprivmsg, has_flag, lfl_isservice, crash}
use undernet_cservice_p.World.Text.{put_log}
use undernet_cservice_p.World.Lookup.{to_luser, gethost, is_valid, access, broadcast}
use undernet_cservice_p.Match.Hostmask.{compare}
use undernet_cservice_p.Bans.Masks.{make_ban_mask}
use undernet_cservice_p.Ignore.{is_ignored, add_ignore}

-- IsValid(user, global) && Access(global, source) >= 1
abbrev pub is_admin : Aluser → Str → World → Bool
is_admin user source w = is_valid user (codes "*") && leb 1 (access (codes "*") source w)

-- The messages that are not older than `age` seconds, behind the new one.
unfoldable pub record_message : ℕ → ℕ → Str → ℕ → List Aprivmsg → List Aprivmsg
unfolding remove_if
record_message now age user length list =
    record { user = user; time = now; length = length }
    ∷ remove_if (λ m. ltb m.time (now - age)) list

unfoldable pub count_messages : (Str → Bool) → List Aprivmsg → ℕ × ℕ
count_messages same [] = (0, 0)
count_messages same (msg ∷ list) =
    let (count, size) = count_messages same list in
    if same msg.user then (suc count, size + msg.length) else (count, size)

-- What the three checks do with a flood: `text` is the report, without its server.
unfoldable pub punish : Str → Aluser → Str → ℕ → World → World
unfolding is_ignored broadcast make_ban_mask add_ignore
punish source user text t w =
    let (w1, found) = is_ignored source w in
    let w2 =
      if found
      then w1
      else broadcast (text ++ codes " (" ++ user.server_name ++ codes ")") true (put_log text w1) in
    elim (make_ban_mask user) [ none ↦ crash w2 | some mask ↦ add_ignore source mask t w2 ]

-- user@host and nick!user@host, with the host that others see.
abbrev pub userhost : Aluser → Str
userhost user = user.username ++ b'@' ∷ gethost user

-- PRIVATE_FLOOD_RATE, PRIVATE_FLOOD_SIZE and IGNORE_TIME
abbrev pub private_flood_rate : ℕ
private_flood_rate = 10

abbrev pub private_flood_size : ℕ
private_flood_size = 800

abbrev pub ignore_time : ℕ
ignore_time = 3600

abbrev pub check_private_user : Str → Aluser → ℕ → Str → World → World × Bool
check_private_user source user length type w =
    let list = record_message w.now 30 (userhost user) length w.message_list in
    let (count, size) = count_messages (compare (userhost user)) list in
    let w1 = record w { message_list = list } in
    if leb private_flood_rate count || leb private_flood_size size
    then (
      punish source user (type ++ codes "FLOOD from " ++ user.nick ++ b'!' ∷ userhost user)
          ignore_time w1,
      true,
    )
    else (w1, false)

unfoldable pub check_private_flood : Str → ℕ → Str → World → World × Bool
unfolding to_luser is_valid access record_message count_messages punish gethost compare
check_private_flood source length type w = elim (to_luser source w) [
  | none ↦ (put_log (codes "ERROR! CheckPrivateFlood(): " ++ source ++ codes " not found") w, true)
  | some user ↦
      if is_admin user source w || has_flag user.mode lfl_isservice
      then (w, false)
      else check_private_user source user length type w
]

-- FLOOD_FLOOD_RATE, FLOOD_FLOOD_SIZE and FLOOD_FLOOD_IGNORE
abbrev pub flood_flood_rate : ℕ
flood_flood_rate = 10

abbrev pub flood_flood_size : ℕ
flood_flood_size = 60

abbrev pub flood_flood_ignore : ℕ
flood_flood_ignore = 300

abbrev pub check_flood_user : Str → Aluser → ℕ → World → World × Bool
check_flood_user source user length w =
    let list = record_message w.now 30 (userhost user) length w.flood_list in
    let (count, size) = count_messages (compare (userhost user)) list in
    let w1 = record w { flood_list = list } in
    if leb flood_flood_rate count || leb flood_flood_size size
    then (
      punish source user (codes "OUTPUT-FLOOD from " ++ user.nick ++ b'!' ∷ userhost user)
          flood_flood_ignore w1,
      true,
    )
    else (w1, false)

unfoldable pub check_flood_flood : Str → ℕ → World → World × Bool
unfolding to_luser is_valid access record_message count_messages punish gethost compare
check_flood_flood source length w = elim (to_luser source w) [
  | none ↦ (put_log (codes "ERROR! CheckFloodFlood(): " ++ source ++ codes " not found") w, true)
  | some user ↦
      if is_admin user source w || has_flag user.mode lfl_isservice
      then (w, false)
      else check_flood_user source user length w
]

-- DEFAULT_USERNAME and DEFAULT_HOSTNAME of config.h.dist
abbrev is_default_user : Aluser → Bool
is_default_user user =
    str_case_eq user.username (codes "cservice") && str_case_eq user.site (codes "undernet.org")

-- The list holds channels here: the additions to one channel are counted.
abbrev pub check_adduser_user : Str → Aluser → Str → World → World × Bool
check_adduser_user source user channel w =
    let list = record_message w.now 3600 channel 0 w.add_user_flood_list in
    let (count, _) = count_messages (str_case_eq channel) list in
    let w1 = record w { add_user_flood_list = list } in
    if leb 20 count
    then (
      punish source user
          (codes "ADDUSER-FLOOD from "
            ++ user.nick
            ++ b'!' ∷ userhost user
            ++ codes " ["
            ++ channel
            ++ codes "]")
          120 w1,
      true,
    )
    else (w1, false)

unfoldable pub check_adduser_flood : Str → Str → World → World × Bool
unfolding to_luser is_valid access record_message count_messages punish gethost str_case_eq
check_adduser_flood source channel w = elim (to_luser source w) [
  | none ↦ (put_log (codes "ERROR! CheckAdduserFlood(): " ++ source ++ codes " not found") w, true)
  | some user ↦
      if is_admin user source w || is_default_user user
      then (w, false)
      else check_adduser_user source user channel w
]
