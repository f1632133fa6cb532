-- ===== src/ShitList/Commands.antt =====
-- AddToShitList and RemShitList of Sources/shitlist.c.
use undernet_cservice_p.Prelude.{
  ℕ, suc, ◌+◌, ◌-◌, ◌*◌, Bool, true, false, not, ◌&&◌, ◌||◌, Option, none, some, List, [], ◌∷◌,
  ◌++◌, ◌==◌, leb, ltb, if◌then◌else◌, Str, codes, length, take, head_byte, is_digit, str_eq,
  str_case_eq, ℤ, pos, negsuc,
}
use undernet_cservice_p.World.{
  World, ShitUser, rpl_op_only, rpl_is_service, replied, not_access, emit, crash, has_flag,
  cfl_oponly, lfl_isservice,
}
use undernet_cservice_p.World.Text.{notice, atoi, decimal}
use undernet_cservice_p.World.Lookup.{
  to_channel, to_luser, to_luser_nick, get_nick, gethost, full_mask, access,
}
use undernet_cservice_p.Words.{get_word, to_word}
use undernet_cservice_p.Event.{add_event, clean_shitlist}
use undernet_cservice_p.Match.Mask.{matches}
use undernet_cservice_p.Bans.Masks.{make_ban_mask}
use undernet_cservice_p.Bans.Commands.{channel_of, mban, unban, is_empty}
use undernet_cservice_p.Kicks.{kick}
use undernet_cservice_p.ShitList.Table.{sl_hash, set_bucket, clean_shit_list}

-- MASTER_ACCESS and MAX_BAN_DURATION of config.h.dist, and the levels of Sources/defines.h
abbrev master_access : ℕ
master_access = 1000

abbrev max_ban_duration : ℕ
max_ban_duration = 14

abbrev add_to_shitlist_level : ℕ
add_to_shitlist_level = 75

abbrev auto_kick_shit_level : ℕ
auto_kick_shit_level = 75

abbrev shitlist_default_time : ℕ
shitlist_default_time = 24 * 3

abbrev max_ban : ℕ
max_ban = 50

-- *source && force == 0, and the channel is for operators only: its language.
abbrev op_only : Str → ℕ → Str → World → Option ℕ
unfolding to_channel
op_only source force channel w = elim (to_channel channel w) [
  | none ↦ none
  | some chan ↦
      if not (is_empty source) && force == 0 && has_flag chan.flags cfl_oponly
      then some chan.lang
      else none
]

abbrev src_access : Str → ℕ → Str → World → ℕ
unfolding access
src_access source force channel w =
    if is_empty source || ltb 0 force then master_access + 1 else access channel source w

-- if (strlen(reason) > 200) reason[199] = '\0';
abbrev cut_reason : Str → Str
cut_reason reason = if ltb 200 (length reason) then take 199 reason else reason

-- atoi of a text that begins with a digit.
abbrev nat_of : ℤ → ℕ
nat_of (pos n) = n
nat_of (negsuc n) = 0

-- The offset of a byte.
unfoldable pub index_of : ℕ → Str → Option ℕ
index_of c [] = none
index_of c (d ∷ s) = elim (index_of c s) as (λ _. Option ℕ) [
  | none ↦ if d == c then some 0 else none
  | some i ↦ if d == c then some 0 else some (suc i)
]

-- The pattern that an address stands for. `ptr2` keeps its offset when `*!` is put before it.
unfoldable pub complete_mask : Str → Option Str
unfolding index_of
complete_mask text =
    let (pattern, ptr2) = elim (index_of b'@' text) as (λ _. Str × ℕ) [
      | none ↦ (text ++ codes "@*", length text)
      | some i ↦ (text, i)
    ] in
    elim (index_of b'!' pattern) as (λ _. Option Str) [
      | none ↦ if ltb ptr2 1 then none else some (take 199 (codes "*!" ++ pattern))
      | some ptr1 ↦ if ltb ptr2 ptr1 then none else some pattern
    ]

unfoldable pub count_bans : Str → List ShitUser → ℕ
unfolding str_case_eq
count_bans channel [] = 0
count_bans channel (curr ∷ list) =
    let rest = count_bans channel list in
    if str_case_eq curr.channel channel then suc rest else rest

-- The entry that the loops of `AddToShitList` stop at.
unfoldable pub is_entry : Bool → Str → Str → ShitUser → Bool
unfolding matches str_case_eq
is_entry exact pattern channel curr =
    (if exact then str_case_eq curr.match pattern else matches pattern curr.match)
    && str_case_eq curr.channel channel

-- A write through the pointer that a loop stopped at, or the new entry in front.
unfoldable pub write_entry :
    (ShitUser → Bool) → (ShitUser → ShitUser) → List ShitUser → Bool × List ShitUser
write_entry stop change [] = (false, [])
write_entry stop change (curr ∷ list) =
    let (found, rest) = write_entry stop change list in
    if stop curr then (true, change curr ∷ list) else (found, curr ∷ rest)

-- The entry that is already there is never shortened and its level never lowered.
unfoldable pub merge_entry : ShitUser → ShitUser → ShitUser
merge_entry new curr = record {
  time = new.time;
  expiration =
      if new.level == 0 || ltb curr.expiration new.expiration
      then new.expiration
      else curr.expiration;
  match = curr.match;
  from = new.from;
  reason = new.reason;
  channel = curr.channel;
  level = if new.level == 0 || ltb curr.level new.level then new.level else curr.level;
}

unfoldable pub put_entry : Bool → ShitUser → List ShitUser → List ShitUser
unfolding is_entry merge_entry write_entry
put_entry exact new list =
    let (found, written) =
      write_entry (is_entry exact new.match new.channel) (merge_entry new) list in
    if found then written else new ∷ list

abbrev nick_or_null : Option Str → Str
nick_or_null none = codes "(null)"
nick_or_null (some nick) = nick

-- From the count of bans on.
unfoldable pub store_entry : Str → ℕ → Bool → ShitUser → World → World
unfolding sl_hash count_bans put_entry add_event mban kick get_nick clean_shit_list
store_entry source force exact new w =
    let i = sl_hash new.channel in
    if force == 0
      && not (is_empty source)
      && ltb 0 new.level
      && ltb max_ban (count_bans new.channel (w.shit_list i))
    then notice source
        (codes "Sorry, there are too many bans on your channel. You'll have to remove some first.")
        w
    else (let w1 : World = set_bucket i (put_entry exact new (w.shit_list i)) w in
        let w2 : World = record w1 {
          event_list = add_event clean_shitlist new.expiration new.channel w1.event_list;
        } in
        let w3 : World =
          if not (is_empty source) && force == 0
          then notice source (codes "Ban list updated") w2
          else w2 in
        let w4 : World =
          if leb auto_kick_shit_level new.level && force == 0
          then (let banned = mban [] new.channel new.match w3 in
              kick [] new.channel
                (new.match
                  ++ codes " ("
                  ++ nick_or_null (get_nick source banned)
                  ++ codes ") "
                  ++ new.reason)
                banned)
          else w3 in
        if force == 0 then clean_shit_list [] new.channel w4 else w4)

abbrev source_mask : Str → World → Str
unfolding to_luser gethost
source_mask source w = elim (to_luser source w) [
  | none ↦ source
  | some luser ↦ full_mask luser (gethost luser)
]

-- replies[RPL_ISSERVICE][chan->lang]: `chan` has a value only where `source` is set and `force` is
-- not, and may be NULL there.
abbrev service_reply : Str → ℕ → Str → Str → World → World
unfolding to_channel
service_reply source force channel pattern w =
    if is_empty source || ltb 0 force then crash w else elim (to_channel channel w) [
      | none ↦ crash w
      | some chan ↦ emit (replied source rpl_is_service chan.lang pattern) w
    ]

-- From the look for the user on; `new` has the pattern as it was written.
unfoldable pub place_ban : Str → ℕ → ShitUser → World → World
unfolding to_luser_nick to_channel make_ban_mask complete_mask store_entry
place_ban source force new w = elim (to_luser_nick new.match w) [
  | some luser ↦
      if has_flag luser.mode lfl_isservice
      then service_reply source force new.channel new.match w
      else elim (make_ban_mask luser) [
        | none ↦ crash w
        | some mask ↦ store_entry source force false (record new { match = mask }) w
      ]
  | none ↦ elim (complete_mask new.match) [
    | none ↦ notice source (codes "Illegal ban mask") w
    | some mask ↦ store_entry source force true (record new { match = mask }) w
  ]
]

unfoldable pub add_to_shit_list : Str → Str → Str → ℕ → World → World
unfolding channel_of to_channel access get_word to_word atoi place_ban to_luser gethost decimal
    str_eq
add_to_shit_list source ch arguments force w =
    let (channel, args) = channel_of source ch arguments w in
    let level = src_access source force channel w in
    let pattern = get_word 0 args in
    let strtime = get_word 1 args in
    let strlevel = get_word 2 args in
    let duration =
      (if is_empty strtime then shitlist_default_time else nat_of (atoi strtime)) * 3600 in
    let shitlevel : ℕ =
      if is_empty strlevel then auto_kick_shit_level else nat_of (atoi strlevel) in
    elim (op_only source force channel w) [
      | some lang ↦ emit (replied source rpl_op_only lang []) w
      | none ↦
          if str_eq channel (codes "*")
          then notice source
              (codes "SYNTAX: ban <#channel> <nick|address> <duration in hours> <level> <reason>") w
          else if ltb level add_to_shitlist_level
          then emit (not_access source channel) w
          else if is_empty pattern || (not (is_empty strtime) && not (is_digit (head_byte strtime)))
          then notice source
              (codes "SYNTAX: ban [#channel] <nick|address> [duration in hours] [level] [reason]") w
          else if ltb (max_ban_duration * 24 * 3600) duration
          then notice source
              (codes "Invalid duration (Max " ++ decimal max_ban_duration ++ codes " days)") w
          else if ltb shitlevel 1 || ltb 1000 shitlevel
          then notice source (codes "Ban level must be in the range 1-1000") w
          else if ltb level shitlevel
          then notice source (codes "Can't ban to a higher level than your access level.") w
          else place_ban source force
              (record {
                time = w.now;
                expiration = duration + w.now;
                match = pattern;
                from = source_mask source w;
                reason = cut_reason (to_word 3 args);
                channel = channel;
                level = shitlevel;
              })
              w
    ]

-- The entry that the loops of `RemShitList` stop at.
unfoldable pub is_removable : Bool → Str → Str → ℕ → ShitUser → Bool
unfolding matches str_case_eq
is_removable exact pattern channel srcaccess curr =
    (if exact then str_case_eq curr.match pattern else matches pattern curr.match)
    && str_case_eq curr.channel channel
    && not (ltb srcaccess curr.level)

unfoldable pub expire_first : (ShitUser → Bool) → ℕ → List ShitUser → List ShitUser × Bool
expire_first stop time [] = ([], false)
expire_first stop time (curr ∷ list) =
    let (rest, found) = expire_first stop time list in
    if stop curr then (record curr { expiration = time } ∷ list, true) else (curr ∷ rest, found)

unfoldable pub remove_entry : Str → Str → Str → ℕ → ℕ → World → World
unfolding to_luser_nick gethost sl_hash is_removable expire_first clean_shit_list unban
remove_entry source channel pattern srcaccess force w =
    let (text, exact) = elim (to_luser_nick pattern w) as (λ _. Str × Bool) [
      | none ↦ (pattern, true)
      | some luser ↦ (full_mask luser (gethost luser), false)
    ] in
    let i = sl_hash channel in
    let (list, found) =
      expire_first (is_removable exact text channel srcaccess) (w.now - 1) (w.shit_list i) in
    let w1 : World = set_bucket i list w in
    if found
    then clean_shit_list [] channel (
        if not (is_empty source) && force == 0
        then notice source (codes "Ban list updated") w1
        else w1)
    else unban [] channel pattern w

unfoldable pub rem_shit_list : Str → Str → Str → ℕ → World → World
unfolding channel_of to_channel access get_word remove_entry str_eq
rem_shit_list source ch arguments force w =
    let (channel, args) = channel_of source ch arguments w in
    let level = src_access source force channel w in
    let pattern = get_word 0 args in
    elim (op_only source force channel w) [
      | some lang ↦ emit (replied source rpl_op_only lang []) w
      | none ↦
          if str_eq channel (codes "*")
          then notice source (codes "SYNTAX: unban <#channel> <nick|address>") w
          else if ltb level add_to_shitlist_level
          then emit (not_access source channel) w
          else if is_empty pattern
          then notice source (codes "SYNTAX: unban [#channel] <nick|address>") w
          else remove_entry source channel pattern level force w
    ]
