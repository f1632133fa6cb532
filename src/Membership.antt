-- ===== src/Membership.antt =====
-- Who is on which channel: JoinUser and onjoin of Sources/channels.c, and
-- try_find of Sources/userlist.c, with ALLOW_PAL as in config.h.dist. The counters of a RegUser are
-- left out.
pub mod Leaving
pub mod Creating
pub mod Topics
pub mod Bursting
pub mod Entering
pub mod Lookups
pub mod Consistent
pub mod Names
pub mod Opening
pub mod Linking
pub mod Steps
pub mod Runs
pub mod Joins
pub mod Bursts
use undernet_cservice_p.Prelude.{
  ℕ, zero, suc, ◌+◌, ◌-◌, ◌%◌, Bool, true, false, not, ◌&&◌, ◌||◌, Option, none, some, List, [],
  ◌∷◌, ◌++◌, ◌==◌, ltb, leb, if◌then◌else◌, Str, codes, length, take, drop, find, head_byte, str_eq,
  str_case_eq, ℤ, pos, negsuc,
}
use undernet_cservice_p.World.{
  World, Aluser, Auser, Achannel, Achannelnode, Adefchan, AvalChan, RegUser, rpl_not_on_channel,
  rpl_op_only, replied, not_access, emit, has_flag, cfl_oponly, cfl_noop, cfl_alwaysop,
  cfl_autotopic, ufl_autoop,
}
use undernet_cservice_p.World.Text.{notice, put_log, send_to_serv, atoi, line_end}
use undernet_cservice_p.World.Lookup.{
  sum_upper, cl_hash, to_channel, set_channel, to_luser, set_luser, guess_channel, hidden,
  full_mask, is_valid, access,
}
use undernet_cservice_p.Words.{get_word, to_word}
use undernet_cservice_p.Match.Mask.{matches}
use undernet_cservice_p.Modes.{changemode, flushmode}
use undernet_cservice_p.Bans.Commands.{is_empty, mban}
use undernet_cservice_p.Kicks.{kick}
use undernet_cservice_p.ShitList.Table.{is_shit}
use undernet_cservice_p.Ops.{op, no_op_shit_level}
use undernet_cservice_p.ModeChange.{bounce}
use undernet_cservice_p.Membership.Leaving.{split_commas, onpart}
use undernet_cservice_p.Membership.Creating.{find_defs, new_channel}
use undernet_cservice_p.Membership.Topics.{topic}

-- AUTO_KICK_SHIT_LEVEL and AUTOTOPIC_FREQ
abbrev auto_kick_shit_level : ℕ
auto_kick_shit_level = 75

abbrev autotopic_freq : ℕ
autotopic_freq = 1800

-- The bytes from the second on.
unfoldable pub ul_hash : Str → ℕ
unfolding sum_upper
ul_hash channel = sum_upper (drop 1 channel) % 1000

unfoldable pub is_open : Str → Str → RegUser → Bool
unfolding matches str_case_eq
is_open channel userhost reg =
    str_case_eq reg.channel channel && matches userhost reg.match && is_empty reg.passwd

abbrev user_host : Aluser → Str
user_host user = if hidden user then full_mask user user.hiddenhost else full_mask user user.site

unfoldable pub try_find : Str → Aluser → World → World
unfolding is_valid ul_hash is_open find set_luser
try_find channel user w =
    if is_valid user channel
    then w
    else elim (find (is_open channel (user_host user)) (w.user_list (ul_hash channel))) [
      | none ↦ w
      | some reg ↦
          set_luser user.num
            (λ u. record u { valchan = record { name = channel; reg = reg } ∷ u.valchan }) w
    ]

-- The two nodes that link a user and a channel.
unfoldable pub add_node : Str → Aluser → Aluser
add_node channel u = record u { channel = record { name = channel; nickhist = [] } ∷ u.channel }

unfoldable pub add_user : Aluser → Bool → Achannel → Achannel
add_user user is_op c = record c {
  lastjoin = user.num;
  users = record { user = user; chanop = is_op; msghist = []; deophist = [] } ∷ c.users;
}

unfoldable pub link_user : Aluser → Bool → Str → World → World
unfolding set_luser set_channel add_node add_user
link_user user is_op channel w =
    set_channel channel (add_user (add_node channel user) is_op)
      (set_luser user.num (add_node channel) w)

-- What the record of a user allows on a channel.
unfoldable pub valid_reg : Aluser → Str → Option RegUser
unfolding find str_case_eq
valid_reg user channel = elim (find (λ v. str_case_eq v.name channel) user.valchan) [
  | none ↦ none
  | some v ↦ some v.reg
]

-- reg && (reg->flags & UFL_AUTOOP) && reg->suspend < now && *reg->passwd != '\0'
unfoldable pub may_autoop : Option RegUser → ℕ → Bool
may_autoop none now = false
may_autoop (some reg) now =
    has_flag reg.flags ufl_autoop && ltb reg.suspend now && not (is_empty reg.passwd)

abbrev found_mask : Option (Str × Str) → Str × Str
found_mask none = ([], [])
found_mask (some found) = found

unfoldable pub kick_banned : Aluser → Str → Str × Str → World → World
unfolding mban kick
kick_banned user channel (mask, reason) w =
    kick [] channel (mask ++ b' ' ∷ mask ++ codes " [" ++ reason ++ codes "]") (
      mban [] channel mask (
        notice user.num (codes "*** Sorry. You are on my banlist ***")
          (put_log (codes "Detected banned user (AUTO-KICK LEVEL)") w)))

unfoldable pub check_join : Aluser → Achannel → World → World
unfolding valid_reg is_shit may_autoop kick_banned op
check_join user chan w =
    let (level, found) = is_shit chan.name user w in
    if not (chan.on && chan.am_chan_op)
    then w
    else if leb auto_kick_shit_level level
    then kick_banned user chan.name (found_mask found) w
    else if may_autoop (valid_reg user chan.name) w.now
        && not (has_flag chan.flags cfl_noop)
        && ltb level no_op_shit_level
    then op [] chan.name user.nick w
    else w

-- The default topic of a channel, of which `chan` is the present state.
unfoldable pub auto_topic : Achannel → World → World
unfolding find_defs set_channel topic
auto_topic chan w =
    if chan.on
      && chan.am_chan_op
      && has_flag chan.flags cfl_autotopic
      && ltb (chan.lasttopic + autotopic_freq) w.now
    then elim (find_defs chan.name w) [
      | none ↦ w
      | some d ↦
          if is_empty d.url && is_empty d.topic
          then w
          else topic [] chan.name (d.topic ++ codes " (" ++ d.url ++ codes ")")
              (set_channel chan.name (λ c. record c { lasttopic = w.now }) w)
    ]
    else w

abbrev luser_or : Option Aluser → Aluser → Aluser
luser_or none user = user
luser_or (some u) user = u

-- What the pointers `user` and `chan` lead to is read again after each change.
unfoldable pub join_user : Aluser → Bool → Achannel → World → World
unfolding link_user try_find to_luser check_join to_channel auto_topic
join_user user is_op chan w =
    let w1 = link_user user is_op chan.name w in
    if w.bursting
    then w1
    else (let w2 = try_find chan.name (luser_or (to_luser user.num w1) user) w1 in
        let w3 = check_join (luser_or (to_luser user.num w2) user) chan w2 in
        elim (to_channel chan.name w3) [ none ↦ w3 | some c ↦ auto_topic c w3 ])

-- now + TSoffset
abbrev pub add_int : ℕ → ℤ → ℕ
add_int n (pos k) = n + k
add_int n (negsuc k) = n - (k + 1)

abbrev pub nat_of : ℤ → ℕ
nat_of (pos n) = n
nat_of (negsuc n) = 0

-- `join 0`: each round leaves one channel of the user.
unfoldable pub part_rounds : ℕ → Str → World → World
unfolding to_luser onpart
part_rounds zero num w = w
part_rounds (suc f) num w = elim (to_luser num w) [
  | none ↦ w
  | some user ↦ elim user.channel [ [] ↦ w | c ∷ rest ↦ part_rounds f num (onpart num c.name w) ]
]

unfoldable pub join_one : Str → Bool → ℕ → Str → World → World
unfolding to_luser to_channel new_channel set_channel join_user
join_one source is_op ts channel w =
    let w1 = elim (to_channel channel w) as (λ _. World) [
      | some chan ↦ w
      | none ↦ new_channel channel (if ts == 0 then add_int w.now w.ts_offset else ts) false w
    ] in
    let w2 = set_channel channel (λ c. record c { lastact = w.now }) w1 in
    elim (to_luser source w2) [
      | none ↦ w2
      | some user ↦ elim (to_channel channel w2) [
        | none ↦ w2
        | some chan ↦ join_user user is_op chan w2
      ]
    ]

unfoldable pub join_word : Str → Bool → ℕ → Str → World → World
unfolding to_luser part_rounds join_one str_eq
join_word source is_op ts channel w =
    if str_eq channel (codes "0")
    then elim (to_luser source w) [
      | none ↦ w
      | some user ↦ part_rounds (length user.channel) source w
    ]
    else if is_empty channel
    then put_log
        (codes "ERROR: onjoin(): JOIN to null channel ("
          ++ channel
          ++ codes ")! ("
          ++ source
          ++ codes ")")
        w
    else join_one source is_op ts channel w

unfoldable pub join_words : Str → Bool → ℕ → List Str → World → World
unfolding join_word
join_words source is_op ts [] w = w
join_words source is_op ts (channel ∷ channels) w =
    join_words source is_op ts channels (join_word source is_op ts channel w)

unfoldable pub onjoin : Str → Str → Str → Str → World → World
unfolding to_luser atoi to_word split_commas join_words str_eq
onjoin function source channel args w = elim (to_luser source w) [
  | none ↦ put_log (codes "ERROR onjoin(): Unknown USER " ++ source ++ codes "!") w
  | some user ↦
      join_words source (str_eq function (codes "C")) (nat_of (atoi (to_word 0 args)))
        (split_commas [] channel) w
]
