-- ===== src/Membership/Entering.antt =====
-- IsReg, join, joindefault, invite, oninvite, GetOps, onopless, ontopic and onnotice of
-- Sources/channels.c, with ALLOW_PAL and without UWORLD and FAKE_UWORLD.
use undernet_cservice_p.Prelude.{
  ℕ, ◌+◌, Bool, true, false, not, ◌&&◌, ◌||◌, Option, none, some, List, [], ◌∷◌, ◌++◌, map, ◌==◌,
  ltb, leb, if◌then◌else◌, Str, codes, length, find, head_byte, str_eq, str_case_eq,
}
use undernet_cservice_p.World.{
  World, Aluser, Achannel, Adefchan, RegUser, rpl_not_on_channel, rpl_op_only, rpl_not_chanop,
  rpl_already_on_channel, rpl_i_invited, rpl_you_are_invited, replied, not_access, emit, crash,
  has_flag, cfl_oponly, cfl_alwaysop,
}
use undernet_cservice_p.World.Text.{notice, put_log, send_to_serv, decimal, line_end}
use undernet_cservice_p.World.Lookup.{
  to_channel, set_channel, to_luser, to_luser_nick, to_user, get_nick, guess_channel, access,
}
use undernet_cservice_p.Words.{get_word, getn_word, to_word}
use undernet_cservice_p.Event.{add_event, getops}
use undernet_cservice_p.Modes.Flags.{has_byte, is_set}
use undernet_cservice_p.Bans.Commands.{is_empty}
use undernet_cservice_p.Ignore.Floods.{check_private_flood}
use undernet_cservice_p.Floodpro.{check_flood}
use undernet_cservice_p.ModeChange.{mode_change}
use undernet_cservice_p.Membership.Leaving.{is_opless}
use undernet_cservice_p.Membership.Creating.{new_channel}
use undernet_cservice_p.Membership.{ul_hash, add_int}

-- LEVEL_JOIN, INVITE_LEVEL and GETOPS_ONJOIN_DELAY
abbrev level_join : ℕ
level_join = 450

abbrev invite_level : ℕ
invite_level = 100

abbrev getops_onjoin_delay : ℕ
getops_onjoin_delay = 30

unfoldable pub tolowertmp : ℕ → ℕ
tolowertmp c =
    if (leb b'A' c && leb c b'^') || (leb 192 c && leb c 223 && not (c == 215)) then c + 32 else c

-- `has_file` is whether stat finds the file of a channel.
unfoldable pub is_reg : (Str → Bool) → Str → World → Bool
unfolding ul_hash find str_case_eq
is_reg has_file channel w =
    has_file channel
    || (elim (find (λ (r : RegUser). str_case_eq r.channel channel) (w.user_list (ul_hash channel)))
        as (λ _. Bool) [ none ↦ false | some reg ↦ true ])

-- A channel that is known: the bot's part in it, and the event that asks for the operator.
unfoldable pub join_known : Str → Achannel → World → World
unfolding decimal set_channel is_opless add_event
join_known channel ch w =
    let w1 =
      send_to_serv (w.my_yyxxx ++ codes " J " ++ channel ++ b' ' ∷ decimal ch.ts ++ line_end) w in
    let w2 = set_channel channel (λ c. record c { on = true; lastact = w.now }) w1 in
    if is_opless channel w2 || (has_flag ch.flags cfl_alwaysop && not ch.am_chan_op)
    then record w2 {
      event_list = add_event getops (w.now + getops_onjoin_delay) channel w2.event_list;
    }
    else w2

unfoldable pub join_channel : Str → World → World
unfolding to_channel decimal new_channel join_known
join_channel channel w0 =
    let w = put_log (codes "I JOIN " ++ channel) w0 in
    elim (to_channel channel w) [
      | none ↦ new_channel channel w.now true (
          send_to_serv
            (w.my_yyxxx
              ++ codes " C "
              ++ channel
              ++ b' ' ∷ decimal (add_int w.now w.ts_offset)
              ++ line_end)
            w)
      | some ch ↦ join_known channel ch w
    ]

abbrev joined_name : Str → Str → Str
unfolding get_word
joined_name chan arg = if head_byte arg == b'#' then get_word 0 arg else get_word 0 chan

unfoldable pub join : (Str → Bool) → Str → Str → Str → World → World
unfolding get_word has_byte tolowertmp access is_reg join_channel str_eq
join has_file source chan arg w =
    let name = joined_name chan arg in
    let channel = map tolowertmp name in
    if has_byte b',' name
    then (if is_empty source then w else notice source (codes "Invalid channel name!") w)
    else if str_eq name (codes "*")
    then notice source (codes "SYNTAX: join <channel>") w
    else if not (is_empty source) && ltb (access channel source w) level_join
    then emit (not_access source channel) w
    else if not (is_empty source) && not (is_reg has_file channel w)
    then notice source (codes "That channel is not registered") w
    else if leb (length channel) 45
    then join_channel channel w
    else w

abbrev is_on : Option Achannel → Bool
is_on none = false
is_on (some c) = c.on

unfoldable pub join_each : (Str → Bool) → List Adefchan → World → World
unfolding to_channel join
join_each has_file [] w = w
join_each has_file (d ∷ defs) w =
    join_each has_file defs
      (if is_on (to_channel d.name w) then w else join has_file [] d.name [] w)

unfoldable pub joindefault : (Str → Bool) → World → World
unfolding join_each
joindefault has_file w = join_each has_file w.def_chan_list w

unfoldable pub get_ops : Str → World → World
unfolding to_channel decimal mode_change
get_ops channel w = elim (to_channel channel w) [
  | none ↦ put_log channel (put_log (codes "ERROR GetOps(): Channel not found!") w)
  | some chan ↦ mode_change w.my_yy channel (codes "+o " ++ w.my_yyxxx ++ b' ' ∷ decimal chan.ts) (
      send_to_serv
        (w.my_yy
          ++ codes " M "
          ++ channel
          ++ codes " +o "
          ++ w.my_yyxxx
          ++ b' ' ∷ decimal chan.ts
          ++ line_end)
        w)
]

unfoldable pub onopless : Str → World → World
unfolding to_channel get_ops
onopless channel w = if is_on (to_channel channel w) then get_ops channel w else w

abbrev invite_args : Str → Str → Str → World → Str × Str
unfolding get_word to_word guess_channel
invite_args source ch args w =
    if head_byte args == b'#'
    then (get_word 0 args, to_word 1 args)
    else (guess_channel source (get_word 0 ch) w, args)

-- GetNick, which glibc prints as (null) where it is NULL.
abbrev nick_or_null : Str → World → Str
unfolding get_nick
nick_or_null source w = elim (get_nick source w) [ none ↦ codes "(null)" | some nick ↦ nick ]

unfoldable pub send_invite : Str → Str → Achannel → Str → Aluser → World → World
unfolding decimal str_eq get_nick
send_invite source channel chan target luser w =
    let w1 =
      send_to_serv
        (w.my_yyxxx
          ++ codes " I "
          ++ target
          ++ b' ' ∷ channel
          ++ b' ' ∷ decimal chan.ts
          ++ line_end)
        w in
    if str_eq luser.num source
    then w1
    else emit
        (replied luser.num rpl_you_are_invited chan.lang (nick_or_null source w ++ b' ' ∷ channel))
        (emit (replied source rpl_i_invited chan.lang (target ++ b' ' ∷ channel)) w1)

-- The nick that is asked for, of the user `luser`. Its record is read without a test for NULL.
unfoldable pub invite_target : Str → Str → Achannel → Str → Aluser → World → World
unfolding to_luser_nick to_user send_invite str_case_eq
invite_target source channel chan named luser w =
    let target = if is_empty named then luser.nick else named in
    if not (str_case_eq target luser.nick) && not (head_byte source == b'_')
    then notice source (codes "You are only allowed to invite yourself") w
    else elim (to_luser_nick target w) [
      | none ↦ crash w
      | some other ↦ elim (to_user channel other.num w) [
        | some user ↦ emit (replied source rpl_already_on_channel chan.lang []) w
        | none ↦ send_invite source channel chan target other w
      ]
    ]

unfoldable pub invite_on : Str → Str → Achannel → Str → World → World
unfolding access is_set get_word to_luser invite_target
invite_on source channel chan args w =
    if has_flag chan.flags cfl_oponly
    then emit (replied source rpl_op_only chan.lang []) w
    else if ltb (access channel source w) invite_level
    then emit (not_access source channel) w
    else if is_set channel b'i' [] w && not chan.am_chan_op
    then emit (replied source rpl_not_chanop chan.lang []) w
    else elim (to_luser source w) [
      | none ↦ crash w
      | some luser ↦ invite_target source channel chan (get_word 0 args) luser w
    ]

unfoldable pub invite : Str → Str → Str → World → World
unfolding to_channel get_word to_word guess_channel invite_on str_eq
invite source ch arguments w =
    let (channel, args) = invite_args source ch arguments w in
    if str_eq channel (codes "*")
    then notice source (codes "SYNTAX: invite [channel]") w
    else elim (to_channel channel w) [
      | none ↦ emit (replied source rpl_not_on_channel 0 []) w
      | some chan ↦
          if chan.on
          then invite_on source channel chan args w
          else emit (replied source rpl_not_on_channel 0 []) w
    ]

-- CHANNELNAME_LENGTH is 200.
unfoldable pub oninvite : (Str → Bool) → Str → Str → World → World
unfolding getn_word get_nick access join
oninvite has_file source args w0 =
    let channel = getn_word 0 args 200 in
    let w =
      put_log (codes "I'M INVITED ON " ++ channel ++ codes " BY " ++ nick_or_null source w0) w0 in
    if ltb 150 (length channel)
    then notice source (codes "yeah.. I know that game!") w
    else if leb level_join (access channel source w)
    then join has_file source channel [] w
    else w

unfoldable pub ontopic : Str → Str → Str → World → World
unfolding check_flood
ontopic source target body w = (check_flood source target (length body + 60) w).0

unfoldable pub onnotice : Str → Str → Str → World → World
unfolding check_flood check_private_flood
onnotice source target body w =
    if head_byte target == b'#'
    then (check_flood source target (length body + 10) w).0
    else (check_private_flood source (length body + 10) (codes "NOTICE-") w).0
